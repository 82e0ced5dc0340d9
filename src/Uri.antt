-- ===== src/Uri.antt =====
-- The crates `http` and `hyper` as the source uses them: URIs and their parts, methods, versions
-- and status codes. None of this code is in the repository, so it is a parameter.
use simple_http.Base.{ℕ, ◌≤◌, ◌<◌, ◌≡◌, Option, some}
use simple_http.Base.Bytes.{Bytes}

pub record HttpTypes : Type 1 where
  pub Uri : Type 0
  pub default_uri : Uri
  -- `uri.scheme_part().map(|s| s.as_str())`
  pub scheme_part : Uri → Option Bytes
  pub host : Uri → Option Bytes
  pub port_u16 : Uri → Option ℕ
  -- `uri.path_and_query().map(|v| v.as_str())`
  pub path_and_query : Uri → Option Bytes
  -- `uri::Parts`, with the assignments that the source makes
  pub Parts : Type 0
  pub Scheme : Type 0
  pub Authority : Type 0
  pub into_parts : Uri → Parts
  pub from_parts : Parts → Option Uri
  pub with_scheme : Scheme → Parts → Parts
  pub with_authority : Authority → Parts → Parts
  pub parse_scheme : Bytes → Option Scheme
  -- `Authority::from_shared` and `str::parse::<Authority>`
  pub parse_authority : Bytes → Option Authority
  pub authority_port : Authority → Option ℕ
  pub Method : Type 0
  pub default_method : Method
  pub method_name : Method → Bytes
  pub Version : Type 0
  pub default_version : Version
  pub http_10 : Version
  pub StatusCode : Type 0
  pub status_from_u16 : ℕ → Option StatusCode
  pub status_as_u16 : StatusCode → ℕ

-- `StatusCode::from_u16` takes every number from 100 to 599, and keeps it.
pub record StatusLaw (h : HttpTypes) : Type 0 where
  pub accepts : (n : ℕ) → 100 ≤ n → n < 600 → (s : h.StatusCode) × (h.status_from_u16 n ≡ some s)
  pub keeps : (n : ℕ) (s : h.StatusCode) → h.status_from_u16 n ≡ some s → h.status_as_u16 s ≡ n
