-- ===== src/Connect.antt =====
-- src/connect.rs: the destination of a connection, and its setters. URIs are a parameter.
pub mod Atomic
use simple_http.Base.{
  ℕ, Bool, true, false, ◌||◌, Option, none, some, [], ◌∷◌, ◌++◌, if◌then◌else◌, ◌==◌, Outcome, ok,
  panic, ◌>>=◌, unwrap,
}
use simple_http.Base.Bytes.{Bytes, codes}
use simple_http.Base.Search.{contains}
use simple_http.Base.Text.{show_nat}
use simple_http.Uri.{HttpTypes}
use simple_http.Io.{IoError}

-- `Result<()>` of the setters; `Error` has `Parse` only.
pub data SetResult : Type 0 where
  set parse_error : SetResult

abbrev pub or_empty : Option Bytes → Bytes
or_empty none = []
or_empty (some s) = s

module _ (h : HttpTypes) where
  pub record Destination : Type 0 where
    pub uri : h.Uri

  unfoldable pub scheme : Destination → Bytes
  scheme this = or_empty (h.scheme_part this.uri)

  unfoldable pub host : Destination → Bytes
  host this = or_empty (h.host this.uri)

  unfoldable pub port : Destination → Option ℕ
  port this = h.port_u16 this.uri

  -- the end of `update_uri`: the URI made of the changed parts, or the old one again
  abbrev pub store : h.Uri → Destination → Option h.Uri → SetResult × Destination
  store old_uri this (some uri) = (set, record this { uri = uri })
  store old_uri this none = (parse_error, record this { uri = old_uri })

  -- `update_uri`: the URI is the default one while the parts are changed.
  unfoldable pub update_uri : (h.Parts → h.Parts) → Destination → SetResult × Destination
  update_uri f this =
      store this.uri (record this { uri = h.default_uri })
        (h.from_parts (f (h.into_parts this.uri)))

  abbrev pub set_parsed_scheme : Destination → Option h.Scheme → SetResult × Destination
  set_parsed_scheme this none = (parse_error, this)
  set_parsed_scheme this (some s) = update_uri (h.with_scheme s) this

  unfoldable pub set_scheme : Bytes → Destination → SetResult × Destination
  set_scheme s this = set_parsed_scheme this (h.parse_scheme s)

  abbrev pub without_port : Option h.Authority → Option h.Authority
  without_port none = none
  without_port (some auth) = elim (h.authority_port auth) [ none ↦ some auth | some p ↦ none ]

  -- the authority of the new host, by the port of the destination
  abbrev pub authority_for : Bytes → Option ℕ → Option h.Authority
  authority_for new_host (some p) = h.parse_authority (new_host ++ (codes ":" ++ show_nat p))
  authority_for new_host none = without_port (h.parse_authority new_host)

  abbrev pub set_authority : Destination → Option h.Authority → SetResult × Destination
  set_authority this none = (parse_error, this)
  set_authority this (some auth) = update_uri (h.with_authority auth) this

  unfoldable pub set_host : Bytes → Destination → SetResult × Destination
  unfolding port
  set_host new_host this =
      if contains b'@' new_host
      then (parse_error, this)
      else set_authority this (authority_for new_host (port this))

  abbrev pub expect_set {ℓ} : {E : Type ℓ} → SetResult × Destination → Outcome E Destination
  expect_set (set, this) = ok this
  expect_set (parse_error, this) = panic

  abbrev pub port_authority : Bytes → Option ℕ → Option h.Authority
  port_authority name (some p) = h.parse_authority (name ++ (codes ":" ++ show_nat p))
  port_authority name none = h.parse_authority name

  -- A failed `expect` panics. The buffer has
  -- room for the digits of every port.
  unfoldable pub set_port_opt {ℓ} : {E : Type ℓ} → Option ℕ → Destination → Outcome E Destination
  unfolding host
  set_port_opt new_port this = do
    auth ← unwrap (port_authority (host this) new_port)
    expect_set (update_uri (h.with_authority auth) this)

  -- The argument is what `Into<Option<u16>>` converts.
  unfoldable pub set_port {ℓ κ} :
      {E : Type ℓ} {P : Type κ} → (P → Option ℕ) → P → Destination → Outcome E Destination
  unfolding set_port_opt
  set_port into port this = set_port_opt (into port) this

-- The trait `Connect`, with the future polled until it is ready.
pub record Connector (h : HttpTypes) (Transport Connected : Type 0) : Type 0 where
  pub connect : Destination h → Outcome IoError (Transport × Connected)
