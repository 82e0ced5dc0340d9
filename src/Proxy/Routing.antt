-- ===== src/Proxy/Routing.antt =====
-- src/proxy/mod.rs: which proxy a destination goes through, and the destination of the proxy.
-- Headers are a parameter type.
pub mod Choice
pub mod Target
use simple_http.Base.{
  ℕ, Bool, true, false, Option, none, some, List, [], ◌∷◌, ◌++◌, if◌then◌else◌, Outcome, ok, err,
  panic, ◌>>=◌,
}
use mathlib.Core.Option
use simple_http.Base.Bytes.{Bytes, codes, bytes_eq}
use simple_http.Io.{IoError}
use simple_http.Uri.{HttpTypes}
use simple_http.Connect.{
  Destination, SetResult, set, parse_error, scheme, host, port, set_scheme, set_host, set_port_opt,
}
use simple_http.Proxy.Tunnel.{io_err}

-- The answers of the trait `Dst`.
pub record Dst : Type 0 where
  pub scheme : Option Bytes
  pub host : Option Bytes
  pub port : Option ℕ

pub data Intercept : Type 0 where
  all http https nothing : Intercept
  custom : (Option Bytes → Option Bytes → Option ℕ → Bool) → Intercept

-- `From<F>` for `Custom` and `Intercept`
unfoldable from : (Option Bytes → Option Bytes → Option ℕ → Bool) → Intercept
from f = custom f

abbrev pub names : Bytes → Option Bytes → Bool
names s none = false
names s (some x) = bytes_eq x s

unfoldable pub matches : Intercept → Dst → Bool
matches all uri = true
matches http uri = names (codes "http") uri.scheme
matches https uri = names (codes "https") uri.scheme
matches nothing uri = false
matches (custom f) uri = f uri.scheme uri.host uri.port

module _ (h : HttpTypes) (HeaderMap : Type 0) where
  -- `impl Dst for Uri` and `impl Dst for Destination`
  abbrev pub uri_dst : h.Uri → Dst
  uri_dst uri = record { scheme = h.scheme_part uri; host = h.host uri; port = h.port_u16 uri }

  unfoldable pub destination_dst : Destination h → Dst
  destination_dst dst = record {
    scheme = some (scheme h dst);
    host = some (host h dst);
    port = port h dst;
  }

  pub record Proxy : Type 0 where
    pub intercept : Intercept
    pub headers : HeaderMap
    pub uri : h.Uri

  -- `self.proxies.iter().find(..)`
  unfoldable pub match_proxy : List Proxy → Dst → Option Proxy
  match_proxy [] uri = none
  match_proxy (p ∷ proxies) uri =
      let later = match_proxy proxies uri in if matches p.intercept uri then some p else later

  -- `http_headers`
  unfoldable pub http_headers : List Proxy → h.Uri → Option HeaderMap
  http_headers proxies uri =
      if names (codes "http") (h.scheme_part uri)
      then Option.map (λ p. p.headers) (match_proxy proxies (uri_dst uri))
      else none

  -- a setter's result under `map_err(io_err)`, with the error's text
  abbrev pub or_io_err : SetResult × Destination h → Outcome IoError (Destination h)
  or_io_err (set, dst) = ok dst
  or_io_err (parse_error, dst) = err (io_err (codes "Parse"))

  abbrev pub missing : Bytes → Bytes → IoError
  missing what shown = io_err (codes "proxy uri missing " ++ (what ++ (codes ": " ++ shown)))

  abbrev pub put_scheme : Bytes → Destination h → Option Bytes → Outcome IoError (Destination h)
  put_scheme shown dst none = err (missing (codes "scheme") shown)
  put_scheme shown dst (some s) = or_io_err (set_scheme h s dst)

  abbrev pub put_host : Bytes → Destination h → Option Bytes → Outcome IoError (Destination h)
  put_host shown dst none = err (missing (codes "host") shown)
  put_host shown dst (some s) = or_io_err (set_host h s dst)

  -- `proxy_dst`; `shown` is the proxy's URI as text.
  unfoldable pub proxy_dst : Bytes → Destination h → h.Uri → Outcome IoError (Destination h)
  proxy_dst shown dst proxy = do
    dst₁ ← put_scheme shown dst (h.scheme_part proxy)
    dst₂ ← put_host shown dst₁ (h.host proxy)
    set_port_opt h (h.port_u16 proxy) dst₂
