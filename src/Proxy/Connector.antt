-- ===== src/Proxy/Connector.antt =====
-- src/proxy/mod.rs: proxies with their headers, and the connector that goes through them. The inner
-- connector, headers, and `tokio_tls` are parameters.
pub mod Routes
pub mod Granted
use simple_http.Base.{
  ℕ, Bool, true, false, Option, none, some, List, [], ◌∷◌, ◌++◌, ◌⊎◌, inl, inr, if◌then◌else◌,
  Outcome, ok, err, panic, ◌>>=◌, map_err,
}
use simple_http.Base.Bytes.{Bytes, codes, bytes_eq}
use simple_http.Io.{IoError, IoResult}
use simple_http.Io.Drive.{drive}
use simple_http.Uri.{HttpTypes}
use simple_http.Connect.{Destination, scheme, host, port, Connector}
use simple_http.Proxy.Stream.{ProxyStream, regular, secured}
use simple_http.Proxy.Tunnel
use simple_http.Proxy.Tunnel.{TunnelIo, io_err, with_stream}
use simple_http.Proxy.Routing.{
  Intercept, all, http, https, nothing, custom, Proxy, match_proxy, destination_dst, proxy_dst,
}

-- `HeaderMap` with the insertions of `typed_headers`, and the entries in its order
pub record Headers : Type 1 where
  pub HeaderMap : Type 0
  pub empty : HeaderMap
  pub insert : Bytes → Bytes → HeaderMap → HeaderMap
  pub Credentials : Type 0
  pub insert_authorization : Credentials → HeaderMap → HeaderMap
  pub insert_proxy_authorization : Credentials → HeaderMap → HeaderMap
  pub entries : HeaderMap → List (Bytes × Bytes)

-- `native_tls` and `tokio_tls`, with the handshake's future polled until it is ready; errors as
-- texts
pub record TokioTls (Stream : Type 0) : Type 1 where
  pub TlsConnector : Type 0
  pub build : Outcome Bytes TlsConnector
  pub TlsStream : Type 0
  pub connect : TlsConnector → Bytes → Stream → Outcome Bytes TlsStream

module _ (h : HttpTypes) (hs : Headers) where
  abbrev pub Route : Type 0
  Route = Proxy h hs.HeaderMap

  -- `Proxy::new`
  unfoldable pub new : Intercept → h.Uri → Route
  new intercept uri = record { intercept = intercept; uri = uri; headers = hs.empty }

  -- the headers that `set_authorization` inserts, by the filter of the proxy
  abbrev pub authorize : hs.Credentials → Intercept → hs.HeaderMap → hs.HeaderMap
  authorize c http headers = hs.insert_authorization c headers
  authorize c https headers = hs.insert_proxy_authorization c headers
  authorize c filter headers = hs.insert_proxy_authorization c (hs.insert_authorization c headers)

  unfoldable pub set_authorization : hs.Credentials → Route → Route
  set_authorization credentials this = record this {
    headers = authorize credentials this.intercept this.headers;
  }

  unfoldable pub set_header : Bytes → Bytes → Route → Route
  set_header name value this = record this { headers = hs.insert name value this.headers }

  module _ (t : TunnelIo) (k : TokioTls t.Stream) where
    pub record ProxyConnector (C : Type 0) : Type 0 where
      pub proxies : List Route
      pub connector : C
      pub tls : Option k.TlsConnector

    module _ {C : Type 0} where
      unfoldable pub unsecured : C → ProxyConnector C
      unsecured connector = record { proxies = []; connector = connector; tls = none }

      -- `ProxyConnector::new`
      unfoldable pub new_secured : C → Outcome IoError (ProxyConnector C)
      new_secured connector = do
        client ← map_err io_err k.build
        ok (record { proxies = []; connector = connector; tls = some client })

      unfoldable pub add_proxy : Route → ProxyConnector C → ProxyConnector C
      add_proxy proxy this = record this { proxies = this.proxies ++ proxy ∷ [] }

      unfoldable pub from_proxy : C → Route → Outcome IoError (ProxyConnector C)
      unfolding new_secured add_proxy
      from_proxy connector proxy = do c ← new_secured connector; ok (add_proxy proxy c)

      unfoldable pub from_proxy_unsecured : C → Route → ProxyConnector C
      unfolding unsecured add_proxy
      from_proxy_unsecured connector proxy = add_proxy proxy (unsecured connector)

      unfoldable pub with_connector : {D : Type 0} → D → ProxyConnector C → ProxyConnector D
      with_connector connector this = record {
        connector = connector;
        proxies = this.proxies;
        tls = this.tls;
      }

      unfoldable pub set_tls : Option k.TlsConnector → ProxyConnector C → ProxyConnector C
      set_tls client this = record this { tls = client }

      unfoldable pub extend_proxies : List Route → ProxyConnector C → ProxyConnector C
      extend_proxies proxies this = record this { proxies = this.proxies ++ proxies }

    abbrev pub Stream : Type 0
    Stream = ProxyStream t.Stream k.TlsStream

    abbrev pub Connected : Type 0
    Connected = Outcome IoError (Stream × t.Connected)

    -- an error under `map_err(io_err)`
    abbrev pub wrapped : IoError → IoError
    wrapped e = io_err e.message

    abbrev pub port_or_443 : Option ℕ → ℕ
    port_or_443 none = 443
    port_or_443 (some p) = p

    abbrev pub in_regular : t.Stream × t.Connected → Connected
    in_regular (s, c) = ok (regular s, c)

    -- the end of the chain of futures over a tunnel; `fresh` is `Connected::new()`
    unfoldable pub over_tunnel :
        t.Connected → Option k.TlsConnector → Bytes → t.Stream × t.Connected → Connected
    over_tunnel fresh none name (io, c) = ok (regular io, c)
    over_tunnel fresh (some client) name (io, c) = do
      s ← map_err io_err (k.connect client name io)
      ok (secured s, t.proxy true fresh)

    -- The tunnel, of `polls` polls at most with `fuel` rounds each.
    abbrev pub dig :
        ℕ → ℕ → Bytes → t.Stream × t.Connected → Outcome IoError (t.Stream × t.Connected)
    dig polls fuel request (io, c) = drive polls (Tunnel.poll t fuel) (with_stream t request io c)

    module _ {C : Type 0} (inner : C → Connector h t.Stream t.Connected) (fresh : t.Connected)
        (display : h.Uri → Bytes) (polls fuel : ℕ) where
      -- `dst` has the scheme https, and goes through `p`.
      unfoldable pub connect_tunnel : ProxyConnector C → Destination h → Route → Connected
      unfolding over_tunnel
      connect_tunnel this dst p = do
        request ← Tunnel.new t (host h dst) (port_or_443 (port h dst)) (hs.entries p.headers)
        target ← proxy_dst h hs.HeaderMap (display p.uri) dst p.uri
        connection ← map_err wrapped ((inner this.connector).connect target)
        opened ← dig polls fuel request connection
        over_tunnel fresh this.tls (host h dst) opened

      -- Another scheme, through `p`
      unfoldable pub connect_forward : ProxyConnector C → Destination h → Route → Connected
      connect_forward this dst p = do
        target ← proxy_dst h hs.HeaderMap (display p.uri) dst p.uri
        connection ← map_err wrapped ((inner this.connector).connect target)
        in_regular connection

      -- by the proxy that is chosen
      unfoldable pub connect_by : ProxyConnector C → Destination h → Option Route → Connected
      unfolding connect_tunnel connect_forward
      connect_by this dst none = map_err wrapped ((inner this.connector).connect dst) >>= in_regular
      connect_by this dst (some p) =
          if bytes_eq (scheme h dst) (codes "https")
          then connect_tunnel this dst p
          else connect_forward this dst p

      unfoldable pub connect : ProxyConnector C → Destination h → Connected
      unfolding connect_by
      connect this dst =
          connect_by this dst
            (match_proxy h hs.HeaderMap this.proxies (destination_dst h hs.HeaderMap dst))

      -- `ProxyConnector` as a connector
      abbrev pub proxy_connector : ProxyConnector C → Connector h Stream t.Connected
      proxy_connector this = record { connect = connect this }
