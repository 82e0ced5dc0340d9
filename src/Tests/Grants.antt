-- ===== src/Tests/Grants.antt =====
-- A tunnel that is granted, and an https connection through it.
use simple_http.Base.{
  inl, ℕ, suc, ◌-◌, ◌<◌, true, false, some, [], ◌∷◌, ◌≢◌, refl, arith, length, take,
  take-append-drop,
}
use Prim.Native.Nat.{min}
use simple_http.Base.Bytes.{Bytes, codes}
use simple_http.Base.Search.{split, starts_with, ends_with}
use simple_http.Base.Text.{parse_usize, show_nat, is_ascii}
use simple_http.Connect.{
  scheme, host, port, set_scheme, set_host, set_port_opt, update_uri, Destination,
}
use simple_http.Proxy.Tunnel
use simple_http.Proxy.Tunnel.Sound.{Opened}
use simple_http.Proxy.Tunnel.Granting.{PeerAnswers, IsGrant}
use simple_http.Proxy.Routing.{match_proxy, matches, destination_dst, proxy_dst}
use simple_http.Proxy.Connector as Way
use simple_http.Proxy.Connector.{over_tunnel}
use simple_http.Proxy.Connector.Granted.{HandshakeLaw, Tunneled, connect-granted}
use simple_http.Tests.World
use simple_http.Tests.Tunnels.{Pipe, pipes, tunnel_law, pipe_of, pipe_of-fresh, granted}
use simple_http.Tests.Ways.{headers, tls, pipe_connector, through_proxy, proxy, to}

nonempty : (n : ℕ) (xs : Bytes) → xs ≢ [] → 0 < length (take (suc n) xs)
nonempty n [] ne = absurd (ne refl)
nonempty n (x ∷ xs) ne = omega arith

peer_answers : PeerAnswers pipes tunnel_law
peer_answers = record {
  incoming = λ s. s.incoming;
  stalls = λ s. 0;
  write_stalls = λ s c s' c' h. absurd cc;
  write_works = λ s c r s' c' lt h. (
    min (suc s.pace) (length c.bytes - c.position),
    ground arith,
    omega arith,
    omega arith,
    ground arith,
  );
  read_stalls = λ s vec s' vec' h. absurd cc;
  read_works = λ s vec r s' vec' ne h. (
    take (suc s.pace) s.incoming,
    ground arith,
    nonempty s.pace s.incoming ne,
    ground arith,
    omega arith,
    ground (arith, take-append-drop (suc s.pace) s.incoming),
  );
}

granted-IsGrant : IsGrant granted
unfolding starts_with ends_with
granted-IsGrant = record { longer = omega arith; granted = refl; ended = refl }

handshake_law : HandshakeLaw tls
handshake_law = record { ends = λ client name s. inl (_, refl) }

abbrev asked : Bytes
asked = codes "CONNECT h:443 HTTP/1.1\r\nHost: h:443\r\nK: v\r\n\r\n"

abbrev target : Destination World.http
target = record {
  uri = record {
    scheme = some (codes "http");
    authority = some (codes "p", some 3128);
    path = some (codes "/");
  };
}

connect-granted_example :
    (opened : Pipe) × Opened pipes tunnel_law asked opened
    × Tunneled World.http headers pipes tls false
        (host World.http (to (codes "https")))
        opened
        true
        (some true)
        (Way.connect World.http headers pipes tls pipe_connector false
          (λ u. [])
          1
          80
          through_proxy
          (to (codes "https")))
unfolding peer_answers match_proxy matches destination_dst proxy_dst scheme host port set_scheme
    set_host set_port_opt update_uri show_nat split parse_usize is_ascii Tunnel.new
    Tunnel.headers_display
connect-granted_example =
    connect-granted World.http headers pipes tunnel_law peer_answers tls pipe_connector false
      (λ u. []) through_proxy (to (codes "https")) handshake_law 0 80 proxy asked granted target
      (pipe_of granted) false refl refl refl refl refl (pipe_of-fresh granted).0
      (pipe_of-fresh granted).1 granted-IsGrant refl (omega arith) (omega arith)
