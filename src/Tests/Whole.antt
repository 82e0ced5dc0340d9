-- ===== src/Tests/Whole.antt =====
-- A connection of the connector that `HttpsConnector::new` of src/https/client.rs makes.
use simple_http.Base.{
  ℕ, zero, suc, false, none, some, [], ◌∷◌, ◌⊎◌, inl, inr, ◌≡◌, refl, arith, length, ok,
}
use simple_http.Base.Bytes.{Bytes, codes}
use simple_http.Io.{ready}
use simple_http.Io.Streams.{StreamCalls, AsyncIo}
use simple_http.Connect.{Destination}
use simple_http.Http.Dns.{SocketAddr, v4, split_by_preference, partition, is_empty}
use simple_http.Http.Tcp
use simple_http.Http.Tcp.{ConnectingTcp, remote_poll, poll_current, try_next, poll_with}
use simple_http.Http.Connecting.Resolved.{at_once}
use simple_http.Https.Tls.{Native}
use simple_http.Https.Client.{HandshakeError, would_block, failure, TlsClient}
use simple_http.Https.Client.Handshakes.{succeeds, breaks, blocks}
use simple_http.Https.Default.{base, Whole, new, connect_whole, given, new-given}
use simple_http.Tests.World.{http}
use simple_http.Tests.Connections.{tcp, sockets, names, texts, uri_of}
use simple_http.Tests.Tls.{provided}

abbrev pub at443 : ℕ → SocketAddr
at443 n = record { ip = v4 n; port = 443 }

-- The streams of this world keep nothing.
abbrev pub calls : StreamCalls SocketAddr
calls = record {
  read = λ s n. (inr [], s);
  write = λ s buf. (inr (length buf), s);
  flush = λ s. (inr tt, s);
  prepare_uninitialized_buffer = λ s buf. (false, buf);
  read_buf = λ s buf. (ready (inr 0), s, buf);
  shutdown = λ s. (ready (inr tt), s);
  write_buf = λ s c. (ready (inr 0), s, c);
}

abbrev pub streams : AsyncIo
streams = base http tcp sockets names calls

-- A session has the name it was made for.
abbrev native : Native streams
native = record {
  Session = Bytes × SocketAddr;
  read = λ s n. (inr [], s);
  write = λ s buf. (inr (length buf), s);
  flush = λ s. (inr tt, s);
  shutdown = λ s. (inr tt, s);
  transport = λ s. s.1;
  with_transport = λ a s. (s.0, a);
}

-- The handshake of an even connector succeeds, that of an odd one fails; both block once.
abbrev settle :
    ℕ → Bytes × SocketAddr → HandshakeError Bytes (ℕ × Bytes × SocketAddr) ⊎ (Bytes × SocketAddr)
settle zero s = inr s
settle (suc n) s = inl (failure (codes "bad certificate"))

abbrev client : ℕ → TlsClient streams native
client kind = record {
  TlsConnector = ℕ;
  TlsError = Bytes;
  MidHandshake = ℕ × Bytes × SocketAddr;
  build = inr kind;
  connect = λ tls name s. inl (would_block (tls, name, s));
  handshake = λ mid. settle mid.0 (mid.1, mid.2);
  to_string = λ e. e;
}

abbrev target : Destination http
target = record { uri = uri_of (codes "https") (codes "h") }

abbrev pub next : ConnectingTcp tcp
next = record {
  local_addr = none;
  preferred = record { addrs = at443 4 ∷ []; current = some (at443 2, 0) };
  fallback = none;
  reuse_address = false;
}

pub accepted :
    Tcp.poll tcp none (Tcp.new tcp 0 none (at443 2 ∷ at443 4 ∷ []) (some 300) false)
    ≡ ok (ready (at443 2), next)
unfolding Tcp.poll Tcp.new split_by_preference partition is_empty remote_poll poll_current try_next
    poll_with Tcp.connect
accepted = refl

abbrev Given : ℕ → Bytes ⊎ (Bytes × SocketAddr) → Type 0
Given kind result =
    (this : Whole http tcp sockets names calls native (client kind)) × (new http tcp sockets names
        calls native (client kind) (v4 2 ∷ v4 4 ∷ []) 1
      ≡ inr this)
    × (connect_whole http tcp sockets names calls native (client kind) texts 0 provided 1 1 this
          target
        ≡ given http tcp sockets names calls native (client kind) texts 0 provided (at443 2) result)

run-failed : Given 1 (inl (codes "bad certificate"))
run-failed =
    new-given http tcp sockets names calls native (client 1) texts 0 provided (v4 2 ∷ v4 4 ∷ []) 1 1
      target (codes "h") 0 0 (v4 2 ∷ v4 4 ∷ []) next (at443 2) (at443 2) (at443 2)
      (inl (codes "bad certificate")) refl refl refl refl refl
      (at_once {fut' = v4 2 ∷ v4 4 ∷ []} refl) (omega arith) accepted refl refl
      (blocks (1, codes "h", at443 2) (breaks (codes "bad certificate"))) (omega arith)

new-given_example : Given 0 (inr (codes "h", at443 2))
new-given_example =
    new-given http tcp sockets names calls native (client 0) texts 0 provided (v4 2 ∷ v4 4 ∷ []) 1 0
      target (codes "h") 0 0 (v4 2 ∷ v4 4 ∷ []) next (at443 2) (at443 2) (at443 2)
      (inr (codes "h", at443 2)) refl refl refl refl refl (at_once {fut' = v4 2 ∷ v4 4 ∷ []} refl)
      (omega arith) accepted refl refl
      (blocks (0, codes "h", at443 2) (succeeds (codes "h", at443 2))) (omega arith)
