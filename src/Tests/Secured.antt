-- ===== src/Tests/Secured.antt =====
-- A request over TLS, by the connector that `HttpsConnector::new` of src/https/client.rs makes.
use simple_http.Base.{
  ℕ, zero, suc, ◌<◌, some, List, [], ◌∷◌, ◌++◌, ◌≡◌, ◌≢◌, refl, arith, sym, inl, inr, length,
  length-take, take, drop, take-append-drop, ok,
}
use Prim.Native.Nat.{min}
use simple_http.Base.Bytes.{Bytes, codes}
use simple_http.Io.{IoResult, ready}
use simple_http.Request.{Request}
use simple_http.Response
use simple_http.Body
use simple_http.Http.Dns.{SocketAddr}
use simple_http.Https.Tls
use simple_http.Https.Tls.{Native}
use simple_http.Https.Stream.{http, https}
use simple_http.Https.Client.{would_block, TlsClient}
use simple_http.Https.Default.{Whole, WholeStream}
use simple_http.Client.{build}
use simple_http.Client.Over.{TokioIo, over}
use simple_http.Client.Receiving.Served.{ServedLaw}
use simple_http.Tests.World
use simple_http.Tests.Connections.{tcp, sockets, names, texts, uri_of}
use simple_http.Tests.Tls.{provided}
use simple_http.Tests.Whole.{calls, streams}

-- A session has the name it was made for, and what the peer sends.
abbrev Session : Type 0
Session = Bytes × SocketAddr × Bytes

abbrev native : Native streams
native = record {
  Session = Session;
  read = λ s n. (inr [], s);
  write = λ s buf. (inr (length buf), s);
  flush = λ s. (inr tt, s);
  shutdown = λ s. (inr tt, s);
  transport = λ s. s.1;
  with_transport = λ a s. (s.0, a, s.2);
}

abbrev answer : Bytes
answer = codes "HTTP/1.1 404 Not Found\r\nServer: nginx\r\n\r\nnothing here"

abbrev session_for : Bytes → SocketAddr → Session
session_for name addr = (name, addr, answer)

-- A handshake blocks once.
abbrev client : TlsClient streams native
client = record {
  TlsConnector = Unit {0};
  TlsError = Bytes;
  MidHandshake = Bytes × SocketAddr;
  build = inr tt;
  connect = λ tls name s. inl (would_block (name, s));
  handshake = λ mid. inr (session_for mid.0 mid.1);
  to_string = λ e. e;
}

abbrev Stream : Type 0
Stream = WholeStream World.http tcp sockets names calls native client texts 0 provided

abbrev incoming : Stream → Bytes
incoming (http s) = []
incoming (https s) = s.inner.2

abbrev after : ℕ → Stream → Stream
after n (http s) = http s
after n (https s) = https (record { inner = (s.inner.0, s.inner.1, drop n s.inner.2) })

abbrev tokio : TokioIo Stream
tokio = record {
  poll_read = λ s n. (ready (inr (take (min n 7) (incoming s))), after (min n 7) s);
  read = λ s n. ok (take (min n 7) (incoming s), after (min n 7) s);
  write_all = λ s bytes. ok s;
}

not_empty : (n : ℕ) (xs : Bytes) → 0 < n → xs ≢ [] → 0 < length (take (min n 7) xs)
not_empty n [] h ne = absurd (ne refl)
not_empty n (x ∷ xs) h ne = omega (arith, length-take (min n 7) (x ∷ xs))

left_after : (n : ℕ) (s : Stream) → incoming s ≡ take n (incoming s) ++ incoming (after n s)
left_after zero (http s) = refl
left_after (suc n) (http s) = refl
left_after n (https s) = sym (take-append-drop n s.inner.2)

abbrev served_law : ServedLaw (over tokio)
served_law = record {
  incoming = incoming;
  read_part = λ s n h ne. (
    take (min n 7) (incoming s),
    after (min n 7) s,
    refl,
    not_empty n (incoming s) h ne,
    omega (arith, length-take (min n 7) (incoming s)),
    left_after (min n 7) s,
  );
  write_taken = λ s bytes. (s, refl, refl);
}

abbrev post : Request World.http (List (IoResult Bytes))
post = record {
  method = codes "POST";
  version = 10;
  uri = uri_of (codes "https") (codes "h");
  headers = [];
  body = some (inr (codes "ab") ∷ []);
}

abbrev Connector : Type 0
Connector = Whole World.http tcp sockets names calls native client
