-- ===== src/Tests/Tls.antt =====
-- Runs of the model of src/https, and instances of its theorems.
use simple_http.Base.{
  ℕ, zero, suc, Bool, true, false, none, some, [], ◌∷◌, ◌++◌, ◌⊎◌, inl, inr, ◌≡◌, refl, arith,
  length, Outcome, ok, err,
}
use simple_http.Base.Bytes.{Bytes, codes}
use simple_http.Io.{IoError, pending, ready}
use simple_http.Io.Drive.{drive}
use simple_http.Io.Streams.{AsyncIo, run, write_call, flush_call}
use simple_http.Connect.{Destination, Connector, scheme, host}
use simple_http.Tests.World
use simple_http.Tests.World.{TestUri}
use simple_http.Https.Tls
use simple_http.Https.Tls.{Native, Provided, TlsStream, tls_io}
use simple_http.Https.Tls.Closing.{ClosingLaw, Closed, shutdown-Closed}
use simple_http.Https.Stream.{MaybeHttpsStream, http, https, maybe_https_io}
use simple_http.Https.Stream.Dispatch.{run-http}
use simple_http.Https.Client
use simple_http.Https.Client.{
  HandshakeError, would_block, TlsClient, HttpsConnector, forced_error, from, https_only, secure,
  poll_inner,
}

-- A socket keeps what was written to it.
pub record Sock : Type 0 where
  pub out : Bytes
  pub shut_down : Bool

pub record Session : Type 0 where
  pub sock : Sock
  pub told : Bool
  pub name : Bytes

abbrev pub fresh : Sock
fresh = record { out = []; shut_down = false }

abbrev pub base : AsyncIo
base = record {
  Stream = Sock;
  read = λ s n. (inr [], s);
  write = λ s buf. (inr (length buf), record s { out = s.out ++ buf });
  flush = λ s. (inr tt, s);
  prepare_uninitialized_buffer = λ s buf. (false, buf);
  read_buf = λ s buf. (ready (inr 0), s, buf);
  shutdown = λ s. (ready (inr tt), record s { shut_down = true });
  write_buf = λ s c. (ready (inr 0), s, c);
}

abbrev pub native : Native base
native = record {
  Session = Session;
  read = λ s n. (inr [], s);
  write = λ s buf.
      (inr (length buf), record s { sock = record s.sock { out = s.sock.out ++ 23 ∷ buf } });
  flush = λ s. (inr tt, s);
  shutdown = λ s. (inr tt, record s { told = true });
  transport = λ s. s.sock;
  with_transport = λ t s. record s { sock = t };
}

abbrev pub provided : Provided
provided = record {
  prepare_uninitialized_buffer = λ buf. (true, buf);
  read_buf = λ r s buf. (pending, s, buf);
  write_buf = λ w s c. (pending, s, c);
}

closing_law : ClosingLaw base native
closing_law = record {
  notified = λ s. s.told;
  closed = λ t. t.shut_down;
  shutdown_notifies = λ s s' done h. ground arith;
  shutdown_closes = λ t t' done h. ground arith;
  transport_put = λ t s. refl;
  notified_put = λ t s. refl;
}

-- A handshake that blocks as often as its number says.
abbrev Mid : Type 0
Mid = ℕ × Bytes × Sock

abbrev begin : ℕ → Bytes → Sock → HandshakeError Bytes Mid ⊎ Session
begin zero name s = inr (record { sock = s; told = false; name = name })
begin (suc n) name s = inl (would_block (n, name, s))

abbrev pub client : TlsClient base native
client = record {
  TlsConnector = ℕ;
  TlsError = Bytes;
  MidHandshake = Mid;
  build = inr 2;
  connect = begin;
  handshake = λ mid. begin mid.0 mid.1 mid.2;
  to_string = λ e. e;
}

abbrev pub sockets : ℕ → Connector World.http Sock ℕ
sockets n = record { connect = λ dst. ok (fresh, n) }

unfoldable pub connector : HttpsConnector base native client ℕ
unfolding from
connector = from base native client 5 2

abbrev to : Bytes → Destination World.http
to s = record {
  uri = record { scheme = some s; authority = some (codes "h", none); path = some (codes "/") };
}

abbrev connect_to :
    HttpsConnector base native client ℕ
    → Bytes
    → Outcome IoError (MaybeHttpsStream base (tls_io base native provided) × ℕ)
connect_to this s = Client.connect base native client World.http provided sockets 3 this (to s)

abbrev pub session_for_h : Session
session_for_h = record { sock = fresh; told = false; name = codes "h" }

run-secure : connect_to connector (codes "https") ≡ ok (https (record { inner = session_for_h }), 5)
unfolding Client.connect secure drive Client.poll poll_inner scheme host Tls.new connector from
run-secure = refl

run-plain : connect_to connector (codes "http") ≡ ok (http fresh, 5)
unfolding Client.connect secure drive Client.poll poll_inner scheme host Tls.new connector from
run-plain = refl

run-forced :
    connect_to (https_only base native client true connector) (codes "http")
    ≡ err (forced_error base native client)
unfolding Client.connect scheme https_only connector from
run-forced = refl

run-http_example :
    ((s : Sock)
      → run
          (maybe_https_io base (tls_io base native provided))
          (write_call (1 ∷ []) ∷ flush_call ∷ [])
          (http s)
        ≡ (
          (run base (write_call (1 ∷ []) ∷ flush_call ∷ []) s).0,
          http (run base (write_call (1 ∷ []) ∷ flush_call ∷ []) s).1,
        ))
    × ((s : TlsStream base native)
        → run
            (maybe_https_io base (tls_io base native provided))
            (write_call (1 ∷ []) ∷ flush_call ∷ [])
            (https s)
          ≡ (
            (run (tls_io base native provided) (write_call (1 ∷ []) ∷ flush_call ∷ []) s).0,
            https (run (tls_io base native provided) (write_call (1 ∷ []) ∷ flush_call ∷ []) s).1,
          ))
run-http_example =
    run-http base (tls_io base native provided) (write_call (1 ∷ []) ∷ flush_call ∷ [])

abbrev ended : TlsStream base native
ended = record {
  inner = record { sock = record { out = []; shut_down = true }; told = true; name = codes "h" };
}

shuts : Tls.shutdown base native (record { inner = session_for_h }) ≡ (ready (inr tt), ended)
unfolding Tls.shutdown Tls.after_shutdown Tls.shutdown_transport
shuts = refl

shutdown-Closed_example : Closed base native closing_law ended
shutdown-Closed_example =
    shutdown-Closed base native closing_law (record { inner = session_for_h }) shuts
