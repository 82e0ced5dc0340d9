-- ===== src/Tests/Tunnels.antt =====
-- Runs of the model of src/proxy, and instances of its theorems.
use simple_http.Base.{
  ℕ, suc, ◌+◌, ◌-◌, Bool, true, false, none, some, List, [], ◌∷◌, ◌++◌, ◌≡◌, inr, refl, arith, ltb,
  if◌then◌else◌, length, take, drop, length-take, length-drop, Outcome, ok, err, panic, Returns,
}
use Prim.Native.Nat.{min}
use simple_http.Base.Bytes.{Bytes, codes}
use simple_http.Base.Search.{starts_with, ends_with}
use simple_http.Base.Text.{is_ascii, show_nat}
use simple_http.Io.{IoError, Poll, ready}
use simple_http.Proxy.Tunnel.{
  reading, TunnelIo, Tunnel, new, with_stream, poll, round, after_write, after_read, judge, finish,
  headers_display, io_err,
}
use simple_http.Proxy.Tunnel.Sound.{TunnelLaw, SoundResult}
use simple_http.Proxy.Tunnel.Establish.{started, poll-Opened}
use simple_http.Proxy.Tunnel.Progress.{PeerLaw, Returns-poll}

-- A stream that gives `incoming` and takes one byte more than `pace` at a time.
pub record Pipe : Type 0 where
  pub incoming : Bytes
  pub pace : ℕ
  pub outgoing : Bytes
  pub given : Bytes

abbrev pub pipes : TunnelIo
pipes = record {
  Stream = Pipe;
  write_buf = λ s c. (
    ready (inr (min (suc s.pace) (length c.bytes - c.position))),
    record s {
      outgoing =
          s.outgoing
          ++ take (min (suc s.pace) (length c.bytes - c.position)) (drop c.position c.bytes);
    },
    record c { position = c.position + min (suc s.pace) (length c.bytes - c.position) },
  );
  read_buf = λ s vec. (
    ready (inr (length (take (suc s.pace) s.incoming))),
    record s {
      incoming = drop (suc s.pace) s.incoming;
      given = s.given ++ take (suc s.pace) s.incoming;
    },
    vec ++ take (suc s.pace) s.incoming,
  );
  has_remaining_mut = λ c. ltb c.position (length c.bytes);
  Connected = Bool;
  proxy = λ b c. b;
  to_str = λ v. if is_ascii v then some v else none;
}

pub tunnel_law : TunnelLaw pipes
tunnel_law = record {
  sent = λ s. s.outgoing;
  received = λ s. s.given;
  remaining = λ c. refl;
  write_sent = λ s c n s' c' h. ground arith;
  write_cursor = λ s c n s' c' h. (ground arith, ground arith);
  write_pending = λ s c s' c' h. absurd cc;
  write_received = λ s c p s' c' h. ground arith;
  read_received =
      λ s vec n s' vec' h. (take (suc s.pace) s.incoming, ground arith, ground arith, ground arith);
  read_pending = λ s vec s' vec' h. absurd cc;
  read_sent = λ s vec p s' vec' h. ground arith;
}

peer_law : PeerLaw pipes
peer_law = record {
  quota = λ s. length s.incoming;
  read_quota = λ s vec n s' vec' h.
      ground (arith, length-take (suc s.pace) s.incoming, length-drop (suc s.pace) s.incoming);
  write_quota = λ s c n s' c' h. ground arith;
}

abbrev proxy_headers : List (Bytes × Bytes)
proxy_headers = (codes "X-Key", codes "v") ∷ []

abbrev pub connect_request : Bytes
connect_request =
    codes "CONNECT example.org:443 HTTP/1.1\r\nHost: example.org:443\r\nX-Key: v\r\n\r\n"

abbrev pub pipe_of : Bytes → Pipe
pipe_of incoming = record { incoming = incoming; pace = 6; outgoing = []; given = [] }

pub pipe_of-fresh :
    (incoming : Bytes)
    → (tunnel_law.sent (pipe_of incoming) ≡ []) × (tunnel_law.received (pipe_of incoming) ≡ [])
unfolding tunnel_law
pipe_of-fresh incoming = (refl, refl)

abbrev pub granted : Bytes
granted = codes "HTTP/1.1 200 OK\r\nVia: p\r\n\r\n"

abbrev fresh : Bytes → Tunnel pipes
unfolding with_stream
fresh incoming = with_stream pipes connect_request (pipe_of incoming) false

abbrev run : Bytes → Outcome IoError (Poll (Pipe × Bool) × Tunnel pipes)
run incoming = poll pipes 50 (fresh incoming)

run-new : new pipes {E = IoError} (codes "example.org") 443 proxy_headers ≡ ok connect_request
unfolding new headers_display show_nat is_ascii
run-new = refl

run-new_binary : new pipes {E = IoError} (codes "h") 80 ((codes "k", 200 ∷ []) ∷ []) ≡ panic
unfolding new headers_display show_nat is_ascii
run-new_binary = refl

run-granted :
    run granted
    ≡ ok (
      ready (record { incoming = []; pace = 6; outgoing = connect_request; given = granted }, true),
      record {
        buf = record { bytes = granted; position = length connect_request };
        stream = none;
        connected = none;
        state = reading;
      },
    )
unfolding poll round after_write after_read judge finish starts_with ends_with with_stream
run-granted = refl

run-refused : run (codes "HTTP/1.1 407 No\r\n\r\n") ≡ err (io_err (codes "unsuccessful tunnel"))
unfolding poll round after_write after_read judge finish starts_with ends_with with_stream
run-refused = refl

run-closed :
    run (codes "HTTP/1.1 200 O") ≡ err (io_err (codes "unexpected EOF while tunnel reading"))
unfolding poll round after_write after_read judge finish starts_with ends_with with_stream
run-closed = refl

poll-Opened_example :
    SoundResult pipes tunnel_law connect_request
      (poll pipes 50 (with_stream pipes connect_request (pipe_of granted) false))
unfolding tunnel_law
poll-Opened_example =
    poll-Opened pipes tunnel_law connect_request (pipe_of granted) false 50 refl refl (started refl)

Returns-poll_example : Returns (poll pipes 120 (fresh granted))
unfolding fresh peer_law
Returns-poll_example = Returns-poll pipes tunnel_law peer_law 120 (fresh granted) (omega arith)
