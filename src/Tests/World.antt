-- ===== src/Tests/World.antt =====
-- A concrete world for the tests: URIs with four fields, and a connection over a byte string.
use simple_http.Base.{
  ℕ, ◌≤◌, ◌&&◌, Option, none, some, List, [], ◌∷◌, ◌++◌, inr, arith, if◌then◌else◌, ltb, leb, take,
  drop, length, length-take, ok, Returns-ok,
}
use Prim.Native.Nat.{min}
use simple_http.Base.Bytes.{Bytes, codes}
use simple_http.Base.Search.{split}
use simple_http.Base.Text.{Unicode, parse_usize}
use simple_http.Uri.{HttpTypes, StatusLaw}
use simple_http.Io.{ready, AsyncRead}
use simple_http.Client.{Transport}
use simple_http.Client.Receiving.{TransportLaw}
use simple_http.Client.Sending.{SendLaw}

pub record TestUri : Type 0 where
  pub scheme : Option Bytes
  pub authority : Option (Bytes × Option ℕ)
  pub path : Option Bytes

abbrev pub host_of : Option (Bytes × Option ℕ) → Option Bytes
host_of none = none
host_of (some (h, p)) = some h

abbrev pub port_of : Option (Bytes × Option ℕ) → Option ℕ
port_of none = none
port_of (some (h, p)) = p

abbrev pub parse_test_port : Bytes → Option ℕ → Option (Bytes × Option ℕ)
parse_test_port h none = none
parse_test_port h (some p) = if ltb p 65536 then some (h, some p) else none

abbrev pub parse_pieces : List Bytes → Option (Bytes × Option ℕ)
parse_pieces ([] ∷ ps) = none
parse_pieces ((c ∷ cs) ∷ []) = some (c ∷ cs, none)
parse_pieces ((c ∷ cs) ∷ p ∷ []) = parse_test_port (c ∷ cs) (parse_usize p)
parse_pieces _ = none

abbrev pub parse_test_scheme : Bytes → Option Bytes
parse_test_scheme [] = none
parse_test_scheme (c ∷ cs) = some (c ∷ cs)

abbrev pub check_parts : TestUri → Option (Bytes × Option ℕ) → Option TestUri
check_parts u none = none
check_parts u (some a) = some u

abbrev pub test_status : ℕ → Option ℕ
test_status n = if leb 100 n && ltb n 600 then some n else none

abbrev pub http : HttpTypes
http = record {
  Uri = TestUri;
  default_uri = record { scheme = none; authority = none; path = some (codes "/") };
  scheme_part = λ u. u.scheme;
  host = λ u. host_of u.authority;
  port_u16 = λ u. port_of u.authority;
  path_and_query = λ u. u.path;
  Parts = TestUri;
  Scheme = Bytes;
  Authority = Bytes × Option ℕ;
  into_parts = λ u. u;
  from_parts = λ u. check_parts u u.authority;
  with_scheme = λ s u. record u { scheme = some s };
  with_authority = λ a u. record u { authority = some a };
  parse_scheme = parse_test_scheme;
  parse_authority = λ b. parse_pieces (split b':' b);
  authority_port = λ a. a.1;
  Method = Bytes;
  default_method = codes "GET";
  method_name = λ m. m;
  Version = ℕ;
  default_version = 11;
  http_10 = 10;
  StatusCode = ℕ;
  status_from_u16 = test_status;
  status_as_u16 = λ s. s;
}

pub status_law : StatusLaw http
status_law = record { accepts = λ n low high. (n, ground arith); keeps = λ n s h. ground arith }

-- The other end sends `incoming`, at most `pace` bytes at a time.
pub record Wire : Type 0 where
  pub incoming : Bytes
  pub pace : ℕ
  pub outgoing : Bytes

abbrev pub io : AsyncRead
io = record {
  Reader = Wire;
  poll_read = λ w n. (
    ready (inr (take (min n w.pace) w.incoming)),
    record w { incoming = drop (min n w.pace) w.incoming },
  );
}

abbrev pub transport : Transport
transport = record {
  io = io;
  read = λ w n.
      ok (take (min n w.pace) w.incoming, record w { incoming = drop (min n w.pace) w.incoming });
  write_all = λ w bytes. ok (record w { outgoing = w.outgoing ++ bytes });
}

take_bounded : (w : Wire) (n : ℕ) → length (take (min n w.pace) w.incoming) ≤ n
take_bounded w n = omega (arith, length-take (min n w.pace) w.incoming)

pub transport_law : TransportLaw transport
transport_law = record {
  bounded = λ c n e. ground (arith, take_bounded c n);
  read_returns = λ c n. Returns-ok _;
  write_returns = λ c bytes. Returns-ok _;
}

pub send_law : SendLaw transport
send_law = record {
  sent = λ w. w.outgoing;
  write_sends = λ c bytes e. ground arith;
  read_keeps = λ c n e. ground arith;
}

-- No test has text that is not ASCII.
abbrev pub unicode : Unicode
unicode = record { decode_lossy = λ b. b; lowercase = λ b. b }

abbrev pub example_uri : TestUri
example_uri = record {
  scheme = some (codes "http");
  authority = some (codes "example.org", none);
  path = some (codes "/index");
}
