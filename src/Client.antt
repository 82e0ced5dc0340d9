-- ===== src/Client.antt =====
-- src/lib.rs: the client. The connector, the transport and the body stream are parameters.
pub mod Rendering
pub mod Parsing
pub mod Receiving
pub mod Sending
pub mod Exchange
pub mod Over
pub mod Served
pub mod Download
use simple_http.Base.{
  ℕ, zero, suc, ◌+◌, ◌-◌, Bool, true, false, Option, none, some, List, [], ◌∷◌, ◌++◌, ◌⊎◌, inl, inr,
  ltb, if◌then◌else◌, length, take, drop, ◌==◌, slice_to, slice_from, Outcome, ok, err, out_of_fuel,
  ◌>>=◌, unwrap, Build,
}
use simple_http.Base.Bytes.{Bytes, codes, crlf, bytes_eq}
use simple_http.Base.Search.{position}
use simple_http.Base.Text.{Unicode, from_utf8_lossy, to_lowercase, parse_usize}
use simple_http.Uri.{HttpTypes}
use simple_http.Io.{IoError, IoResult, other, AsyncRead}
use simple_http.Httparse
use simple_http.Httparse.{Header, HeaderIter, Item, status, header, parse_headers, next}
use simple_http.Request.{Headers, Request}
use simple_http.Response
use simple_http.Body

-- What is gathered from the head of the response.
pub record Head : Type 0 where
  pub status : ℕ
  pub reason : Bytes
  pub headers : Headers

abbrev pub no_head : Head
no_head = record { status = 0; reason = []; headers = [] }

abbrev pub broken_headers : IoError
broken_headers = record { kind = other; message = codes "Broken headers" }

abbrev pub parse_header_error : IoError
parse_header_error = record { kind = other; message = codes "Parse header error" }

-- the body of the loop over the items of `parse_headers`
unfoldable pub add_item : Unicode → Head → Header → Head
add_item u head (status code r _) = record head { status = code; reason = from_utf8_lossy u r }
add_item u head (header name value) = record head {
  headers = head.headers ++ (to_lowercase u (from_utf8_lossy u name), from_utf8_lossy u value) ∷ [];
}

-- What the loop does with one answer of the iterator; `go` is the rest of the loop.
abbrev pub after_item :
    Unicode
    → (HeaderIter → Head → Outcome IoError Head)
    → Head
    → Option Item × HeaderIter
    → Outcome IoError Head
after_item u go head (none, it) = ok head
after_item u go head (some (inl e), it) = err parse_header_error
after_item u go head (some (inr h), it) = go it (add_item u head h)

-- `for res in parse_headers(&buf[0 .. idx])`
pub read_items : Unicode → Build → ℕ → HeaderIter → Head → Outcome IoError Head
read_items u build zero it head = out_of_fuel
read_items u build (suc fuel) it head =
    next build it >>= after_item u (read_items u build fuel) head

unfoldable pub read_head : Unicode → Build → Bytes → Outcome IoError Head
unfolding read_items
read_head u build bytes = read_items u build (suc (length bytes)) (parse_headers bytes) no_head

abbrev pub head_end : Bytes
head_end = crlf ++ crlf

-- `headers.iter().find_map(..)` for the length
unfoldable pub content_length : Headers → Option ℕ
content_length [] = none
content_length ((k, v) ∷ headers) =
    let later = content_length headers in
    if bytes_eq k (codes "content-length")
    then elim (parse_usize v) [ none ↦ later | some n ↦ some n ]
    else later

-- `name: value\r\n`
abbrev pub header_line : Bytes × Bytes → Bytes
header_line (name, value) = name ++ (codes ": " ++ (value ++ crlf))

-- the loop of `build_req`
unfoldable pub push_headers : Unicode → Bytes → Headers → Bytes
push_headers u out [] = out
push_headers u out ((name, value) ∷ headers) =
    push_headers u
      (if bytes_eq (to_lowercase u name) (codes "host")
        then out
        else out ++ header_line (name, value))
      headers

abbrev path_or_root : Option Bytes → Bytes
path_or_root none = codes "/"
path_or_root (some p) = p

module _ (h : HttpTypes) where
  unfoldable pub build_req {ℓ} :
      {E : Type ℓ} → Unicode → h.Method → h.Uri → Headers → Outcome E Bytes
  build_req u method url headers = do
    let req = path_or_root (h.path_and_query url)
    let line = h.method_name method ++ (codes " " ++ (req ++ codes " HTTP/1.0\r\n"))
    host ← unwrap (h.host url)
    let out = line ++ (codes "Host: " ++ (host ++ (crlf ++ codes "Connection: close\r\n")))
    ok (push_headers u out headers ++ crlf)

-- A connection as the client uses it, with every `.await` done: `read` answers with the bytes
-- that it has put at the front of a buffer of the given length.
pub record Transport : Type 1 where
  pub io : AsyncRead
  pub read : io.Reader → ℕ → Outcome IoError (Bytes × io.Reader)
  pub write_all : io.Reader → Bytes → Outcome IoError io.Reader

module _ (t : Transport) where
  abbrev Conn : Type 0
  Conn = t.io.Reader

  -- `while let Some(res) = x.next().await`, over the items of the body stream
  pub write_chunks : Conn → List (IoResult Bytes) → Outcome IoError Conn
  write_chunks conn [] = ok conn
  write_chunks conn (inl e ∷ chunks) = err e
  write_chunks conn (inr chunk ∷ chunks) = do c ← t.write_all conn chunk; write_chunks c chunks

  unfoldable pub write_body : Conn → Option (List (IoResult Bytes)) → Outcome IoError Conn
  unfolding write_chunks
  write_body conn none = ok conn
  write_body conn (some chunks) = write_chunks conn chunks

  -- The bytes received, `buf[.. left]`, by the place of the blank line; `go` is the next round.
  abbrev pub at_end :
      Unicode
      → Build
      → (Conn → Bytes → Outcome IoError (Head × Bytes × Conn))
      → Conn
      → Bytes
      → Option ℕ
      → Outcome IoError (Head × Bytes × Conn)
  at_end u build go conn got none = go conn got
  at_end u build go conn got (some idx) = do
    head ← read_head u build (take (idx + 4) got)
    ok (head, drop (idx + 4) got, conn)

  abbrev pub after_read :
      Unicode
      → Build
      → (Conn → Bytes → Outcome IoError (Head × Bytes × Conn))
      → Bytes
      → Bytes × Conn
      → Outcome IoError (Head × Bytes × Conn)
  after_read u build go got (bytes, conn) =
      if length bytes == 0
      then err broken_headers
      else at_end u build go conn (got ++ bytes) (position head_end (got ++ bytes))

  -- The loop that receives the head, into a buffer of 4096 bytes of which `got` are filled.
  pub receive_loop : Unicode → Build → ℕ → Conn → Bytes → Outcome IoError (Head × Bytes × Conn)
  receive_loop u build zero conn got = out_of_fuel
  receive_loop u build (suc fuel) conn got =
      t.read conn (4096 - length got) >>= after_read u build (receive_loop u build fuel) got

  unfoldable pub receive : Unicode → Build → Conn → Outcome IoError (Head × Bytes × Conn)
  unfolding receive_loop
  receive u build conn = receive_loop u build 4097 conn []

-- `Client`, whose `inner` is the connector, and its builder, which holds nothing
pub record Client (C : Type 0) : Type 0 where
  pub inner : C

pub record ClientBuilder (C : Type 0) : Type 0 where
  pub m : Unit {0}

module _ {C : Type 0} where
  unfoldable pub new : C → Client C
  new inner = record { inner = inner }

  -- `Client::builder`
  unfoldable pub builder : ClientBuilder C
  builder = record { m = tt }

  -- `ClientBuilder::build`
  unfoldable pub build : ClientBuilder C → C → Client C
  unfolding new
  build self connector = new connector

-- `Client::request` over one transport and one connector. The bytes of the buffer of the body
-- are the parameter `uninit` of `Body.new`.
module _ (h : HttpTypes) (t : Transport) (connect : h.Uri → Outcome IoError t.io.Reader) where
  unfoldable pub request :
      Unicode
      → Build
      → Bytes
      → Request h (List (IoResult Bytes))
      → Outcome IoError (Response.Response h (Body.Body t.io.Reader))
  request u build uninit req = do
    conn ← connect req.uri
    head ← build_req h u req.method req.uri req.headers
    conn₁ ← t.write_all conn head
    conn₂ ← write_body t conn₁ req.body
    (received, rest, conn₃) ← receive t u build conn₂
    let length = content_length received.headers
    Response.new h (Body.Body t.io.Reader) received.status received.headers
        (Body.new uninit conn₃ (some rest) length)
