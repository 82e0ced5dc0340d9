-- ===== src/Tests/Exchanges.antt =====
-- Tests of whole exchanges.
use simple_http.Base.{
  ℕ, ◌≤◌, ◌<◌, ◌≡◌, refl, inr, some, none, false, List, [], ◌∷◌, ◌++◌, Outcome, ok, Returns,
  Returns-ok, debug, release, replicate,
}
use simple_http.Base.Bytes.{Bytes, codes, crlf}
use simple_http.Base.Search.{position, split, starts_with}
use simple_http.Base.Text.{is_ascii, from_utf8_lossy, to_lowercase, parse_usize}
use simple_http.Io.{IoError, IoResult}
use simple_http.Httparse.{next, parse_line, parse_status, parse_header, parse_headers, rtrim, ltrim}
use simple_http.Request.{Request}
use simple_http.Response
use simple_http.Response.{Response}
use simple_http.Body
use simple_http.Body.{Body}
use simple_http.Client.{
  Head, build_req, push_headers, write_body, read_head, add_item, receive, request, content_length,
}
use simple_http.Client.Rendering.{
  AllLines, nil, cons, IsLine, read_lines, build_req-read_lines, build_req_injection,
}
use simple_http.Client.Receiving.{Reads, Splits, receive-Splits}
use simple_http.Client.Exchange.{Exchanged, Returns-request, request-Exchanged, new-receive}
use simple_http.Tests.World.{
  TestUri, http, status_law, Wire, transport, transport_law, send_law, unicode, example_uri,
}

abbrev answer : Bytes
answer = codes "HTTP/1.0 200 OK\r\nContent-Length: 5\r\n\r\nhello"

abbrev peer : Wire
peer = record { incoming = answer; pace = 30; outgoing = [] }

abbrev dial : TestUri → Outcome IoError Wire
dial uri = ok peer

abbrev get_index : Request http (List (IoResult Bytes))
get_index = record {
  method = codes "POST";
  version = 10;
  uri = example_uri;
  headers = (codes "HOST", codes "evil") ∷ (codes "Accept", codes "*/*") ∷ [];
  body = some (inr (codes "ab") ∷ inr (codes "c") ∷ []);
}

abbrev sent_head : Bytes
sent_head =
    codes "POST /index HTTP/1.0\r\nHost: example.org\r\nConnection: close\r\nAccept: */*\r\n\r\n"

built :
    build_req http {E = IoError} unicode (codes "POST") example_uri get_index.headers ≡ ok sent_head
unfolding build_req push_headers to_lowercase is_ascii
built = refl

abbrev leftover : Wire
leftover = record { incoming = []; pace = 30; outgoing = [] }

abbrev received_head : Head
received_head = record {
  status = 200;
  reason = codes "1.0";
  headers = (codes "content-length", codes "5") ∷ [];
}

received : receive transport unicode debug peer ≡ ok (received_head, codes "hello", leftover)
unfolding receive read_head add_item parse_headers next position starts_with parse_line parse_status
    parse_header split rtrim ltrim from_utf8_lossy to_lowercase is_ascii
received = refl

abbrev garbage : Bytes
garbage = replicate 4096 0

abbrev response : Response http (Body Wire)
response = record {
  status_code = 200;
  headers = record { map = (codes "content-length", codes "5" ∷ []) ∷ [] };
  body = record {
    drained = false;
    rest = some (codes "hello");
    buf = garbage;
    counter = 0;
    content_length = some 5;
    reader = Body.boxed (record leftover { outgoing = sent_head ++ codes "abc" });
  };
}

exchange : request http transport dial unicode debug garbage get_index ≡ ok response
unfolding request build_req push_headers write_body receive read_head add_item parse_headers next
    position starts_with parse_line parse_status parse_header split rtrim ltrim from_utf8_lossy
    to_lowercase is_ascii content_length parse_usize Response.new Response.new_map Response.push
    Body.new
exchange = refl

request-Exchanged_example :
    Exchanged http transport dial send_law unicode debug garbage get_index response
request-Exchanged_example =
    request-Exchanged http transport dial transport_law send_law unicode debug garbage get_index
      exchange

Returns-request_example : Returns (request http transport dial unicode release garbage get_index)
Returns-request_example =
    Returns-request http transport dial transport_law (λ uri. Returns-ok peer) unicode release
      garbage get_index

receive-Splits_example :
    (all : Bytes) × Reads transport peer all leftover
    × Splits unicode debug received_head (codes "hello") all
    × (100 ≤ 200)
    × (200 < 600)
receive-Splits_example = receive-Splits transport transport_law unicode debug peer received

new-receive_example :
    (res : Response http (Body Wire)) × (Response.new http
        (Body Wire)
        {E = IoError}
        200
        received_head.headers
        response.body
      ≡ ok res)
    × (res.status_code ≡ 200)
new-receive_example =
    new-receive http transport dial transport_law status_law unicode debug peer response.body
      received

abbrev sent_lines : List Bytes
sent_lines =
    codes "POST /index HTTP/1.0"
    ∷ codes "Host: example.org"
    ∷ codes "Connection: close"
    ∷ codes "Accept: */*"
    ∷ []

line : {c : ℕ} {cs : Bytes} → position crlf (c ∷ cs) ≡ none → IsLine (c ∷ cs)
line {c} {cs} e = record { first = c; others = cs; splits = refl; no_crlf = e }

sent_lines-AllLines : AllLines sent_lines
unfolding position starts_with
sent_lines-AllLines = cons (line refl) (cons (line refl) (cons (line refl) (cons (line refl) nil)))

build_req-read_lines_example : read_lines 5 sent_head ≡ some (sent_lines, [])
unfolding to_lowercase is_ascii
build_req-read_lines_example =
    build_req-read_lines http unicode (codes "POST") example_uri (codes "example.org")
      get_index.headers refl sent_lines-AllLines built

build_req_injection_example :
    build_req http {E = IoError} unicode
      (codes "GET")
      example_uri
      ((codes "Accept", codes "a\r\nHost: evil") ∷ [])
    ≡ ok (
        codes
          "GET /index HTTP/1.0\r\nHost: example.org\r\nConnection: close\r\nAccept: a\r\nHost: evil\r\n\r\n")
unfolding to_lowercase is_ascii
build_req_injection_example =
    build_req_injection http unicode (codes "GET") example_uri (codes "example.org")
      (codes "Accept") (codes "a") (codes "Host") (codes "evil") [] refl refl
