-- ===== src/Tests/Downloads.antt =====
-- Runs of the program of examples/simple.rs over one transport.
use simple_http.Base.{
  false, none, some, List, [], ◌++◌, ◌∷◌, ◌≡◌, refl, inr, Outcome, ok, ◌>>=◌, debug, replicate,
  length-replicate, arith, ℕ,
}
use simple_http.Base.Bytes.{Bytes, codes}
use simple_http.Base.Search.{position, split, starts_with}
use simple_http.Base.Text.{is_ascii, from_utf8_lossy, to_lowercase, parse_usize}
use simple_http.Io.{IoError, IoResult}
use simple_http.Httparse.{next, parse_line, parse_status, parse_header, parse_headers, rtrim, ltrim}
use simple_http.Request.{Request}
use simple_http.Response
use simple_http.Response.{Response}
use simple_http.Body
use simple_http.Body.{Body}
use simple_http.Body.Collect.{Delivers, chunk, eof, expected}
use simple_http.Client.{
  build_req, push_headers, write_body, read_head, add_item, receive, request, content_length,
}
use simple_http.Client.Exchange.{Exchanged}
use simple_http.Client.Download.{download, download-Exchanged}
use simple_http.Tests.World.{
  TestUri, http, Wire, io, transport, transport_law, send_law, unicode, example_uri,
}

-- The first read takes one byte of the body along.
abbrev peer : Wire
peer = record { incoming = codes "HTTP/1.0 200 OK\r\n\r\nhello world"; pace = 20; outgoing = [] }

abbrev dial : TestUri → Outcome IoError Wire
dial uri = ok peer

abbrev get_index : Request http (List (IoResult Bytes))
get_index = record {
  method = codes "GET";
  version = 10;
  uri = example_uri;
  headers = [];
  body = some (inr (codes "ab") ∷ []);
}

abbrev garbage : Bytes
garbage = replicate 4096 0

abbrev behind_head : Wire
behind_head = record {
  incoming = codes "ello world";
  pace = 20;
  outgoing = codes "GET /index HTTP/1.0\r\nHost: example.org\r\nConnection: close\r\n\r\nab";
}

abbrev response : Response http (Body Wire)
response = record {
  status_code = 200;
  headers = record { map = [] };
  body = record {
    drained = false;
    rest = some (codes "h");
    buf = garbage;
    counter = 0;
    content_length = none;
    reader = Body.boxed behind_head;
  };
}

exchange : request http transport dial unicode debug garbage get_index ≡ ok response
unfolding request build_req push_headers write_body receive read_head add_item parse_headers next
    position starts_with parse_line parse_status parse_header split rtrim ltrim from_utf8_lossy
    to_lowercase is_ascii content_length parse_usize Response.new Response.new_map Response.push
    Body.new
exchange = refl

delivered : Delivers io 2 behind_head (codes "ello world" ∷ [])
delivered = chunk refl (omega arith) (omega arith) (eof refl)

download-Exchanged_example :
    (e : Exchanged http transport dial send_law unicode debug garbage get_index response)
    × (download http transport dial unicode debug garbage 3 get_index ≡ (
        expected (content_length e.head.headers) 0 (codes "ello world" ∷ []) >>= λ b.
        ok (e.rest ++ b)))
download-Exchanged_example =
    download-Exchanged http transport dial transport_law send_law unicode debug garbage get_index
      exchange refl delivered (length-replicate {A = ℕ} 4096 0) (omega arith)
