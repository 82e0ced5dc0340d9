-- ===== src/Tests/Parsing.antt =====
-- Tests of the parser of the response head.
use simple_http.Base.{
  none, some, ◌<◌, ◌≡◌, refl, ◌⊎◌, ◌↔◌, arith, ok, panic, length, debug, release,
}
use simple_http.Base.Bytes.{codes}
use simple_http.Base.Search.{position, split, starts_with}
use simple_http.Io.{IoError}
use simple_http.Httparse.{ltrim, rtrim, parse_status}
use simple_http.Httparse.Trim.{rtrim-trim_back}
use simple_http.Httparse.Fields.{IsTrimmed}
use simple_http.Httparse.Status.{parse_status-panic_iff}
use simple_http.Httparse.Lines.{Field, IsField, StatusLine, IsStatusLine}

trims : rtrim {E = IoError} release (codes "abc   ") ≡ ok (codes "ab")
unfolding rtrim
trims = refl

rtrim-trim_back_example : rtrim {E = IoError} debug (codes "abc   ") ≡ ok (codes "ab")
rtrim-trim_back_example = rtrim-trim_back debug (codes "abc   ")

server : IsTrimmed (codes "Server")
unfolding ltrim
server = record {
  front = codes "Serve";
  last = b'r';
  splits = refl;
  last_ne = omega arith;
  kept = refl;
}

nginx : IsTrimmed (codes "nginx")
unfolding ltrim
nginx = record {
  front = codes "ngin";
  last = b'x';
  splits = refl;
  last_ne = omega arith;
  kept = refl;
}

ok_line : parse_status (codes "HTTP/1.1 404 Not Found") ≡ ok (404, codes "1.1", codes "Not")
unfolding parse_status split
ok_line = refl

parse_status-panic_iff_example :
    (parse_status (codes "OK") ≡ panic) ↔ ((length (codes "OK") < 4) ⊎ (codes "OK" ≡ codes "HTTP"))
unfolding split
parse_status-panic_iff_example = parse_status-panic_iff (codes "OK") (codes "OK") refl

abbrev pub not_found : StatusLine
not_found = record {
  version = codes "1.1";
  reason = codes "Not";
  hundreds = b'4';
  tens = b'0';
  units = b'4';
  tail = codes "Not Found";
}

abbrev pub server_field : Field
server_field = record { name = codes "Server"; padding = 1; value = codes "nginx"; more = none }

pub not_found-IsStatusLine : IsStatusLine not_found
unfolding position split starts_with
not_found-IsStatusLine = record {
  version_word = refl;
  reason_word = refl;
  digits = refl;
  no_crlf = refl;
}

pub server_field-IsField : IsField server_field
unfolding position starts_with
server_field-IsField = record {
  name_trimmed = server;
  value_trimmed = nginx;
  name_colon = refl;
  value_colon = refl;
  no_crlf = refl;
}

abbrev location_field : Field
location_field = record {
  name = codes "Location";
  padding = 1;
  value = codes "http";
  more = some (codes "//h/new");
}
