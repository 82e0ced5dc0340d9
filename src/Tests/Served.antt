-- ===== src/Tests/Served.antt =====
-- A request to a server that answers with a head and a body, by seven bytes at a time.
use simple_http.Base.{
  ℕ, ◌<◌, some, List, [], ◌∷◌, ◌++◌, ◌≢◌, refl, arith, sym, inr, length, length-take, take, drop,
  take-append-drop, Outcome, ok,
}
use Prim.Native.Nat.{min}
use simple_http.Base.Bytes.{Bytes, codes}
use simple_http.Io.{IoError, IoResult}
use simple_http.Request.{Request}
use simple_http.Response
use simple_http.Body
use simple_http.Client.{Transport}
use simple_http.Client.Receiving.Served.{ServedLaw}
use simple_http.Tests.World.{TestUri, http, Wire, io, example_uri}

abbrev by_seven : Transport
by_seven = record {
  io = io;
  read = λ w n. ok (take (min n 7) w.incoming, record w { incoming = drop (min n 7) w.incoming });
  write_all = λ w bytes. ok (record w { outgoing = w.outgoing ++ bytes });
}

not_empty : (n : ℕ) (xs : Bytes) → 0 < n → xs ≢ [] → 0 < length (take (min n 7) xs)
not_empty n [] h ne = absurd (ne refl)
not_empty n (x ∷ xs) h ne = omega (arith, length-take (min n 7) (x ∷ xs))

abbrev served_law : ServedLaw by_seven
served_law = record {
  incoming = λ w. w.incoming;
  read_part = λ w n h ne. (
    take (min n 7) w.incoming,
    record w { incoming = drop (min n 7) w.incoming },
    refl,
    not_empty n w.incoming h ne,
    omega (arith, length-take (min n 7) w.incoming),
    sym (take-append-drop (min n 7) w.incoming),
  );
  write_taken = λ w bytes. (record w { outgoing = w.outgoing ++ bytes }, refl, refl);
}

abbrev server : Wire
server = record {
  incoming = codes "HTTP/1.1 404 Not Found\r\nServer: nginx\r\n\r\nnothing here";
  pace = 7;
  outgoing = [];
}

abbrev dial : TestUri → Outcome IoError Wire
dial uri = ok server

abbrev post : Request http (List (IoResult Bytes))
post = record {
  method = codes "POST";
  version = 10;
  uri = example_uri;
  headers = [];
  body = some (inr (codes "ab") ∷ inr (codes "c") ∷ []);
}
