-- ===== src/Tests/Bodies.antt =====
-- Tests of the response body and of the header map.
use simple_http.Base.{
  ℕ, ◌≤◌, false, inr, length, drop, length-take, ◌++◌, ◌≡◌, refl, some, none, List, [], ◌∷◌, arith,
  ok, panic, debug, replicate, length-replicate,
}
use simple_http.Base.Bytes.{Bytes, codes}
use Prim.Native.Nat.{min}
use simple_http.Io.{IoError, ready}
use simple_http.Body
use simple_http.Body.{Body, boxed, poll_reader, poll_answer, poll_open, poll_next}
use simple_http.Body.Bounds.{ReadLaw, Polled, unpolled, polled, Polled-bounds}
use simple_http.Body.Collect.{collect, Delivers, eof, chunk, collect-new}
use simple_http.Response.{new_map, get, lookup, push}
use simple_http.Response.Lookup.{get-new_map}
use simple_http.Tests.World.{Wire, io}

abbrev garbage : Bytes
garbage = replicate 4096 0

abbrev wire : Bytes → Wire
wire incoming = record { incoming = incoming; pace = 3; outgoing = [] }

-- Seven bytes arrive by three.
seven : Delivers io 4 (wire (codes "abcdefg")) (codes "abc" ∷ codes "def" ∷ codes "g" ∷ [])
seven =
    chunk refl (omega arith) (omega arith)
      (chunk refl (omega arith) (omega arith) (chunk refl (omega arith) (omega arith) (eof refl)))

-- An announced length of four is crossed by the second chunk.
collect-new_example :
    collect io {E = IoError} debug 5
      (Body.new garbage (wire (codes "abcdefg")) (some []) (some 4))
      []
    ≡ panic
collect-new_example =
    collect-new io debug garbage [] (some 4) seven (length-replicate {A = ℕ} 4096 0) (omega arith)

-- Without an announced length all is read, behind what came with the head.
collect_all :
    collect io {E = IoError} debug 5
      (Body.new garbage (wire (codes "abcdefg")) (some (codes "x")) none)
      []
    ≡ ok (codes "xabcdefg")
collect_all =
    collect-new io debug garbage (codes "x") none seven (length-replicate {A = ℕ} 4096 0)
      (omega arith)

abbrev cookies : List (Bytes × Bytes)
cookies =
    (codes "set-cookie", codes "a")
    ∷ (codes "server", codes "nginx")
    ∷ (codes "set-cookie", codes "b")
    ∷ []

get-new_map_example : get (new_map cookies) (codes "set-cookie") ≡ some (codes "a")
get-new_map_example = get-new_map cookies (codes "set-cookie")

kept_values : lookup (codes "set-cookie") (new_map cookies).map ≡ some (codes "a" ∷ codes "b" ∷ [])
unfolding lookup new_map push
kept_values = refl

read_law : ReadLaw io
read_law = record { bounded = λ w n e. ground (arith, length-take (min n w.pace) w.incoming, e) }

-- what is left of the body of four announced bytes behind one, and what was counted
abbrev body_at : Bytes → Bytes → ℕ → Body Wire
body_at start incoming counter = record {
  drained = false;
  rest = none;
  buf = start ++ drop (length start) garbage;
  counter = counter;
  content_length = some 4;
  reader = boxed (wire incoming);
}

-- Two reads of three bytes give four, behind the one that came with the head.
polls :
    Polled io debug
      (Body.new garbage (wire (codes "abcdefg")) (some (codes "x")) (some 4))
      5
      (body_at (codes "def") (codes "g") 6)
unfolding Body.new poll_next poll_open poll_reader poll_answer
polls =
    polled {body' = body_at (codes "abc") (codes "defg") 3} (ready (some (inr (codes "d"))))
      (polled {body' = body_at [] (codes "abcdefg") 0} (ready (some (inr (codes "abc"))))
        (polled (ready (some (inr (codes "x")))) (unpolled refl) refl refl) refl refl)
      refl refl

Polled-bounds_example :
    (5 ≤ 5) × (5 ≤ 7) × (length (body_at (codes "def") (codes "g") 6).buf ≡ 4096)
Polled-bounds_example =
    Polled-bounds io debug read_law garbage (codes "x") (wire (codes "abcdefg")) 4
      (length-replicate {A = ℕ} 4096 0) (omega arith) polls
