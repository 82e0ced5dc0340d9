-- ===== src/Client/Receiving.antt =====
-- The loop of src/lib.rs that receives the head of a response into 4096 bytes.
pub mod Served
pub mod Heads
use simple_http.Base.{
  Returns, Returns-bind_eq, Returns-err, returns_rules, ℕ, zero, suc, ◌+◌, ◌-◌, ◌≤◌, ◌<◌, false,
  Option, none, some, [], ◌∷◌, ◌++◌, ◌≡◌, ◌≢◌, inl, inr, refl, arith, ◌==◌, length, length-append,
  take, drop, append-nil, append_assoc, Bool-cases, Option-cases, Outcome, ok, ok_parts, Build,
}
use simple_http.Base.Bytes.{Bytes, crlf}
use simple_http.Base.Search.{position, starts_with}
use simple_http.Base.Text.{Unicode}
use simple_http.Io.{IoError}
use simple_http.Client.{
  Head, broken_headers, read_head, head_end, Transport, after_read, at_end, receive_loop, receive,
}
use simple_http.Client.Parsing.{Returns-read_head, read_head_status}

-- What is documented of a transport: a read answers with at most as many bytes as the buffer
-- holds, and every call ends.
pub record TransportLaw (t : Transport) : Type 0 where
  pub bounded :
      (c : t.io.Reader) (n : ℕ) {bytes : Bytes} {c' : t.io.Reader}
      → t.read c n ≡ ok (bytes, c')
      → length bytes ≤ n
  pub read_returns : (c : t.io.Reader) (n : ℕ) → Returns (t.read c n)
  pub write_returns : (c : t.io.Reader) (bytes : Bytes) → Returns (t.write_all c bytes)

-- The blank line that ends a head ends its last line too.
crlf_in_head :
    (xs : Bytes) (i : ℕ) → position head_end xs ≡ some i → position crlf (take (i + 4) xs) ≢ none
unfolding position starts_with
crlf_in_head [] i h = cc
crlf_in_head (x ∷ []) i h = ground arith
crlf_in_head (x ∷ y ∷ xs) zero h = ground arith
crlf_in_head (x ∷ y ∷ xs) (suc i) h =
    let e : suc i + 4 ≡ suc (i + 4) = omega arith in rw e (ground (arith, crlf_in_head (y ∷ xs) i))

-- `bytes` is what the reads from `conn` have answered, one after another.
pub data Reads (t : Transport) : t.io.Reader → Bytes → t.io.Reader → Type 0 where
  done : {c c' : t.io.Reader} → c' ≡ c → Reads t c [] c'
  more :
      {c c' c'' : t.io.Reader} {n : ℕ} {bytes later all : Bytes}
      → t.read c n ≡ ok (bytes, c')
      → Reads t c' later c''
      → all ≡ bytes ++ later
      → Reads t c all c''

-- How a received head and the bytes behind it come from the bytes on the wire.
pub record Splits (u : Unicode) (build : Build) (head : Head) (rest all : Bytes) : Type 0 where
  pub end : ℕ
  pub found : position head_end all ≡ some end
  pub parsed : read_head u build (take (end + 4) all) ≡ ok head
  pub behind : rest ≡ drop (end + 4) all
  pub fits : length all ≤ 4096

module _ (t : Transport) (law : TransportLaw t) (u : Unicode) (build : Build) where
  Returns-at_end :
      (go : t.io.Reader → Bytes → Outcome IoError (Head × Bytes × t.io.Reader)) (c : t.io.Reader)
      (got : Bytes) (o : Option ℕ)
      → Returns (go c got)
      → Returns (at_end t u build go c got o)
  Returns-at_end go c got none r = r
  Returns-at_end go c got (some idx) r = search (returns_rules, Returns-read_head)

  -- A round that goes on has filled the buffer by at least one byte more.
  Returns-receive_loop :
      (fuel : ℕ) (c : t.io.Reader) (got : Bytes)
      → 4096 < fuel + length got
      → length got ≤ 4096
      → Returns (receive_loop t u build fuel c got)
  unfolding receive_loop
  Returns-receive_loop zero c got h k = absurd (omega arith)
  Returns-receive_loop (suc fuel) c got h k =
      Returns-bind_eq (t.read c (4096 - length got))
        (after_read t u build (receive_loop t u build fuel) got)
        (law.read_returns c (4096 - length got))
        (λ p e. elim (Bool-cases (length p.0 == 0)) [
          | inl closed ↦ rw closed (Returns-err broken_headers)
          | inr answered ↦ rw answered (
              Returns-at_end (receive_loop t u build fuel) p.1 (got ++ p.0)
                (position head_end (got ++ p.0))
                (Returns-receive_loop fuel p.1 (got ++ p.0) (ground (arith, length-append got p.0))
                  (omega (arith, length-append got p.0, law.bounded c (4096 - length got) e))))
        ])

  -- The loop that receives the head ends, whatever the peer sends.
  pub Returns-receive : (c : t.io.Reader) → Returns (receive t u build c)
  unfolding receive
  Returns-receive c = Returns-receive_loop 4097 c [] (omega arith) (omega arith)

  at_end-Splits :
      (go : t.io.Reader → Bytes → Outcome IoError (Head × Bytes × t.io.Reader)) (c : t.io.Reader)
      (got : Bytes) {head : Head} {rest : Bytes} {c' : t.io.Reader} (o : Option ℕ)
      → position head_end got ≡ o
      → length got ≤ 4096
      → at_end t u build go c got o ≡ ok (head, rest, c')
      → (go c got ≡ ok (head, rest, c')
          → (later : Bytes) × Reads t c later c' × Splits u build head rest (got ++ later))
      → (later : Bytes) × Reads t c later c' × Splits u build head rest (got ++ later)
  at_end-Splits go c got none p k h ih = ih h
  at_end-Splits go c got {head} {rest} {c'} (some i) p k h ih =
      let (head', e, h') = ok_parts (read_head u build (take (i + 4) got)) _ h in
      (
        [],
        done (ground arith),
        rw append-nil
            (record { end = i; found = p; parsed = ground arith; behind = ground arith; fits = k }),
      )

  after_read-answers :
      (go : t.io.Reader → Bytes → Outcome IoError (Head × Bytes × t.io.Reader)) (got : Bytes)
      (p : Bytes × t.io.Reader) {r : Head × Bytes × t.io.Reader}
      → after_read t u build go got p ≡ ok r
      → (length p.0 == 0) ≡ false
  after_read-answers go got ([], c) h = cc
  after_read-answers go got (x ∷ xs, c) h = ground arith

  head_status :
      {head : Head} {rest all : Bytes}
      → Splits u build head rest all
      → (100 ≤ head.status) × (head.status < 600)
  head_status {head} {all = all} s = elim (Option-cases (position crlf (take (s.end + 4) all))) [
    | inl n ↦ absurd (crlf_in_head all s.end s.found n)
    | inr (j, p) ↦ read_head_status u build (take (s.end + 4) all) head p s.parsed
  ]

  receive_loop-Splits :
      (fuel : ℕ) (c : t.io.Reader) (got : Bytes) {head : Head} {rest : Bytes} {c' : t.io.Reader}
      → length got ≤ 4096
      → receive_loop t u build fuel c got ≡ ok (head, rest, c')
      → (later : Bytes) × Reads t c later c' × Splits u build head rest (got ++ later)
  unfolding receive_loop
  receive_loop-Splits zero c got k h = cc
  receive_loop-Splits (suc fuel) c got {head} {rest} {c'} k h =
      let (p, e, h₁) =
        ok_parts (t.read c (4096 - length got))
          (after_read t u build (receive_loop t u build fuel) got) h in
      let room : length (got ++ p.0) ≤ 4096 =
        omega (arith, length-append got p.0, law.bounded c (4096 - length got) e) in
      let answered = after_read-answers (receive_loop t u build fuel) got p h₁ in
      let (later, r, s) =
        at_end-Splits (receive_loop t u build fuel) p.1 (got ++ p.0)
          (position head_end (got ++ p.0)) refl room (rw answered at h₁)
          (receive_loop-Splits fuel p.1 (got ++ p.0) room) in
      (p.0 ++ later, more e r refl, rw append_assoc at s)

  -- A head that is received is parsed from all that was read up to the first blank line, and what
  -- was read behind it is kept as the start of the body. Its status lies in 100 ..= 599.
  pub receive-Splits :
      (c : t.io.Reader) {head : Head} {rest : Bytes} {c' : t.io.Reader}
      → receive t u build c ≡ ok (head, rest, c')
      → (all : Bytes) × Reads t c all c'
        × Splits u build head rest all
        × (100 ≤ head.status)
        × (head.status < 600)
  unfolding receive
  receive-Splits c {head} h =
      let (all, r, s) = receive_loop-Splits 4097 c [] (omega arith) h in
      let (low, high) = head_status s in (all, r, s, low, high)
