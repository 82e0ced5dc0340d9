-- ===== src/Body/Within.antt =====
-- What holds of a body of src/body.rs between two polls, whatever its reader does.
use native.Mathlib.Decide.{dec_le}
use simple_http.Base.{
  ℕ, ◌+◌, ◌-◌, ◌≤◌, ◌<◌, true, false, Option, none, some, [], ◌∷◌, ◌++◌, ◌≡◌, ◌∙◌, inl, inr, refl,
  sym, subst, arith, Bool-cases, leb, length, length-take, take, drop, usize_mod, Outcome, ok,
  ok_pair, Build,
}
use simple_http.Base.Bytes.{Bytes}
use simple_http.Io.{IoError, IoResult, Poll, pending, ready, AsyncRead}
use simple_http.Body.{Body, poll_answer, poll_open, poll_next}
use simple_http.Body.Length.{poll_answer_overrun, poll_answer_within}
use simple_http.Body.Steps.{length-refill}

-- the bytes that a poll has given
abbrev pub given : Poll (Option (IoResult Bytes)) → ℕ
given (ready (some (inr chunk))) = length chunk
given (ready (some (inl e))) = 0
given (ready none) = 0
given pending = 0

module _ (io : AsyncRead) (build : Build) where
  open io use {Reader, poll_read}

  abbrev pub left : Option Bytes → ℕ
  left none = 0
  left (some vec) = length vec

  -- The bytes given are within those that came with the head and the announced length.
  pub record Within (max start : ℕ) (body : Body Reader) (total : ℕ) : Type 0 where
    pub announced : body.content_length ≡ some max
    pub buffer : length body.buf ≡ 4096
    pub room : body.counter ≤ max + 4096
    pub counted : total + left body.rest ≤ start + body.counter
    pub capped : total + left body.rest ≤ start + max

  pub poll_next-drained :
      (body : Body Reader)
      → body.drained ≡ true
      → poll_next io {E = IoError} build body ≡ ok (ready none, body)
  unfolding poll_next
  poll_next-drained body d = rw d refl

  pub poll_next-open :
      (body : Body Reader)
      → body.drained ≡ false
      → poll_next io {E = IoError} build body ≡ poll_open io build body body.rest
  unfolding poll_next
  poll_next-open body d = rw d refl

  module _ (max start : ℕ) (small : max + 8192 < usize_mod) where
    Within-put :
        (body : Body Reader) (bytes : Bytes) (total n : ℕ)
        → Within max start body total
        → length bytes ≤ 4096
        → n ≤ length bytes
        → body.counter + n ≤ max
        → Within max start
            (record body {
              buf = bytes ++ drop (length bytes) body.buf;
              counter = body.counter + length bytes;
            })
            (total + n)
    Within-put body bytes total n w h k l = record {
      announced = w.announced;
      buffer = length-refill io bytes body.buf w.buffer h;
      room = omega arith;
      counted = omega (arith, w.counted);
      capped = omega (arith, w.counted);
    }

    -- what a poll gives, and what holds after it
    abbrev pub Gives : ℕ → Outcome IoError (Poll (Option (IoResult Bytes)) × Body Reader) → Type 0
    Gives total m =
        (p : Poll (Option (IoResult Bytes))) × (body' : Body Reader) × (m ≡ ok (p, body'))
        × Within max start body' (total + given p)

    read-Within :
        (body : Body Reader) (bytes : Bytes) (total : ℕ)
        → Within max start body total
        → length bytes ≤ 4096
        → body.counter ≤ max
        → Gives total (poll_answer io {E = IoError} build body (ready (inr bytes)))
    unfolding poll_answer
    read-Within body [] total w h l = (
      ready none,
      record body { buf = [] ++ drop 0 body.buf; counter = body.counter + 0 },
      rw w.announced (ground arith),
      Within-put body [] total 0 w h (omega arith) (omega arith),
    )
    read-Within body (x ∷ xs) total w h l =
        let bytes = x ∷ xs in
        let fits =
          poll_answer_within io build body max bytes w.announced l (omega arith) (omega arith) in
        elim (Bool-cases (leb (body.counter + length bytes) max)) [
          | inl within ↦ (
            ready (some (inr bytes)),
            _,
            fits ∙ rw within refl,
            Within-put body bytes total (length bytes) w h (omega arith) (ground arith),
          )
          | inr beyond ↦ elim (Bool-cases (leb max body.counter)) [
            | inl full ↦ (
              ready none,
              _,
              fits ∙ rw beyond (rw full refl),
              Within-put body bytes total 0 w h (omega arith) (ground arith),
            )
            | inr crosses ↦ (
              ready (some (inr (take (max - body.counter) bytes))),
              _,
              fits ∙ rw beyond (rw crosses refl),
              Within-put body bytes total (length (take (max - body.counter) bytes)) w h
                  (omega (arith, length-take (max - body.counter) bytes))
                  (ground (arith, length-take (max - body.counter) bytes)),
            )
          ]
        ]

    pub Gives-ok :
        {body' : Body Reader} (total : ℕ)
        {m : Outcome IoError (Poll (Option (IoResult Bytes)) × Body Reader)}
        {p : Poll (Option (IoResult Bytes))}
        → Gives total m
        → m ≡ ok (p, body')
        → Within max start body' (total + given p)
    Gives-ok {body' = body'} total {p = p} (q, b, e, w) h =
        let (d, f) = ok_pair (sym e ∙ h) in
        subst (λ x. Within max start x (total + given p)) f
          (subst (λ x. Within max start b (total + given x)) d w)

    -- A poll that gives no bytes keeps what holds.
    pub Within-none :
        (body body' : Body Reader) (total : ℕ)
        → body'.content_length ≡ body.content_length
        → body'.buf ≡ body.buf
        → body'.counter ≡ body.counter
        → body'.rest ≡ body.rest
        → Within max start body total
        → Within max start body' (total + 0)
    Within-none body body' total a b c d w = record {
      announced = a ∙ w.announced;
      buffer = rw b w.buffer;
      room = omega (arith, w.room, c);
      counted = rw (c, d) (omega (arith, w.counted));
      capped = rw d (omega (arith, w.capped));
    }

    -- an answer of the reader, of whatever kind
    pub answer-Within :
        (body : Body Reader) (total : ℕ) (answer : Poll (IoResult Bytes))
        {p : Poll (Option (IoResult Bytes))} {body' : Body Reader}
        → Within max start body total
        → ((bytes : Bytes) → answer ≡ ready (inr bytes) → length bytes ≤ 4096)
        → poll_answer io {E = IoError} build body answer ≡ ok (p, body')
        → Within max start body' (total + given p)
    unfolding poll_answer
    answer-Within body total pending w h e =
        Gives-ok total (pending, body, refl, Within-none body body total refl refl refl refl w) e
    answer-Within body total (ready (inl x)) w h e =
        Gives-ok total
          (
            ready (some (inl x)),
            record body { drained = true },
            refl,
            Within-none body (record body { drained = true }) total refl refl refl refl w,
          )
          e
    answer-Within body total (ready (inr bytes)) w h e = elim (dec_le body.counter max) [
      | yes l ↦ Gives-ok total (read-Within body bytes total w (h bytes refl) l) e
      | no over ↦
          let k = h bytes refl in
          let p =
            poll_answer_overrun io {E = IoError} build body max bytes w.announced (omega arith)
              (omega (arith, w.room)) (omega (arith, w.buffer)) w.buffer in
          absurd cc
    ]
