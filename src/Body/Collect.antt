-- ===== src/Body/Collect.antt =====
-- The loop of examples/simple.rs that reads a body to its end, against the chunks that the
-- transport delivers.
use native.Mathlib.Decide.{dec_le}
use simple_http.Base.{
  le→leb, lt→leb, ℕ, zero, suc, ◌+◌, ◌-◌, ◌≤◌, ◌<◌, Option, none, some, List, [], ◌∷◌, ◌++◌, ◌≡◌,
  inl, inr, refl, ap, ◌∙◌, arith, if◌then◌else◌, leb, length, take, drop, append-nil, usize_mod,
  append_assoc, Outcome, ok, err, panic, out_of_fuel, ◌>>=◌, Build,
}
use simple_http.Base.Bytes.{Bytes}
use simple_http.Io.{pending, ready, AsyncRead}
use simple_http.Body.{Body, poll_next, new}
use simple_http.Body.Steps.{
  reading, Fits, poll_next-reading, poll_answer-pending, poll_answer-Fits, poll_answer-full,
  poll_answer-crosses, length-refill, poll_answer-eof,
}
use simple_http.Body.Length.{poll_answer_overrun}

module _ (io : AsyncRead) where
  open io use {Reader, poll_read}

  -- `while let Some(chunk) = body.next().await { b.extend_from_slice(&(chunk.unwrap())[..]) }`;
  -- `.await` polls again after `Pending`.
  pub collect {ℓ} : {E : Type ℓ} → Build → ℕ → Body Reader → Bytes → Outcome E Bytes
  collect build zero body b = out_of_fuel
  collect build (suc fuel) body b = do
    (p, body') ← poll_next io build body
    elim p [
      | pending ↦ collect build fuel body' b
      | ready none ↦ ok b
      | ready (some (inl e)) ↦ panic
      | ready (some (inr chunk)) ↦ collect build fuel body' (b ++ chunk)
    ]

  -- The reader answers these chunks, then its end, within so many polls.
  pub data Delivers : ℕ → Reader → List Bytes → Type 0 where
    eof : {n : ℕ} {r r' : Reader} → poll_read r 4096 ≡ (ready (inr []), r') → Delivers (suc n) r []
    wait :
        {n : ℕ} {r r' : Reader} {cs : List Bytes}
        → poll_read r 4096 ≡ (pending, r')
        → Delivers n r' cs
        → Delivers (suc n) r cs
    chunk :
        {n : ℕ} {r r' : Reader} {c : Bytes} {cs : List Bytes}
        → poll_read r 4096 ≡ (ready (inr c), r')
        → 0 < length c
        → length c ≤ 4096
        → Delivers n r' cs
        → Delivers (suc n) r (c ∷ cs)

abbrev pub total : List Bytes → ℕ
total [] = 0
total (c ∷ cs) = length c + total cs

-- What is read, after `counter` bytes, of a body of the announced length: chunks up to the
-- length are kept, the end of the length at the end of a chunk ends the body, and a chunk across
-- it is fatal.
abbrev pub expected {ℓ} : {E : Type ℓ} → Option ℕ → ℕ → List Bytes → Outcome E Bytes
expected none counter [] = ok []
expected none counter (c ∷ cs) = expected none (counter + length c) cs >>= λ later. ok (c ++ later)
expected (some max) counter [] = ok []
expected (some max) counter (c ∷ cs) =
    let later = expected (some max) (counter + length c) cs >>= λ later. ok (c ++ later) in
    if leb (counter + length c) max then later else if leb max counter then ok [] else panic

regroup {ℓ} :
    {E : Type ℓ} (out c : Bytes) (m : Outcome E Bytes)
    → (m >>= λ b. ok (out ++ c ++ b)) ≡ (m >>= (λ b. ok (c ++ b)) >>= λ b. ok (out ++ b))
regroup out c (ok b) = ap ok (append_assoc out c b)
regroup out c (err e) = refl
regroup out c panic = refl
regroup out c out_of_fuel = refl

module _ (io : AsyncRead) where
  open io use {Reader, poll_read}

  -- After too many bytes the loop panics at the next answer.
  collect_overrun :
      {E : Type 0} (build : Build) {n : ℕ} {r : Reader} {cs : List Bytes} (buf out : Bytes)
      (k max : ℕ)
      → Delivers io n r cs
      → length buf ≡ 4096
      → max < k
      → k + 4096 < usize_mod
      → collect io {E = E} build n (reading r buf k (some max)) out ≡ panic
  unfolding collect
  collect_overrun {E} build {r = r} buf out k max (eof {n} {r' = r'} e) h1 h2 h3 =
      rw (poll_next-reading io {E = E} build r buf k (some max) h1 e) (
        rw (
          poll_answer_overrun io {E = E} build (reading r' buf k (some max)) max [] refl h2 h3
            (omega arith) h1))
  collect_overrun {E} build {r = r} buf out k max (wait {n} {r' = r'} e d) h1 h2 h3 =
      rw (poll_next-reading io {E = E} build r buf k (some max) h1 e)
        (rw poll_answer-pending (collect_overrun build buf out k max d h1 h2 h3))
  collect_overrun {E} build {r = r} buf out k max (chunk {n} {r' = r'} {c = c} e _ le d) h1 h2 h3 =
      rw (poll_next-reading io {E = E} build r buf k (some max) h1 e) (
        rw (
          poll_answer_overrun io {E = E} build (reading r' buf k (some max)) max c refl h2 h3
            (omega arith) h1))

  collect-expected :
      {E : Type 0} (build : Build) {n : ℕ} {r : Reader} {cs : List Bytes} (buf out : Bytes) (k : ℕ)
      (cl : Option ℕ)
      → Delivers io n r cs
      → length buf ≡ 4096
      → Fits cl k
      → k + total cs + 4096 < usize_mod
      → collect io {E = E} build n (reading r buf k cl) out
        ≡ (expected cl k cs >>= λ b. ok (out ++ b))
  unfolding collect
  collect-expected {E} build {r = r} buf out k none (eof {n} {r' = r'} e) h1 h2 h3 =
      rw (poll_next-reading io {E = E} build r buf k none h1 e)
        (rw (poll_answer-eof io {E = E} build r' buf k none (omega arith) h2) (rw append-nil))
  collect-expected {E} build {r = r} buf out k (some max) (eof {n} {r' = r'} e) h1 h2 h3 =
      rw (poll_next-reading io {E = E} build r buf k (some max) h1 e)
        (rw (poll_answer-eof io {E = E} build r' buf k (some max) (omega arith) h2) (rw append-nil))
  collect-expected {E} build {r = r} buf out k cl (wait {n} {r' = r'} e d) h1 h2 h3 =
      rw (poll_next-reading io {E = E} build r buf k cl h1 e)
        (rw poll_answer-pending (collect-expected build buf out k cl d h1 h2 h3))
  collect-expected {E} build {r = r} buf out k none
        (chunk {n} {r' = r'} {c = c} {cs = cs} e pos le d) h1 h2 h3 =
      rw (poll_next-reading io {E = E} build r buf k none h1 e) (
        rw (poll_answer-Fits io {E = E} build r' buf k none c pos (omega arith) tt) (
          collect-expected build (c ++ drop (length c) buf) (out ++ c) (k + length c) none d
            (length-refill io c buf h1 le) tt (omega arith)
          ∙ regroup out c (expected none (k + length c) cs)))
  collect-expected {E} build {r = r} buf out k (some max)
        (chunk {n} {r' = r'} {c = c} {cs = cs} e pos le d) h1 h2 h3 =
      rw (poll_next-reading io {E = E} build r buf k (some max) h1 e)
        (elim (dec_le (k + length c) max) [
          | yes fits ↦
              rw
                (
                  poll_answer-Fits io {E = E} build r' buf k (some max) c pos (omega arith) fits,
                  le→leb (k + length c) max fits,
                )
                (collect-expected build (c ++ drop (length c) buf) (out ++ c) (k + length c)
                    (some max) d (length-refill io c buf h1 le) fits (omega arith)
                  ∙ regroup out c (expected (some max) (k + length c) cs))
          | no over ↦ elim (dec_le max k) [
            | yes full ↦
                rw
                  (poll_answer-full io {E = E} build r' buf k max c pos (omega arith) (omega arith))
                  (rw (lt→leb (k + length c) max (omega arith), le→leb max k full, append-nil))
            | no below ↦
                rw
                  (poll_answer-crosses io {E = E} build r' buf k max c (omega arith) (omega arith)
                    (omega arith))
                  (rw (lt→leb (k + length c) max (omega arith), lt→leb max k (omega arith))
                    (collect_overrun build (c ++ drop (length c) buf) (out ++ take (max - k) c)
                      (k + length c) max d (length-refill io c buf h1 le) (omega arith)
                      (omega arith)))
          ]
        ])

  -- A new body, read to its end, gives the bytes that came with the head and then all that the
  -- transport delivers within the announced length, and panics where a chunk goes across it.
  pub collect-new :
      {E : Type 0} (build : Build) (uninit rest : Bytes) (length_ : Option ℕ) {n : ℕ} {r : Reader}
      {cs : List Bytes}
      → Delivers io n r cs
      → length uninit ≡ 4096
      → total cs + 4096 < usize_mod
      → collect io {E = E} build (suc n) (new uninit r (some rest) length_) []
        ≡ (expected length_ 0 cs >>= λ b. ok (rest ++ b))
  unfolding collect poll_next new
  collect-new build uninit rest none d h1 h2 =
      collect-expected build uninit rest 0 none d h1 tt (omega arith)
  collect-new build uninit rest (some max) d h1 h2 =
      collect-expected build uninit rest 0 (some max) d h1 (omega arith) (omega arith)
