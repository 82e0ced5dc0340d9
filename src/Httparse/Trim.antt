-- ===== src/Httparse/Trim.antt =====
-- `rtrim` and `ltrim` of src/httparse.rs against their reading from the right and from the left.
use mathlib.Core.List.{reverse-append, reverse-cons, reverse-reverse}
use simple_http.Base.{
  subst, length-reverse, ℕ, zero, suc, inl, inr, ◌<◌, [], ◌∷◌, ◌++◌, ◌≡◌, ◌≢◌, refl, sym, ◌∙◌,
  reverse, arith, ◌==◌, if◌then◌else◌, length, length-append, get_elem?-append_length,
  take-append_length, append_assoc, get_elem?-append_next, Bool-cases, ==_iff, Outcome, ok, panic,
  Build, debug, release,
}
use simple_http.Base.Bytes.{Bytes}
use simple_http.Httparse.{rtrim_loop, rtrim}

-- `rtrim` on the reversed bytes: a last space is dropped together with the byte in front of it.
abbrev pub trim_back {ℓ} : {E : Type ℓ} → Build → Bytes → Outcome E Bytes
trim_back debug [] = panic
trim_back release [] = ok []
trim_back build (c ∷ []) = if c == b' ' then panic else ok (c ∷ [])
trim_back build (c ∷ d ∷ r) =
    let shorter = trim_back build r in if c == b' ' then shorter else ok (reverse (c ∷ d ∷ r))

module _ {ℓ} {E : Type ℓ} (build : Build) (fuel : ℕ) where
  rtrim_loop-snoc :
      (xs : Bytes) (c : ℕ)
      → c ≢ b' '
      → rtrim_loop {E = E} build (suc fuel) (xs ++ c ∷ []) ≡ ok (xs ++ c ∷ [])
  unfolding rtrim_loop
  rtrim_loop-snoc xs c h =
      ground (arith, length-append xs (c ∷ []), get_elem?-append_length xs c [])

  rtrim_loop-space :
      (xs : Bytes) (d : ℕ)
      → rtrim_loop {E = E} build (suc fuel) (xs ++ d ∷ b' ' ∷ []) ≡ rtrim_loop build fuel xs
  unfolding rtrim_loop
  rtrim_loop-space xs d = ground (
    arith,
    length-append xs (d ∷ b' ' ∷ []),
    get_elem?-append_next xs d b' ',
    take-append_length xs (d ∷ b' ' ∷ []),
  )

reverse-cons-cons : (r : Bytes) (c d : ℕ) → reverse (c ∷ d ∷ r) ≡ reverse r ++ d ∷ c ∷ []
reverse-cons-cons r c d = simp (reverse-cons, append_assoc)

rtrim_loop-reverse {ℓ} :
    {E : Type ℓ} (build : Build) (fuel : ℕ) (r : Bytes)
    → length r < fuel
    → rtrim_loop {E = E} build fuel (reverse r) ≡ trim_back build r
rtrim_loop-reverse build zero r h = absurd (omega arith)
rtrim_loop-reverse debug (suc fuel) [] h = unfold rtrim_loop in refl
rtrim_loop-reverse release (suc fuel) [] h = unfold rtrim_loop in refl
rtrim_loop-reverse build (suc fuel) (c ∷ []) h = unfold rtrim_loop in ground arith
rtrim_loop-reverse {E} build (suc fuel) (c ∷ d ∷ r) h = elim (Bool-cases (c == b' ')) [
  | inl space ↦
      rw (reverse-cons-cons, space, (==_iff c b' ').0 space)
        (rtrim_loop-space {E = E} build fuel (reverse r) d
          ∙ rtrim_loop-reverse build fuel r (omega arith))
  | inr other ↦
      rw (reverse-cons, other)
        (rtrim_loop-snoc {E = E} build fuel (reverse (d ∷ r)) c (ground arith))
]

rtrim_loop-trim_back {ℓ} :
    {E : Type ℓ} (build : Build) (val : Bytes)
    → rtrim_loop {E = E} build (suc (length val)) val ≡ trim_back build (reverse val)
rtrim_loop-trim_back {E} build val =
    subst (λ v. rtrim_loop build (suc (length val)) v ≡ trim_back build (reverse val))
      (reverse-reverse val)
      (rtrim_loop-reverse {E = E} build (suc (length val)) (reverse val)
        (omega (arith, length-reverse val)))

-- For every input, in a debug and in a release build, `rtrim` ends, and its result or its panic
-- is that of reading the bytes from the right in pairs: a last space goes together with the
-- byte in front of it, a lone space panics, and the empty input panics in a debug build only.
pub rtrim-trim_back {ℓ} :
    {E : Type ℓ} (build : Build) (val : Bytes)
    → rtrim {E = E} build val ≡ trim_back build (reverse val)
unfolding rtrim
rtrim-trim_back build val = rtrim_loop-trim_back build val

-- A value that ends in no space is kept.
pub rtrim_no_space {ℓ} :
    {E : Type ℓ} (build : Build) (xs : Bytes) (c : ℕ)
    → c ≢ b' '
    → rtrim {E = E} build (xs ++ c ∷ []) ≡ ok (xs ++ c ∷ [])
unfolding rtrim
rtrim_no_space {E} build xs c h = rtrim_loop-snoc {E = E} build _ xs c h

-- A last space takes the byte in front of it along, whatever that byte is.
rtrim_space {ℓ} :
    {E : Type ℓ} (build : Build) (xs : Bytes) (d : ℕ)
    → rtrim {E = E} build (xs ++ d ∷ b' ' ∷ []) ≡ rtrim build xs
rtrim_space {E} build xs d =
    rtrim-trim_back build _ ∙ (rw reverse-append) ∙ sym (rtrim-trim_back build xs)
