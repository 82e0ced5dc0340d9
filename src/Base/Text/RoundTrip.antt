-- ===== src/Base/Text/RoundTrip.antt =====
-- Numbers as decimal texts: printed, measured and read back.
use Prim.Native.Nat.{ℕ, zero, suc, ◌+◌, ◌/◌, ◌%◌, ◌^◌, ◌<◌, ◌≤◌}
use mathlib.Core.Path.{◌≡◌, refl, ◌∙◌}
use mathlib.Core.Logic.{inl, inr}
use mathlib.Core.Bool.{true, false}
use mathlib.Core.Option.{some}
use mathlib.Core.List.{[], ◌∷◌}
use native.Mathlib.Omega.{arith}
use simple_http.Base.Tests.{ltb, Bool-cases}
use simple_http.Base.Lists.{length}
use simple_http.Base.Bytes.{Bytes}
use simple_http.Base.Search.{contains}
use simple_http.Base.Fallible.{usize_mod}
use simple_http.Base.Text.{is_digit, parse_digits, parse_usize, show_digits, show_nat}

-- Reading the last digit of `n` behind the others gives `n`.
parse_digits-last :
    (limit n : ℕ) (out : Bytes)
    → n < limit
    → parse_digits limit (n / 10) ((b'0' + n % 10) ∷ out) ≡ parse_digits limit n out
unfolding parse_digits
parse_digits-last limit n out h = ground arith

parse_digits-digit :
    (limit n : ℕ) (out : Bytes)
    → n < limit
    → n < 10
    → parse_digits limit 0 ((b'0' + n % 10) ∷ out) ≡ parse_digits limit n out
unfolding parse_digits
parse_digits-digit limit n out h k = ground arith

parse_digits-show_digits :
    (limit fuel n : ℕ) (out : Bytes)
    → n < fuel
    → n < limit
    → parse_digits limit 0 (show_digits fuel n out) ≡ parse_digits limit n out
unfolding show_digits
parse_digits-show_digits limit zero n out f h = elim f [ ]
parse_digits-show_digits limit (suc fuel) n out f h = elim (Bool-cases (ltb n 10)) [
  | inl small ↦ rw small (parse_digits-digit limit n out h (ground arith))
  | inr large ↦ rw large (
      parse_digits-show_digits limit fuel (n / 10) ((b'0' + n % 10) ∷ out) (ground arith)
        (ground arith)
      ∙ parse_digits-last limit n out h)
]

-- A printed number begins with a digit.
show_digits-head :
    (fuel n : ℕ) (out : Bytes)
    → n < fuel
    → (c : ℕ) × (cs : Bytes) × (show_digits fuel n out ≡ c ∷ cs) × (is_digit c ≡ true)
unfolding show_digits
show_digits-head zero n out f = elim f [ ]
show_digits-head (suc fuel) n out f = elim (Bool-cases (ltb n 10)) [
  | inl small ↦ (b'0' + n % 10, out, rw small refl, ground arith)
  | inr large ↦ rw large (show_digits-head fuel (n / 10) ((b'0' + n % 10) ∷ out) (ground arith))
]

parse_usize-digit :
    (c : ℕ) (cs : Bytes)
    → is_digit c ≡ true
    → parse_usize (c ∷ cs) ≡ parse_digits usize_mod 0 (c ∷ cs)
unfolding parse_usize
parse_usize-digit c cs h = ground arith

parse_usize-head :
    (s : Bytes) (c : ℕ) (cs : Bytes)
    → s ≡ c ∷ cs
    → is_digit c ≡ true
    → parse_usize s ≡ parse_digits usize_mod 0 s
parse_usize-head s c cs e d = rw e (parse_usize-digit c cs d)

-- A number of 64 bits is read back from its decimal text.
pub parse_usize-show_nat : (n : ℕ) → n < usize_mod → parse_usize (show_nat n) ≡ some n
unfolding show_nat parse_digits
parse_usize-show_nat n h =
    let (c, cs, e, d) = show_digits-head (suc n) n [] (omega arith) in
    parse_usize-head (show_digits (suc n) n []) c cs e d
    ∙ parse_digits-show_digits usize_mod (suc n) n [] (omega arith) h

-- A number below `10 ^ k` has at most `k` digits.
length-show_digits :
    (fuel k n : ℕ) (out : Bytes)
    → n < 10 ^ suc k
    → length (show_digits fuel n out) ≤ suc k + length out
unfolding show_digits
length-show_digits zero k n out h = omega arith
length-show_digits (suc fuel) zero n out h = ground arith
length-show_digits (suc fuel) (suc k) n out h = elim (Bool-cases (ltb n 10)) [
  | inl small ↦ rw small (omega arith)
  | inr large ↦
      rw large
        (omega (arith, length-show_digits fuel k (n / 10) ((b'0' + n % 10) ∷ out) (omega arith)))
]

-- The text of a port has five digits at most.
pub length-show_nat : (n : ℕ) → n < 65536 → length (show_nat n) ≤ 5
unfolding show_nat
length-show_nat n h = omega (arith, length-show_digits (suc n) 4 n [] (omega arith))

show_digits-contains :
    (fuel n : ℕ) (out : Bytes)
    → contains b':' out ≡ false
    → contains b':' (show_digits fuel n out) ≡ false
unfolding show_digits
show_digits-contains zero n out h = h
show_digits-contains (suc fuel) n out h =
    ground (arith, show_digits-contains fuel (n / 10) ((b'0' + n % 10) ∷ out))

-- A printed number has no colon.
pub contains-show_nat : (n : ℕ) → contains b':' (show_nat n) ≡ false
unfolding show_nat
contains-show_nat n = show_digits-contains (suc n) n [] refl
