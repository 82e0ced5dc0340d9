-- ===== src/Base/Text.antt =====
-- What the source uses of the standard library's `String`, `str` and number formatting, on bytes.
pub mod RoundTrip
use Prim.Native.Nat.{ℕ, zero, suc, ◌+◌, ◌-◌, ◌*◌, ◌/◌, ◌%◌, ◌<◌}
use mathlib.Core.Path.{◌≡◌}
use mathlib.Core.Logic.{inl, inr}
use mathlib.Core.Bool.{Bool, true, ◌&&◌}
use mathlib.Core.Option.{Option, none, some}
use mathlib.Core.List.{[], ◌∷◌, map}
use native.Mathlib.Omega.{arith}
use simple_http.Base.Tests.{ltb, leb, ◌==◌, if◌then◌else◌, Bool-cases}
use simple_http.Base.Bytes.{Bytes}
use simple_http.Base.Fallible.{usize_mod}

-- The tables of Unicode, on texts that are not ASCII. Nothing is assumed of them.
pub record Unicode : Type 0 where
  pub decode_lossy : Bytes → Bytes
  pub lowercase : Bytes → Bytes

unfoldable pub is_ascii : Bytes → Bool
is_ascii [] = true
is_ascii (c ∷ cs) = ltb c 128 && is_ascii cs

abbrev pub lower_byte : ℕ → ℕ
lower_byte c = if leb b'A' c && leb c b'Z' then c + 32 else c

-- `String::from_utf8_lossy(b).to_string()`
unfoldable pub from_utf8_lossy : Unicode → Bytes → Bytes
from_utf8_lossy u b = if is_ascii b then b else u.decode_lossy b

-- `s.to_lowercase()`
unfoldable pub to_lowercase : Unicode → Bytes → Bytes
to_lowercase u b = if is_ascii b then map lower_byte b else u.lowercase b

abbrev pub is_digit : ℕ → Bool
is_digit c = leb b'0' c && leb c b'9'

-- The digits behind `acc`, `none` at another byte or past `limit`.
pub parse_digits : ℕ → ℕ → Bytes → Option ℕ
parse_digits limit acc [] = some acc
parse_digits limit acc (c ∷ cs) =
    let acc' = acc * 10 + (c - b'0') in
    let rest = parse_digits limit acc' cs in if is_digit c && ltb acc' limit then rest else none

abbrev parse_nonempty : ℕ → Bytes → Option ℕ
parse_nonempty limit [] = none
parse_nonempty limit (c ∷ cs) = parse_digits limit 0 (c ∷ cs)

-- `s.parse::<usize>().ok()`
unfoldable pub parse_usize : Bytes → Option ℕ
unfolding parse_digits
parse_usize [] = none
parse_usize (c ∷ cs) =
    if c == b'+' then parse_nonempty usize_mod cs else parse_nonempty usize_mod (c ∷ cs)

-- `format!("{}", n)`, on fuel for the digits.
pub show_digits : ℕ → ℕ → Bytes → Bytes
show_digits zero n out = out
show_digits (suc fuel) n out =
    let out' = (b'0' + n % 10) ∷ out in
    let rest = show_digits fuel (n / 10) out' in if ltb n 10 then out' else rest

unfoldable pub show_nat : ℕ → Bytes
unfolding show_digits
show_nat n = show_digits (suc n) n []

parse_digits-lt :
    (limit acc : ℕ) (cs : Bytes) (n : ℕ)
    → acc < limit
    → parse_digits limit acc cs ≡ some n
    → n < limit
unfolding parse_digits
parse_digits-lt limit acc [] n h e = ground arith
parse_digits-lt limit acc (c ∷ cs) n h e =
    ground (arith, parse_digits-lt limit (acc * 10 + (c - b'0')) cs n)

parse_nonempty-lt : (s : Bytes) (n : ℕ) → parse_nonempty usize_mod s ≡ some n → n < usize_mod
parse_nonempty-lt [] n h = cc
parse_nonempty-lt (c ∷ cs) n h = parse_digits-lt usize_mod 0 (c ∷ cs) n (omega arith) h

pub parse_usize-lt : (s : Bytes) {n : ℕ} → parse_usize s ≡ some n → n < usize_mod
parse_usize-lt [] {n} h = unfold parse_usize in cc
parse_usize-lt (c ∷ cs) {n} h = elim (Bool-cases (c == b'+')) [
  | inl plus ↦ parse_nonempty-lt cs n (unfold parse_usize in rw plus at h)
  | inr other ↦ parse_nonempty-lt (c ∷ cs) n (unfold parse_usize in rw other at h)
]
