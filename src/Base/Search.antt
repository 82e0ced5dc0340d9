-- ===== src/Base/Search.antt =====
-- Searching in byte strings: `starts_with`, `windows(n).position(..)`, `split`.
pub mod Prefixes
use simple_http.Base.Bytes.{Bytes}
use Prim.Native.Nat.{ℕ, suc}
use mathlib.Core.Path.{◌≡◌, refl}
use mathlib.Core.Bool.{Bool, true, false, ◌&&◌, ◌||◌}
use mathlib.Core.Option.{Option, none, some}
use mathlib.Core.Option
use mathlib.Core.List.{List, [], ◌∷◌, ◌++◌, reverse}
use native.Mathlib.Omega.{arith}
use simple_http.Base.Tests.{◌==◌, if◌then◌else◌}

-- `xs.starts_with(pat)`
unfoldable pub starts_with : Bytes → Bytes → Bool
starts_with [] xs = true
starts_with (p ∷ pat) [] = false
starts_with (p ∷ pat) (x ∷ xs) = p == x && starts_with pat xs

-- `xs.ends_with(pat)`
unfoldable pub ends_with : Bytes → Bytes → Bool
ends_with pat xs = starts_with (reverse pat) (reverse xs)

-- `xs.windows(n).position(|s| s == pat)`, for a pattern of length `n`, not empty
unfoldable pub position : Bytes → Bytes → Option ℕ
unfolding starts_with
position pat [] = none
position pat (x ∷ xs) =
    let rest = Option.map suc (position pat xs) in if starts_with pat (x ∷ xs) then some 0 else rest

-- puts a byte in front of the first piece
abbrev pub onto_first : ℕ → List Bytes → List Bytes
onto_first c [] = (c ∷ []) ∷ []
onto_first c (p ∷ ps) = (c ∷ p) ∷ ps

-- `xs.split(|x| *x == sep)`: the pieces in order, at least one
unfoldable pub split : ℕ → Bytes → List Bytes
split sep [] = [] ∷ []
split sep (c ∷ cs) =
    let pieces = split sep cs in if c == sep then [] ∷ pieces else onto_first c pieces

-- `s.contains(c)`: does the byte occur?
abbrev pub contains : ℕ → Bytes → Bool
contains c [] = false
contains c (x ∷ xs) = x == c || contains c xs

pub split-no_sep : (sep : ℕ) (xs : Bytes) → contains sep xs ≡ false → split sep xs ≡ xs ∷ []
unfolding split
split-no_sep sep [] h = refl
split-no_sep sep (x ∷ xs) h = ground (arith, split-no_sep sep xs)

pub split-append :
    (sep : ℕ) (xs ys : Bytes)
    → contains sep xs ≡ false
    → split sep (xs ++ sep ∷ ys) ≡ xs ∷ split sep ys
unfolding split
split-append sep [] ys h = ground arith
split-append sep (x ∷ xs) ys h = ground (arith, split-append sep xs ys)
