-- ===== src/Httparse/Status.antt =====
-- `parse_status` of src/httparse.rs: which status lines it takes, and what it makes of them.
use simple_http.Base.{
  ℕ, suc, ◌≤◌, ◌<◌, true, false, some, List, [], ◌∷◌, ◌++◌, ◌≡◌, ◌⊎◌, ◌↔◌, inl, inr, refl, arith,
  ◌==◌, length, Bool-cases, ok, panic,
}
use simple_http.Base.Bytes.{Bytes, codes}
use simple_http.Base.Search.{split, onto_first}
use simple_http.Httparse.{parse_status, is_status_code, code_value, first_piece}
use simple_http.Base.Search.{contains, split-append}

-- A status that is accepted lies in 100 ..= 599.
pub parse_status_bounds :
    (input : Bytes) {code : ℕ} {version reason : Bytes}
    → parse_status input ≡ ok (code, version, reason)
    → (100 ≤ code) × (code < 600)
unfolding parse_status
parse_status_bounds input h = ground arith

length-onto_first :
    (c : ℕ) (pieces : List Bytes) (n : ℕ) {word : Bytes}
    → ((w : Bytes) → first_piece pieces ≡ some w → length w ≤ n)
    → first_piece (onto_first c pieces) ≡ some word
    → length word ≤ suc n
length-onto_first c [] n ih h = ground arith
length-onto_first c (p ∷ ps) n ih h = ground (arith, ih p refl)

length-first_piece :
    (sep : ℕ) (input : Bytes) {word : Bytes}
    → first_piece (split sep input) ≡ some word
    → length word ≤ length input
unfolding split
length-first_piece sep [] h = ground arith
length-first_piece sep (c ∷ cs) h = elim (Bool-cases (c == sep)) [
  | inl same ↦ ground arith
  | inr other ↦
      length-onto_first c (split sep cs) (length cs) (λ w e. length-first_piece sep cs e)
        (rw other at h)
]

-- `parse_status` panics exactly where the first word is shorter than 4 bytes, or is `HTTP` alone.
pub parse_status-panic_iff :
    (input word : Bytes)
    → first_piece (split b' ' input) ≡ some word
    → (parse_status input ≡ panic) ↔ ((length word < 4) ⊎ (word ≡ codes "HTTP"))
unfolding parse_status
parse_status-panic_iff input [] h = ground arith
parse_status-panic_iff input (a ∷ []) h = ground arith
parse_status-panic_iff input (a ∷ b ∷ []) h = ground arith
parse_status-panic_iff input (a ∷ b ∷ c ∷ []) h = ground arith
parse_status-panic_iff input (a ∷ b ∷ c ∷ d ∷ rest) h =
    ground (arith, length-first_piece b' ' input h)

-- A status line is read back: the version, the number of the three digits, and as the reason the
-- text behind the code up to the next space.
pub parse_status-line :
    (version tail reason : Bytes) (a b c : ℕ)
    → contains b' ' version ≡ false
    → first_piece (split b' ' tail) ≡ some reason
    → is_status_code a b c ≡ true
    → parse_status (codes "HTTP/" ++ version ++ b' ' ∷ a ∷ b ∷ c ∷ b' ' ∷ tail)
      ≡ ok (code_value a b c, version, reason)
unfolding parse_status
parse_status-line version tail reason a b c cv cr digits =
    rw (split-append b' ' (codes "HTTP/" ++ version) _ cv)
      (rw (split-append b' ' (a ∷ b ∷ c ∷ []) tail (ground arith)) (ground arith))
