-- ===== src/Base/Search/Prefixes.antt =====
-- Where `position` finds a pattern in a text that is received piece by piece.
use simple_http.Base.{
  ℕ, ◌+◌, ◌≤◌, ◌<◌, true, none, some, [], ◌∷◌, ◌++◌, ◌≡◌, inl, inr, refl, arith, length, drop, sym,
  ◌∙◌, Bool-cases, Option-cases,
}
use simple_http.Base.Bytes.{Bytes}
use simple_http.Base.Search.{starts_with, position}

starts_with-length : (pat xs : Bytes) → starts_with pat xs ≡ true → length pat ≤ length xs
unfolding starts_with
starts_with-length [] xs h = omega arith
starts_with-length (p ∷ pat) [] h = absurd (ground arith)
starts_with-length (p ∷ pat) (x ∷ xs) h = ground (arith, starts_with-length pat xs)

-- A pattern is found within the text.
pub position-length :
    (pat xs : Bytes) (i : ℕ) → position pat xs ≡ some i → i + length pat ≤ length xs
unfolding position
position-length pat [] i h = absurd (ground arith)
position-length pat (x ∷ xs) i h = elim (Bool-cases (starts_with pat (x ∷ xs))) [
  | inl e ↦
      let z : some 0 ≡ some i = (rw e at h) in ground (arith, z, starts_with-length pat (x ∷ xs) e)
  | inr e ↦ elim (Option-cases (position pat xs)) [
    | inl n ↦ absurd (ground (arith, h, e, n))
    | inr (j, p) ↦ ground (arith, h, e, p, position-length pat xs j p)
  ]
]

pub starts_with-append :
    (pat xs ys : Bytes) → length pat ≤ length xs → starts_with pat (xs ++ ys) ≡ starts_with pat xs
unfolding starts_with
starts_with-append [] xs ys h = refl
starts_with-append (p ∷ pat) [] ys h = absurd (omega arith)
starts_with-append (p ∷ pat) (x ∷ xs) ys h = ground (arith, starts_with-append pat xs ys)

-- What is found in a text is found at the same place in a longer one.
pub position-append :
    (pat xs ys : Bytes) (i : ℕ) → position pat xs ≡ some i → position pat (xs ++ ys) ≡ some i
unfolding position
position-append pat [] ys i h = absurd (ground arith)
position-append pat (x ∷ xs) ys i h =
    let whole =
      starts_with-append pat (x ∷ xs) ys
        (let fits = position-length pat (x ∷ xs) i h in omega arith) in
    elim (Bool-cases (starts_with pat (x ∷ xs))) [
      | inl e ↦ ground (arith, h, e, whole)
      | inr e ↦ elim (Option-cases (position pat xs)) [
        | inl n ↦ absurd (ground (arith, h, e, n))
        | inr (j, p) ↦ ground (arith, h, e, whole, p, position-append pat xs ys j p)
      ]
    ]

-- Before the whole pattern is there, nothing is found.
pub position-prefix :
    (pat xs ys : Bytes) (i : ℕ)
    → position pat (xs ++ ys) ≡ some i
    → length xs < i + length pat
    → position pat xs ≡ none
position-prefix pat xs ys i h short = elim (Option-cases (position pat xs)) [
  | inl n ↦ n
  | inr (j, p) ↦
      let same : some i ≡ some j = sym h ∙ position-append pat xs ys j p in
      absurd (ground (arith, same, position-length pat xs j p))
]

-- Two ways to divide the same text: the longer first part has the other one in front.
pub append-parts :
    (xs ys zs ws : Bytes)
    → xs ++ ys ≡ zs ++ ws
    → length zs ≤ length xs
    → (xs ≡ zs ++ drop (length zs) xs) × (drop (length zs) xs ++ ys ≡ ws)
append-parts xs ys [] ws e h = (refl, e)
append-parts [] ys (z ∷ zs) ws e h = absurd (omega arith)
append-parts (x ∷ xs) ys (z ∷ zs) ws e h =
    let (same, others) = append-parts xs ys zs ws (cc) (omega arith) in (cc, others)
