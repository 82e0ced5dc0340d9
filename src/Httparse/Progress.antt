-- ===== src/Httparse/Progress.antt =====
-- `next` always returns or panics, and takes bytes off the input.
use simple_http.Base.{
  Returns, Returns-ok, Returns-panic, Returns-if, returns_rules, reverse, ℕ, ◌+◌, ◌≤◌, ◌<◌, Bool,
  true, false, Option, none, some, [], ◌∷◌, ◌≡◌, inl, inr, refl, arith, ◌==◌, length, length-drop,
  slice_to, slice_from, reify, Option-cases, Outcome, ok, err, ◌>>=◌, ok_parts, Build, debug,
  release,
}
use simple_http.Base.Bytes.{Bytes, crlf}
use simple_http.Base.Search.{position}
use simple_http.Httparse.{
  HeaderIter, ParseError, Item, status, header, parse_line, parse_header, parse_status, next,
  next_at, rtrim, to_header, to_status,
}
use simple_http.Httparse.Trim.{trim_back, rtrim-trim_back}
use simple_http.Httparse.Status.{parse_status_bounds}

Returns-trim_back {ℓ} :
    {E : Type ℓ} (build : Build) (r : Bytes) → Returns (trim_back {E = E} build r)
Returns-trim_back debug [] = Returns-panic
Returns-trim_back release [] = Returns-ok []
Returns-trim_back build (c ∷ []) = search returns_rules
Returns-trim_back build (c ∷ d ∷ r) =
    Returns-if (c == b' ') (Returns-trim_back build r) (Returns-ok _)

Returns-rtrim {ℓ} : {E : Type ℓ} (build : Build) (val : Bytes) → Returns (rtrim {E = E} build val)
Returns-rtrim build val = rw rtrim-trim_back (Returns-trim_back build (reverse val))

Returns-parse_header : (build : Build) (line : Bytes) → Returns (parse_header build line)
unfolding parse_header
Returns-parse_header build line = search (returns_rules, Returns-rtrim) depth 9

Returns-slice_to {ℓ} : {E : Type ℓ} (xs : Bytes) (n : ℕ) → Returns (slice_to {E = E} xs n)
Returns-slice_to xs n = search returns_rules

Returns-slice_from {ℓ} : {E : Type ℓ} (xs : Bytes) (n : ℕ) → Returns (slice_from {E = E} xs n)
Returns-slice_from xs n = search returns_rules

Returns-parse_status : (line : Bytes) → Returns (parse_status line)
unfolding parse_status
Returns-parse_status line = search (returns_rules) depth 15

Returns-parse_line {ℓ} :
    {E : Type ℓ} (build : Build) (parsed : Bool) (line : Bytes)
    → Returns (parse_line {E = E} build parsed line)
unfolding parse_line
Returns-parse_line build false line = search (returns_rules, Returns-parse_status) depth 9
Returns-parse_line build true [] = search returns_rules
Returns-parse_line build true (c ∷ cs) = search (returns_rules, Returns-parse_header) depth 9

Returns-next_at {ℓ} :
    {E : Type ℓ} (build : Build) (it : HeaderIter) (o : Option ℕ)
    → Returns (next_at {E = E} build it o)
unfolding next_at
Returns-next_at build it none = search returns_rules
Returns-next_at build it (some idx) = search (returns_rules, Returns-parse_line) depth 9

pub Returns-next {ℓ} :
    {E : Type ℓ} (build : Build) (it : HeaderIter) → Returns (next {E = E} build it)
unfolding next
Returns-next build it = Returns-next_at build it (position crlf it.input)

next_at-shrinks {ℓ} :
    {E : Type ℓ} (build : Build) (it : HeaderIter) (o : Option ℕ) (item : Item) (it' : HeaderIter)
    → next_at {E = E} build it o ≡ ok (some item, it')
    → length it'.input < length it.input
unfolding next_at
next_at-shrinks build it none item it' h = ground arith
next_at-shrinks build it (some idx) item it' h = ground (arith, length-drop (idx + 2) it.input)

-- A call that yields an item leaves a shorter input.
pub next-shrinks {ℓ} :
    {E : Type ℓ} (build : Build) (it : HeaderIter) (item : Item) (it' : HeaderIter)
    → next {E = E} build it ≡ ok (some item, it')
    → length it'.input < length it.input
unfolding next
next-shrinks build it item it' h = next_at-shrinks build it (position crlf it.input) item it' h

-- The first item is an error or a status in range.
abbrev pub IsFirstItem : Option Item → Type 0
IsFirstItem none = ⊥
IsFirstItem (some (inl e)) = Unit
IsFirstItem (some (inr (status code version reason))) = (100 ≤ code) × (code < 600)
IsFirstItem (some (inr (header name value))) = ⊥

-- A later item is no status.
abbrev pub IsLaterItem : Option Item → Type 0
IsLaterItem (some (inr (status code version reason))) = ⊥
IsLaterItem _ = Unit

reify-first :
    {E : Type 0} (m : Outcome ParseError (ℕ × Bytes × Bytes)) (item : Option Item)
    → ((code : ℕ) (v r : Bytes) → m ≡ ok (code, v, r) → (100 ≤ code) × (code < 600))
    → (reify {F = E} (m >>= λ s. ok (to_status s)) >>= λ i. ok (some i)) ≡ ok item
    → IsFirstItem item
reify-first (ok (code, v, r)) (some (inr (status c' v' r'))) bound h =
    ground (arith, bound code v r refl)
reify-first (err e) (some (inl x)) bound h = tt
reify-first _ item bound h = ground arith

reify-later :
    {E : Type 0} (m : Outcome ParseError (Bytes × Bytes)) (item : Option Item)
    → (reify {F = E} (m >>= λ s. ok (to_header s)) >>= λ i. ok (some i)) ≡ ok item
    → IsLaterItem item
reify-later (ok x) (some (inr (status c' v' r'))) h = ground arith
reify-later _ item h = ground arith

parse_line-first :
    {E : Type 0} (build : Build) (line : Bytes) (item : Option Item)
    → parse_line {E = E} build false line ≡ ok item
    → IsFirstItem item
unfolding parse_line
parse_line-first {E} build line item h =
    reify-first {E = E} (parse_status line) item (λ c v r e. parse_status_bounds line e) h

parse_line-later :
    {E : Type 0} (build : Build) (line : Bytes) (item : Option Item)
    → parse_line {E = E} build true line ≡ ok item
    → IsLaterItem item
unfolding parse_line
parse_line-later {E} build [] item h = ground arith
parse_line-later {E} build (c ∷ cs) item h =
    reify-later {E = E} (parse_header build (c ∷ cs)) item h

next_at-item :
    {E : Type 0} (build : Build) (parsed : Bool) (input : Bytes) (i : ℕ) (item : Option Item)
    (it' : HeaderIter)
    → next_at {E = E} build (record { input = input; status_parsed = parsed }) (some i)
      ≡ ok (item, it')
    → (line : Bytes) × (parse_line {E = E} build parsed line ≡ ok item) × (it'.status_parsed ≡ true)
unfolding next_at
next_at-item {E} build parsed input i item it' h =
    let (line, l, h₁) = ok_parts (slice_to input i) _ h in
    let (rest, r, h₂) = ok_parts (slice_from input (i + 2)) _ h₁ in
    let (x, p, h₃) = ok_parts (parse_line {E = E} build parsed line) _ h₂ in
    (line, ground arith, ground arith)

-- On an input with a CRLF, the first call yields an error or a status from 100 to 599.
pub next-first :
    {E : Type 0} (build : Build) (input : Bytes) {i : ℕ} (item : Option Item) (it' : HeaderIter)
    → position crlf input ≡ some i
    → next {E = E} build (record { input = input; status_parsed = false }) ≡ ok (item, it')
    → IsFirstItem item × (it'.status_parsed ≡ true)
unfolding next
next-first {E} build input {i} item it' p h =
    let (line, e, parsed) = next_at-item {E = E} build false input i item it' (rw p at h) in
    (parse_line-first {E = E} build line item e, parsed)

-- A call after the status line yields no status.
pub next-later :
    {E : Type 0} (build : Build) (it : HeaderIter) (item : Item) (it' : HeaderIter)
    → it.status_parsed ≡ true
    → next {E = E} build it ≡ ok (some item, it')
    → IsLaterItem (some item) × (it'.status_parsed ≡ true)
unfolding next
next-later {E} build it item it' s h = elim (Option-cases (position crlf it.input)) [
  | inl n ↦ absurd (ground (arith, n))
  | inr (i, p) ↦
      let (line, e, parsed) =
        next_at-item {E = E} build it.status_parsed it.input i (some item) it' (rw p at h) in
      (parse_line-later {E = E} build line (some item) (rw s at e), parsed)
]
