-- ===== src/Response/Lookup.antt =====
-- The header map against the list of headers that it is made of.
use simple_http.Base.{
  Option, none, some, List, [], ◌∷◌, ◌++◌, ◌≡◌, inl, inr, refl, ap, ◌∙◌, arith, if◌then◌else◌,
  append_assoc, Bool-cases,
}
use mathlib.Core.Option
use simple_http.Base.Bytes.{Bytes, bytes_eq, bytes_eq_iff}
use simple_http.Response.{Entries, lookup, push, push_all, new_map, get, first}

-- The values of the headers of one name, in order.
abbrev pub values : Bytes → List (Bytes × Bytes) → List Bytes
values k [] = []
values k ((j, v) ∷ vec) = let later = values k vec in if bytes_eq j k then v ∷ later else later

-- The value of the first header of a name.
abbrev pub first_value : Bytes → List (Bytes × Bytes) → Option Bytes
first_value k [] = none
first_value k ((j, v) ∷ vec) =
    let later = first_value k vec in if bytes_eq j k then some v else later

-- A missing entry counts as no values.
abbrev entry : Option (List Bytes) → List Bytes
entry none = []
entry (some vs) = vs

lookup-push :
    (k j v : Bytes) (m : Entries)
    → lookup k (push j v m)
      ≡ (if bytes_eq j k then some (entry (lookup k m) ++ v ∷ []) else lookup k m)
unfolding lookup push
lookup-push k j v [] = ground arith
lookup-push k j v ((i, vs) ∷ m) =
    ground (arith, lookup-push k j v m, bytes_eq_iff i k, bytes_eq_iff i j, bytes_eq_iff j k)

-- An entry with more values behind its own; a missing one stays missing where there are none.
abbrev pub with_more : Option (List Bytes) → List Bytes → Option (List Bytes)
with_more o [] = o
with_more o (v ∷ vs) = some (entry o ++ v ∷ vs)

with_more-some :
    (o : Option (List Bytes)) (v : Bytes) (vs : List Bytes)
    → with_more (some (entry o ++ v ∷ [])) vs ≡ with_more o (v ∷ vs)
with_more-some o v [] = refl
with_more-some o v (w ∷ vs) = ap some (append_assoc (entry o) (v ∷ []) (w ∷ vs))

lookup-push_all :
    (k : Bytes) (vec : List (Bytes × Bytes)) (m : Entries)
    → lookup k (push_all m vec) ≡ with_more (lookup k m) (values k vec)
unfolding push_all
lookup-push_all k [] m = refl
lookup-push_all k ((j, v) ∷ vec) m = elim (Bool-cases (bytes_eq j k)) [
  | inl same ↦
      lookup-push_all k vec (push j v m)
      ∙ (rw (lookup-push, same) (with_more-some (lookup k m) v (values k vec)))
  | inr other ↦ lookup-push_all k vec (push j v m) ∙ (rw (lookup-push, other))
]

-- The map has an entry for a name exactly where a header has the name, and the entry holds every
-- value of the name, in the order of the headers.
pub lookup-new_map :
    (vec : List (Bytes × Bytes)) (name : Bytes)
    → lookup name (new_map vec).map ≡ with_more none (values name vec)
unfolding new_map
lookup-new_map vec name = lookup-push_all name vec [] ∙ (unfold lookup in refl)

first-values : (k : Bytes) (vec : List (Bytes × Bytes)) → first (values k vec) ≡ first_value k vec
first-values k [] = refl
first-values k ((j, v) ∷ vec) = ground (arith, first-values k vec)

first-with_more : (vs : List Bytes) → Option.bind (with_more none vs) first ≡ first vs
unfolding Option.bind
first-with_more [] = refl
first-with_more (v ∷ vs) = refl

-- `get` on the map of a list of headers gives the value of the first header of that name, and
-- `None` where no header has it.
pub get-new_map :
    (vec : List (Bytes × Bytes)) (name : Bytes) → get (new_map vec) name ≡ first_value name vec
unfolding get
get-new_map vec name =
    ap (λ o. Option.bind o first) (lookup-new_map vec name)
    ∙ (first-with_more (values name vec) ∙ first-values name vec)
