-- ===== src/Response.antt =====
-- src/response.rs: the response and its header map. The `HashMap` is an association list with
-- one entry for a key: its order is not observed.
pub mod Lookup
use simple_http.Base.{
  ℕ, Bool, Option, none, some, List, [], ◌∷◌, ◌++◌, if◌then◌else◌, Outcome, ok, ◌>>=◌, unwrap,
}
use mathlib.Core.Option
use simple_http.Base.Bytes.{Bytes, bytes_eq}
use simple_http.Uri.{HttpTypes}

abbrev pub Entries : Type 0
Entries = List (Bytes × List Bytes)

pub record HeaderMap : Type 0 where
  pub map : Entries

-- `HashMap::get`
unfoldable pub lookup : Bytes → Entries → Option (List Bytes)
lookup k [] = none
lookup k ((j, vs) ∷ m) = let later = lookup k m in if bytes_eq j k then some vs else later

-- `map.get_mut(&k)` and `vec.push(v)`, or else `map.insert(k, vec![v])`
unfoldable pub push : Bytes → Bytes → Entries → Entries
push k v [] = (k, v ∷ []) ∷ []
push k v ((j, vs) ∷ m) =
    let later = (j, vs) ∷ push k v m in if bytes_eq j k then (j, vs ++ v ∷ []) ∷ m else later

-- the loop of `HeaderMap::new`
pub push_all : Entries → List (Bytes × Bytes) → Entries
push_all m [] = m
push_all m ((k, v) ∷ vec) = push_all (push k v m) vec

-- `HeaderMap::new`
unfoldable pub new_map : List (Bytes × Bytes) → HeaderMap
unfolding push_all
new_map vec = record { map = push_all [] vec }

abbrev first : List Bytes → Option Bytes
first [] = none
first (v ∷ vs) = some v

-- `HeaderMap::get`
unfoldable pub get : HeaderMap → Bytes → Option Bytes
get self name = Option.bind (lookup name self.map) first

module _ (h : HttpTypes) (B : Type 0) where
  pub record Response : Type 0 where
    pub status_code : h.StatusCode
    pub headers : HeaderMap
    pub body : B

  -- `Response::new`
  unfoldable pub new {ℓ} : {E : Type ℓ} → ℕ → List (Bytes × Bytes) → B → Outcome E Response
  new status_code headers body = do
    status ← unwrap (h.status_from_u16 status_code)
    ok (record { status_code = status; headers = new_map headers; body = body })

  -- `Response::headers`, `Response::status`, `Response::into_body`
  unfoldable pub get_headers : Response → HeaderMap
  get_headers self = self.headers

  unfoldable pub get_status : Response → h.StatusCode
  get_status self = self.status_code

  unfoldable pub into_body : Response → B
  into_body self = self.body
