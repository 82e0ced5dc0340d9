-- ===== src/Base/Fallible.antt =====
-- What a Rust call can do: return `Ok` or `Err`, or panic. A function that cannot fail but can
-- panic is generic in its error type. `out_of_fuel` is the model's own: no call of the source
-- returns it, and each loop on fuel has a theorem that it does not occur.
use Prim.Native.Nat.{ℕ, ◌+◌, ◌-◌, ◌^◌, ◌%◌}
use native.Mathlib.Omega.{arith}
use mathlib.Core.Path.{◌≡◌, refl}
use mathlib.Core.Logic.{◌⊎◌, ◌≢◌, inl, inr}
use mathlib.Core.Bool.{Bool, true, false}
use mathlib.Core.Option.{Option, none, some}
use simple_http.Base.Tests.{leb, ltb, if◌then◌else◌}

pub data Outcome {ℓ κ} (E : Type ℓ) (A : Type κ) : Type (ℓ ⊔ κ) where
  ok : A → Outcome E A
  err : E → Outcome E A
  panic : Outcome E A
  out_of_fuel : Outcome E A

-- The rest of the function, unless it has returned or panicked: `?` and plain sequencing.
infixl 5 ◌>>=◌
abbrev pub ◌>>=◌ {ℓ κ μ} :
    {E : Type ℓ} {A : Type κ} {B : Type μ} → Outcome E A → (A → Outcome E B) → Outcome E B
ok value >>= rest = rest value
err e >>= rest = err e
panic >>= rest = panic
out_of_fuel >>= rest = out_of_fuel

module _ {ℓ κ μ} {E : Type ℓ} {F : Type μ} {A : Type κ} where
  -- `map_err`
  abbrev pub map_err : (E → F) → Outcome E A → Outcome F A
  map_err f (ok a) = ok a
  map_err f (err e) = err (f e)
  map_err f panic = panic
  map_err f out_of_fuel = out_of_fuel

  -- A `Result` as a value: what an iterator over results yields.
  abbrev pub reify : Outcome E A → Outcome F (E ⊎ A)
  reify (ok a) = ok (inr a)
  reify (err e) = ok (inl e)
  reify panic = panic
  reify out_of_fuel = out_of_fuel

module _ {ℓ κ μ} {E : Type ℓ} {F : Type μ} {A : Type κ} where
  pub map_err-ok : (f : E → F) (m : Outcome E A) {a : A} → map_err f m ≡ ok a → m ≡ ok a
  map_err-ok f (ok b) {a} h = let e : b ≡ a = cc in rw e refl
  map_err-ok f (err e) h = absurd cc
  map_err-ok f panic h = absurd cc
  map_err-ok f out_of_fuel h = absurd cc

module _ {ℓ κ} {E : Type ℓ} {A : Type κ} where
  -- `ok_or`
  abbrev pub ok_or : E → Option A → Outcome E A
  ok_or e none = err e
  ok_or e (some a) = ok a

  -- `unwrap` and `expect`
  abbrev pub unwrap : Option A → Outcome E A
  unwrap none = panic
  unwrap (some a) = ok a

  pub unwrap-ok : (o : Option A) {a : A} → unwrap o ≡ ok a → o ≡ some a
  unwrap-ok none h = absurd cc
  unwrap-ok (some b) {a} h = let e : b ≡ a = cc in rw e refl

module _ {ℓ κ μ} {E : Type ℓ} {A : Type κ} {B : Type μ} where
  -- Two steps that succeed together succeed one by one.
  pub ok_parts :
      (step : Outcome E A) (next : A → Outcome E B) {last : B}
      → step >>= next ≡ ok last
      → (mid : A) × (step ≡ ok mid) × (next mid ≡ ok last)
  ok_parts (ok mid) next e = (mid, refl, e)
  ok_parts (err x) next e = cc
  ok_parts panic next e = cc
  ok_parts out_of_fuel next e = cc

pub ok_pair {ℓ κ μ} :
    {E : Type ℓ} {A : Type κ} {B : Type μ} {a a' : A} {b b' : B}
    → ◌≡◌ {A = Outcome E (A × B)} (ok (a, b)) (ok (a', b'))
    → (a ≡ a') × (b ≡ b')
ok_pair h = (cc, cc)

-- How the crate is compiled. Integer overflow panics in a debug build and wraps in a release build.
pub data Build : Type 0 where
  debug release : Build

-- `usize` has 64 bits.
abbrev pub usize_mod : ℕ
usize_mod = 2 ^ 64

abbrev pub overflow {ℓ} : {E : Type ℓ} → Build → ℕ → Outcome E ℕ
overflow debug n = panic
overflow release n = ok n

module _ {ℓ} {E : Type ℓ} where
  -- `a - b` on `usize`
  abbrev pub usize_sub : Build → ℕ → ℕ → Outcome E ℕ
  usize_sub build a b = if leb b a then ok (a - b) else overflow build (a + usize_mod - b)

  -- `a + b` on `usize`
  abbrev pub usize_add : Build → ℕ → ℕ → Outcome E ℕ
  usize_add build a b =
      if ltb (a + b) usize_mod then ok (a + b) else overflow build ((a + b) % usize_mod)

module _ {ℓ} {E : Type ℓ} where
  pub usize_sub-eq : (build : Build) (a b c : ℕ) → a ≡ c + b → usize_sub {E = E} build a b ≡ ok c
  usize_sub-eq build a b c h = ground arith

-- The model's fuel has sufficed.
pub record Returns {ℓ κ} {E : Type ℓ} {A : Type κ} (m : Outcome E A) : Type (ℓ ⊔ κ) where
  pub ne : m ≢ out_of_fuel

module _ {ℓ κ} {E : Type ℓ} {A : Type κ} where
  pub Returns-ok : (a : A) → Returns {E = E} (ok a)
  Returns-ok a = record { ne = λ h. cc }

  pub Returns-err : (e : E) → Returns {A = A} (err e)
  Returns-err e = record { ne = λ h. cc }

  pub Returns-panic : Returns {E = E} {A = A} panic
  Returns-panic = record { ne = λ h. cc }

  pub Returns-unwrap : (o : Option A) → Returns {E = E} (unwrap o)
  Returns-unwrap none = Returns-panic
  Returns-unwrap (some a) = Returns-ok a

  pub Returns-ok_or : (e : E) (o : Option A) → Returns (ok_or e o)
  Returns-ok_or e none = Returns-err e
  Returns-ok_or e (some a) = Returns-ok a

  pub Returns-if :
      (b : Bool) {m n : Outcome E A} → Returns m → Returns n → Returns (if b then m else n)
  Returns-if true p q = p
  Returns-if false p q = q

pub Returns-bind {ℓ κ μ} :
    {E : Type ℓ} {A : Type κ} {B : Type μ} (m : Outcome E A) (f : A → Outcome E B)
    → Returns m
    → ((a : A) → Returns (f a))
    → Returns (m >>= f)
Returns-bind (ok a) f p q = q a
Returns-bind (err e) f p q = Returns-err e
Returns-bind panic f p q = Returns-panic
Returns-bind out_of_fuel f p q = absurd (p.ne refl)

-- The continuation may use what the first part has returned.
pub Returns-bind_eq {ℓ κ μ} :
    {E : Type ℓ} {A : Type κ} {B : Type μ} (m : Outcome E A) (f : A → Outcome E B)
    → Returns m
    → ((a : A) → m ≡ ok a → Returns (f a))
    → Returns (m >>= f)
Returns-bind_eq (ok a) f p q = q a refl
Returns-bind_eq (err e) f p q = Returns-err e
Returns-bind_eq panic f p q = Returns-panic
Returns-bind_eq out_of_fuel f p q = absurd (p.ne refl)

pub Returns-reify {ℓ κ μ} :
    {E : Type ℓ} {F : Type μ} {A : Type κ} (m : Outcome E A) → Returns m → Returns (reify {F = F} m)
Returns-reify (ok a) p = Returns-ok _
Returns-reify (err e) p = Returns-ok _
Returns-reify panic p = Returns-panic
Returns-reify out_of_fuel p = absurd (p.ne refl)

pub ruleset returns_rules = (
  Returns-ok, Returns-err, Returns-panic, Returns-unwrap, Returns-ok_or, Returns-if, Returns-bind,
  Returns-reify,
)
