-- ===== src/Io/Drive.antt =====
-- A future that is polled until it is ready: what `.await` and the combinators of futures do.
pub mod Runs
use simple_http.Base.{ℕ, zero, suc, Outcome, ok, err, out_of_fuel, ◌>>=◌, ◌≡◌, refl}
use simple_http.Io.{Poll, pending, ready}

module _ {ℓ κ μ} {E : Type ℓ} {A : Type κ} {F : Type μ} where
  -- What is done with one answer; `go` polls on.
  abbrev pub after_poll : (F → Outcome E A) → Poll A × F → Outcome E A
  after_poll go (pending, fut) = go fut
  after_poll go (ready a, fut) = ok a

  -- The future is polled `polls` times at most.
  unfoldable pub drive : ℕ → (F → Outcome E (Poll A × F)) → F → Outcome E A
  drive zero poll fut = out_of_fuel
  drive (suc polls) poll fut = poll fut >>= after_poll (drive polls poll)

  -- The future `last` is what polls that were not ready have made of `fut`.
  pub data Pends (poll : F → Outcome E (Poll A × F)) (fut : F) : F → Type (ℓ ⊔ κ ⊔ μ) where
    here : {last : F} → last ≡ fut → Pends poll fut last
    later :
        {mid last : F} → Pends poll fut mid → poll mid ≡ ok (pending, last) → Pends poll fut last
