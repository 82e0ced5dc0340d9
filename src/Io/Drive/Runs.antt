-- ===== src/Io/Drive/Runs.antt =====
-- What it means that a driven future has given its value.
use simple_http.Base.{ℕ, zero, suc, Outcome, ok, ◌≡◌, refl, subst, ok_parts}
use simple_http.Io.{Poll, pending, ready}
use simple_http.Io.Drive.{drive, after_poll, Pends, here, later}

module _ {ℓ κ μ} {E : Type ℓ} {A : Type κ} {F : Type μ} where
  Pends-after :
      {poll : F → Outcome E (Poll A × F)} {fut mid last : F}
      → poll fut ≡ ok (pending, mid)
      → Pends poll mid last
      → Pends poll fut last
  Pends-after e (here s) = later (here refl) (rw s e)
  Pends-after e (later p e') = later (Pends-after e p) e'

  drive-after :
      (polls : ℕ) (poll : F → Outcome E (Poll A × F)) (fut : F) (a : A) (p : Poll A × F)
      → poll fut ≡ ok p
      → after_poll (drive polls poll) p ≡ ok a
      → ((mid : F)
          → drive polls poll mid ≡ ok a
          → (last next : F) × Pends poll mid last × (poll last ≡ ok (ready a, next)))
      → (last next : F) × Pends poll fut last × (poll last ≡ ok (ready a, next))
  drive-after polls poll fut a (pending, mid) e h ih =
      let (last, next, w, r) = ih mid h in (last, next, Pends-after e w, r)
  drive-after polls poll fut a (ready b, next) e h ih =
      let same : b ≡ a = cc in
      (fut, next, here refl, subst (λ x. poll fut ≡ ok (ready x, next)) same e)

  -- A future that was driven to a value has answered with it, after polls that were not ready.
  pub drive-Pends :
      (polls : ℕ) (poll : F → Outcome E (Poll A × F)) (fut : F) (a : A)
      → drive polls poll fut ≡ ok a
      → (last next : F) × Pends poll fut last × (poll last ≡ ok (ready a, next))
  unfolding drive
  drive-Pends zero poll fut a h = absurd cc
  drive-Pends (suc polls) poll fut a h =
      let (p, e, f) = ok_parts (poll fut) (after_poll (drive polls poll)) h in
      drive-after polls poll fut a p e f (λ mid. drive-Pends polls poll mid a)
