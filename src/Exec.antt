-- ===== src/Exec.antt =====
-- Computations that consume injected effects: the effects' own state goes in and comes back, also
-- where an error is raised.
use ledgergate.Base.{◌≡◌, refl}
use ledgergate.Errors.{Result, ok, err}

abbrev pub Exec {ℓ κ} : Type ℓ → Type κ → Type (ℓ ⊔ κ)
Exec W A = W → Result A × W

module _ {ℓ κ} {W : Type ℓ} {A : Type κ} where
  abbrev pub pure : A → Exec W A
  pure a w = (ok a, w)

  -- A computation that consumes no effect.
  abbrev pub lift : Result A → Exec W A
  lift r w = (r, w)

module _ {ℓ κ κ'} {W : Type ℓ} {A : Type κ} {B : Type κ'} where
  abbrev pub continue : Result A → (A → Exec W B) → Exec W B
  continue (ok a) f w = f a w
  continue (err e) f w = (err e, w)

  infixl 5 ◌>>=◌
  abbrev pub ◌>>=◌ : Exec W A → (A → Exec W B) → Exec W B
  ◌>>=◌ m f w = let (r, w') = m w in continue r f w'

  -- The same by name, for a file whose `do` is that of `Result`.
  abbrev pub bind : Exec W A → (A → Exec W B) → Exec W B
  bind m f = m >>= f

module _ {ℓ κ} {W : Type ℓ} {B : Type κ} where
  infixl 5 ◌>>◌
  abbrev pub ◌>>◌ : Exec W (Unit {0}) → Exec W B → Exec W B
  m >> k = m >>= λ _. k

  -- Inversion of a bind that succeeded: what the first part returned, and the state after it.
  continue-eq-ok :
      {A : Type κ} (x : Result A × W) (f : A → Exec W B) (w' : W) {b : B}
      → continue x.0 f x.1 ≡ (ok b, w')
      → (a : A) × (u : W) × (x ≡ (ok a, u)) × (f a u ≡ (ok b, w'))
  continue-eq-ok (ok a, u) f w' h = (a, u, refl, h)
  continue-eq-ok (err e, u) f w' h = cc

  pub >>=-eq-ok :
      {A : Type κ} (m : Exec W A) (f : A → Exec W B) (w w' : W) {b : B}
      → (m >>= f) w ≡ (ok b, w')
      → (a : A) × (u : W) × (m w ≡ (ok a, u)) × (f a u ≡ (ok b, w'))
  >>=-eq-ok m f w w' h = continue-eq-ok (m w) f w' h

module _ {ℓ κ κ'} {W : Type ℓ} {A : Type κ} {B : Type κ'} where
  -- The same where the first part consumes no effect.
  pub lift-eq-ok :
      (r : Result A) (f : A → Exec W B) (w w' : W) {b : B}
      → (lift r >>= f) w ≡ (ok b, w')
      → (a : A) × (r ≡ ok a) × (f a w ≡ (ok b, w'))
  lift-eq-ok (ok a) f w w' h = (a, refl, h)
  lift-eq-ok (err e) f w w' h = cc

  -- A first part that returns is passed by.
  pub lift-reads :
      (r : Result A) (f : A → Exec W B) (w : W) {a : A} {y : Result B × W}
      → r ≡ ok a
      → f a w ≡ y
      → (lift r >>= f) w ≡ y
  lift-reads r f w h k = rw h k

module _ {ℓ κ} {W : Type ℓ} {A : Type κ} where
  pub pure-eq-ok : (a : A) (w w' : W) {b : A} → pure a w ≡ (ok b, w') → b ≡ a
  pure-eq-ok a w w' h = cc

  pub pure-state : (a : A) (w w' : W) {b : A} → pure a w ≡ (ok b, w') → w' ≡ w
  pure-state a w w' h = cc
