-- ===== src/Base/Exec.antt =====
-- Methods that change a store and may fail. What was written before an error stays written, so the
-- store comes back beside the error too.
use mathlib.Core.Path.{◌≡◌, refl}
use wll.Base.Result.{Result, ok, err}

abbrev pub Exec : Type 0 → Type 0 → Type 0 → Type 0
Exec S E A = S → Result E A × S

module _ {S E : Type 0} where
  abbrev pub pure : {A : Type 0} → A → Exec S E A
  pure a s = (ok a, s)

  abbrev pub raise : {A : Type 0} → E → Exec S E A
  raise e s = (err e, s)

  -- A fallible computation that leaves the store alone.
  abbrev pub lift : {A : Type 0} → Result E A → Exec S E A
  lift r s = (r, s)

  abbrev pub gets : {A : Type 0} → (S → A) → Exec S E A
  gets f s = (ok (f s), s)

  abbrev pub modify : (S → S) → Exec S E (Unit {0})
  modify f s = (ok tt, f s)

  abbrev pub continue : {A B : Type 0} → Result E A → (A → Exec S E B) → Exec S E B
  continue (ok a) f s = f a s
  continue (err e) f s = (err e, s)

  infixl 5 ◌>>=◌ ◌>>◌
  abbrev pub ◌>>=◌ : {A B : Type 0} → Exec S E A → (A → Exec S E B) → Exec S E B
  ◌>>=◌ m f s = continue (m s).0 f (m s).1

  abbrev pub ◌>>◌ : {B : Type 0} → Exec S E (Unit {0}) → Exec S E B → Exec S E B
  m >> n = m >>= λ _. n

  continue-lift-state :
      {A B : Type 0} (r : Result E A) (f : A → Result E B) (s : S)
      → (continue r (λ a. lift (f a)) s).1 ≡ s
  continue-lift-state (ok a) f s = refl
  continue-lift-state (err e) f s = refl

  -- A pure step at the end leaves the store as it is.
  pub bind-lift-state :
      {A B : Type 0} (m : Exec S E A) (f : A → Result E B) (s : S)
      → ((m >>= λ a. lift (f a)) s).1 ≡ (m s).1
  bind-lift-state m f s = continue-lift-state (m s).0 f (m s).1
