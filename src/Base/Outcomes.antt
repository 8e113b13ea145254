-- ===== src/Base/Outcomes.antt =====
-- How a C call ends. `fault` is an access outside the object, which C leaves undefined; `dead` is
-- SGDK's `SYS_die`, which does not return; `spent` means that the model's fuel ran out.
use mathlib.Core.Path.{◌≡◌, refl}
use mathlib.Core.Logic.{◌≢◌, ◌⊎◌, inl, inr}
use mathlib.Core.Bool.{Bool, true, false}
use mega_drive_megawifi_appl.Base.Tests.{if◌then◌else◌}

pub data Outcome {ℓ} (A : Type ℓ) : Type ℓ where
  done : A → Outcome A
  fault : Outcome A
  dead : Outcome A
  spent : Outcome A

infixl 5 ◌>>=◌
abbrev pub ◌>>=◌ {ℓ κ} : {A : Type ℓ} {B : Type κ} → Outcome A → (A → Outcome B) → Outcome B
done a >>= f = f a
fault >>= f = fault
dead >>= f = dead
spent >>= f = spent

module _ {ℓ κ} {A : Type ℓ} {B : Type κ} where
  pub >>=-eq-done :
      (m : Outcome A) (f : A → Outcome B) {b : B}
      → (m >>= f) ≡ done b
      → (a : A) × (m ≡ done a) × (f a ≡ done b)
  >>=-eq-done (done a) f h = (a, refl, h)
  >>=-eq-done fault f h = absurd (cc)
  >>=-eq-done dead f h = absurd (cc)
  >>=-eq-done spent f h = absurd (cc)

  -- What the continuation ensures of its result, the whole ensures.
  pub >>=-post {μ} :
      (Q : B → Type μ) (m : Outcome A) (f : A → Outcome B)
      → ((a : A) → m ≡ done a → (b : B) → f a ≡ done b → Q b)
      → (b : B) → (m >>= f) ≡ done b
      → Q b
  >>=-post Q (done a) f h b e = h a refl b e
  >>=-post Q fault f h b e = absurd (cc)
  >>=-post Q dead f h b e = absurd (cc)
  >>=-post Q spent f h b e = absurd (cc)

  pub >>=-ne-spent :
      (m : Outcome A) (f : A → Outcome B)
      → m ≢ spent
      → ((a : A) → m ≡ done a → f a ≢ spent)
      → (m >>= f) ≢ spent
  >>=-ne-spent (done a) f live h = h a refl
  >>=-ne-spent fault f live h = λ p. cc
  >>=-ne-spent dead f live h = λ p. cc
  >>=-ne-spent spent f live h = absurd (live refl)

module _ {ℓ} {A : Type ℓ} where
  pub done-ne-spent : (a : A) → done a ≢ spent
  done-ne-spent a = λ p. cc

  pub dead-ne-spent : ◌≢◌ {A = Outcome A} dead spent
  dead-ne-spent = λ p. cc

  pub if-ne-spent :
      (b : Bool) {x y : Outcome A} → x ≢ spent → y ≢ spent → (if b then x else y) ≢ spent
  if-ne-spent true hx hy = hx
  if-ne-spent false hx hy = hy

-- The call returns or faults: neither `SYS_die` nor the end of the fuel.
pub data Ends {ℓ} {A : Type ℓ} : Outcome A → Type ℓ where
  returns : (a : A) → Ends (done a)
  faults : Ends fault

module _ {ℓ} {A : Type ℓ} where
  pub Ends-ne-spent : (o : Outcome A) → Ends o → o ≢ spent
  Ends-ne-spent (done a) h = done-ne-spent a
  Ends-ne-spent fault h = λ p. cc
  Ends-ne-spent dead h = elim h [ ]
  Ends-ne-spent spent h = elim h [ ]

  pub Ends-cases : (o : Outcome A) → Ends o → ((a : A) × (o ≡ done a)) ⊎ (o ≡ fault)
  Ends-cases (done a) h = inl (a, refl)
  Ends-cases fault h = inr refl
  Ends-cases dead h = elim h [ ]
  Ends-cases spent h = elim h [ ]

  pub if-Ends : (b : Bool) {x y : Outcome A} → Ends x → Ends y → Ends (if b then x else y)
  if-Ends true hx hy = hx
  if-Ends false hx hy = hy

module _ {ℓ κ} {A : Type ℓ} {B : Type κ} where
  pub >>=-Ends :
      (m : Outcome A) (f : A → Outcome B)
      → Ends m
      → ((a : A) → m ≡ done a → Ends (f a))
      → Ends (m >>= f)
  >>=-Ends (done a) f live h = h a refl
  >>=-Ends fault f live h = faults
  >>=-Ends dead f live h = elim live [ ]
  >>=-Ends spent f live h = elim live [ ]
