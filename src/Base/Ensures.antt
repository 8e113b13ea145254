-- ===== src/Base/Ensures.antt =====
-- Partial correctness: what holds of the result of a call, if it returns one.
use Prim.Native.Nat.{ℕ, zero, suc}
use mathlib.Core.Path.{◌≡◌, subst}
use mathlib.Core.Bool.{Bool, true, false}
use mega_drive_megawifi_appl.Base.Tests.{if◌then◌else◌}
use mega_drive_megawifi_appl.Base.Outcomes.{Outcome, done, fault, dead, spent, ◌>>=◌}
use mega_drive_megawifi_appl.Base.Loops.{Next, stop, again, iterate, after_round}

pub data Post {ℓ} {A : Type ℓ} (Q : A → Type 0) : Outcome A → Type ℓ where
  returns : (a : A) → Q a → Post Q (done a)
  faults : Post Q fault
  dies : Post Q dead
  spends : Post Q spent

module _ {ℓ} {A : Type ℓ} (Q : A → Type 0) where
  pub post_done : (o : Outcome A) {a : A} → Post Q o → o ≡ done a → Q a
  post_done (done b) {a = a} (Post.returns _ q) e = let same : b ≡ a = cc in subst Q same q
  post_done fault p e = absurd (cc)
  post_done dead p e = absurd (cc)
  post_done spent p e = absurd (cc)

  pub if-Post : (b : Bool) {x y : Outcome A} → Post Q x → Post Q y → Post Q (if b then x else y)
  if-Post true hx hy = hx
  if-Post false hx hy = hy

-- Where nothing is known of the result of a part.
abbrev pub Any {ℓ} : {A : Type ℓ} → A → Type 0
Any _ = Unit {0}

pub Any-Post {ℓ} : {A : Type ℓ} (o : Outcome A) → Post Any o
Any-Post (done a) = Post.returns a tt
Any-Post fault = Post.faults
Any-Post dead = Post.dies
Any-Post spent = Post.spends

module _ {ℓ κ} {A : Type ℓ} {B : Type κ} (P : A → Type 0) (Q : B → Type 0) where
  pub >>=-Post :
      (m : Outcome A) (f : A → Outcome B)
      → Post P m
      → ((a : A) → P a → Post Q (f a))
      → Post Q (m >>= f)
  >>=-Post (done a) f (Post.returns _ p) h = h a p
  >>=-Post fault f p h = Post.faults
  >>=-Post dead f p h = Post.dies
  >>=-Post spent f p h = Post.spends

module _ {ℓ} {S R : Type ℓ} (P : S → Type 0) (Q : R → Type 0) where
  -- What a round keeps, and what it ensures where it stops.
  abbrev pub AtNext : Next S R → Type 0
  AtNext (stop r) = Q r
  AtNext (again s) = P s

  after_round-Post :
      (rest : S → Outcome R) (o : Outcome (Next S R))
      → Post AtNext o
      → ((s : S) → P s → Post Q (rest s))
      → Post Q (after_round rest o)
  after_round-Post rest (done (stop r)) (Post.returns _ q) h = Post.returns r q
  after_round-Post rest (done (again s)) (Post.returns _ q) h = h s q
  after_round-Post rest fault p h = Post.faults
  after_round-Post rest dead p h = Post.dies
  after_round-Post rest spent p h = Post.spends

  pub iterate-Post :
      (step : S → Outcome (Next S R))
      → ((s : S) → P s → Post AtNext (step s))
      → (fuel : ℕ) (s : S) → P s
      → Post Q (iterate step fuel s)
  unfolding iterate
  iterate-Post step keep zero s h = Post.spends
  iterate-Post step keep (suc fuel) s h =
      after_round-Post (iterate step fuel) (step s) (keep s h)
        (λ s' h'. iterate-Post step keep fuel s' h')
