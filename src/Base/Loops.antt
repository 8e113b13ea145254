-- ===== src/Base/Loops.antt =====
-- Loops on fuel: one round either stops with a result or goes on from a new state.
use Prim.Native.Nat.{ℕ, zero, suc, ◌<◌}
use mathlib.Core.Path.{◌≡◌, refl, subst}
use native.Mathlib.Omega.{arith}
use mega_drive_megawifi_appl.Base.Outcomes.{
  Outcome, done, fault, dead, spent, Ends, returns, faults,
}

pub data Next {ℓ} (S R : Type ℓ) : Type ℓ where
  stop : R → Next S R
  again : S → Next S R

module _ {ℓ} {S R : Type ℓ} where
  abbrev pub after_round : (S → Outcome R) → Outcome (Next S R) → Outcome R
  after_round rest (done (stop r)) = done r
  after_round rest (done (again s)) = rest s
  after_round rest fault = fault
  after_round rest dead = dead
  after_round rest spent = spent

  after_round-Ends :
      (rest : S → Outcome R) (o : Outcome (Next S R))
      → Ends o
      → ((s : S) → o ≡ done (again s) → Ends (rest s))
      → Ends (after_round rest o)
  after_round-Ends rest (done (stop r)) live h = returns r
  after_round-Ends rest (done (again s)) live h = h s refl
  after_round-Ends rest fault live h = faults
  after_round-Ends rest dead live h = elim live [ ]
  after_round-Ends rest spent live h = elim live [ ]

  after_round-eq-done {κ} :
      (rest : S → Outcome R) (o : Outcome (Next S R)) (Q : R → Type κ) {r : R}
      → after_round rest o ≡ done r
      → ((r' : R) → o ≡ done (stop r') → Q r')
      → ((s : S) → o ≡ done (again s) → rest s ≡ done r → Q r)
      → Q r
  after_round-eq-done rest (done (stop r')) Q {r = r} e h k =
      let same : r' ≡ r = cc in subst Q same (h r' refl)
  after_round-eq-done rest (done (again s)) Q e h k = k s refl e
  after_round-eq-done rest fault Q e h k = absurd (cc)
  after_round-eq-done rest dead Q e h k = absurd (cc)
  after_round-eq-done rest spent Q e h k = absurd (cc)

module _ {ℓ} {S R : Type ℓ} (step : S → Outcome (Next S R)) where
  unfoldable pub iterate : ℕ → S → Outcome R
  iterate zero s = spent
  iterate (suc fuel) s = after_round (iterate fuel) (step s)

  pub iterate-again :
      (fuel : ℕ) (s : S) {s' : S}
      → step s ≡ done (again s')
      → iterate (suc fuel) s ≡ iterate fuel s'
  unfolding iterate
  iterate-again fuel s e = rw (e, iterate)

  pub iterate-stop :
      (fuel : ℕ) (s : S) {r : R} → step s ≡ done (stop r) → iterate (suc fuel) s ≡ done r
  unfolding iterate
  iterate-stop fuel s e = rw (e, iterate)

  pub iterate-fault : (fuel : ℕ) (s : S) → step s ≡ fault → iterate (suc fuel) s ≡ fault
  unfolding iterate
  iterate-fault fuel s e = rw (e, iterate)

  -- Rounds that end, and bring the measure down, make a loop that ends.
  pub iterate-Ends :
      (measure : S → ℕ)
      → ((s : S) → Ends (step s))
      → ((s s' : S) → step s ≡ done (again s') → measure s' < measure s)
      → (fuel : ℕ) (s : S) → measure s < fuel
      → Ends (iterate fuel s)
  unfolding iterate
  iterate-Ends measure live falls zero s h = absurd (omega arith)
  iterate-Ends measure live falls (suc fuel) s h =
      after_round-Ends (iterate fuel) (step s) (live s)
        (λ s' e. iterate-Ends measure live falls fuel s' (omega (arith, falls s s' e)))

  -- What every round keeps, and what a stopping round gives, hold of the loop's result.
  pub iterate_inv {κ κ'} :
      (P : S → Type κ) (Q : R → Type κ')
      → ((s s' : S) → P s → step s ≡ done (again s') → P s')
      → ((s : S) (r : R) → P s → step s ≡ done (stop r) → Q r)
      → (fuel : ℕ) (s : S) {r : R} → P s
      → iterate fuel s ≡ done r
      → Q r
  unfolding iterate
  iterate_inv P Q keep end zero s h e = absurd (cc)
  iterate_inv P Q keep end (suc fuel) s {r = r} h e =
      after_round-eq-done (iterate fuel) (step s) Q e (λ r' p. end s r' h p)
        (λ s' p q. iterate_inv P Q keep end fuel s' (keep s s' h p) q)
