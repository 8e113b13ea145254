-- ===== src/Base/Bytes.antt =====
-- Bytes: masks as arithmetic, each checked over all 256 values, and reads out of a buffer.
use Prim.Native.Nat.{ℕ, zero, suc, ◌+◌, ◌*◌, ◌/◌, ◌%◌, ◌<◌, ◌≤◌, bit_and, max}
use mathlib.Core.Path.{◌≡◌, refl, ap}
use mathlib.Core.Bool.{Bool, true, ◌&&◌}
use mathlib.Core.List.{List, [], ◌∷◌, ◌++◌}
use mathlib.Core.Logic.{inl, inr}
use native.Mathlib.Nat.{add-zero}
use native.Mathlib.Numerals.{towards_suc}
use mathlib.Core.Option.{none, some}
use native.Mathlib.Omega.{arith}
use mega_drive_megawifi_appl.Base.Tests.{◌==◌, ==→eq, Option-cases}
use mega_drive_megawifi_appl.Base.Lists.{get_elem?, drop, length, length-drop, get_elem?-below}
use mega_drive_megawifi_appl.Base.Outcomes.{Outcome, done, fault, Ends, returns, faults}

abbrev pub IsByte : ℕ → Type 0
IsByte b = b < 256

-- `buffer[i]`.
abbrev pub read : List ℕ → ℕ → Outcome ℕ
read buffer i = elim (get_elem? buffer i) [ some b ↦ done b | none ↦ fault ]

unfoldable pub holds_below : ℕ → (ℕ → Bool) → Bool
holds_below zero p = true
holds_below (suc n) p = p n && holds_below n p

pub holds_below_sound : (n : ℕ) (p : ℕ → Bool) (x : ℕ) → holds_below n p ≡ true → x < n → p x ≡ true
unfolding holds_below
holds_below_sound zero p x h lt = absurd (omega arith)
holds_below_sound (suc n) p x h lt = ground (arith, holds_below_sound n p x)

pub agree_below :
    (n : ℕ) (f g : ℕ → ℕ) (x : ℕ) → holds_below n (λ b. f b == g b) ≡ true → x < n → f x ≡ g x
agree_below n f g x h lt = ==→eq _ _ (holds_below_sound n (λ b. f b == g b) x h lt)

pub top_bit : (b : ℕ) → IsByte b → bit_and b 0x80 ≡ b / 128 * 128
unfolding holds_below
top_bit b = agree_below 256 (λ b. bit_and b 0x80) (λ b. b / 128 * 128) b refl

pub low_nibble : (b : ℕ) → IsByte b → bit_and b 0x0f ≡ b % 16
unfolding holds_below
low_nibble b = agree_below 256 (λ b. bit_and b 0x0f) (λ b. b % 16) b refl

-- `suffix` is what the buffer holds from offset `at` on.
abbrev pub Holds : List ℕ → ℕ → List ℕ → Type 0
Holds buffer at suffix = drop at buffer ≡ suffix

pub read-Holds :
    (buffer : List ℕ) (at x : ℕ) (xs : List ℕ) → Holds buffer at (x ∷ xs) → read buffer at ≡ done x
read-Holds [] zero x xs h = absurd (cc)
read-Holds [] (suc at) x xs h = absurd (cc)
read-Holds (b ∷ bs) zero x xs h = cc
read-Holds (b ∷ bs) (suc at) x xs h = read-Holds bs at x xs h

pub Holds-tail :
    (buffer : List ℕ) (at x : ℕ) (xs : List ℕ) → Holds buffer at (x ∷ xs) → Holds buffer (at + 1) xs
Holds-tail [] zero x xs h = absurd (cc)
Holds-tail [] (suc at) x xs h = absurd (cc)
Holds-tail (b ∷ bs) zero x xs h = cc
Holds-tail (b ∷ bs) (suc at) x xs h =
    simp towards_suc (simp towards_suc at (Holds-tail bs at x xs h))

pub Holds-append : (front back : List ℕ) → Holds (front ++ back) (length front) back
Holds-append [] back = refl
Holds-append (x ∷ front) back = Holds-append front back

pub read-Ends : (buffer : List ℕ) (i : ℕ) → Ends (read buffer i)
read-Ends [] i = faults
read-Ends (b ∷ bs) zero = returns b
read-Ends (b ∷ bs) (suc i) = read-Ends bs i

pub read-below : (buffer : List ℕ) (i : ℕ) {x : ℕ} → read buffer i ≡ done x → i < length buffer
read-below buffer i e = elim (Option-cases (get_elem? buffer i)) [
  | inl n ↦ absurd (ground arith)
  | inr (a, s) ↦ get_elem?-below buffer i s
]

pub read-past : (buffer : List ℕ) (i : ℕ) → length buffer ≤ i → read buffer i ≡ fault
read-past [] i h = refl
read-past (b ∷ bs) zero h = absurd (omega arith)
read-past (b ∷ bs) (suc i) h = read-past bs i (omega arith)

pub Holds-drop :
    (buffer : List ℕ) (at : ℕ) (xs ys : List ℕ)
    → Holds buffer at (xs ++ ys)
    → Holds buffer (at + length xs) ys
Holds-drop buffer at [] ys h = rw add-zero h
Holds-drop buffer at (x ∷ xs) ys h =
    let same : at + 1 + length xs ≡ at + suc (length xs) = omega arith in
    rw same at (Holds-drop buffer (at + 1) xs ys (Holds-tail buffer at x (xs ++ ys) h))

pub Holds-length :
    (buffer : List ℕ) (at : ℕ) (xs : List ℕ)
    → Holds buffer at xs
    → length xs + at ≤ max (length buffer) at
Holds-length buffer at xs h = omega (arith, ap length h, length-drop at buffer)
