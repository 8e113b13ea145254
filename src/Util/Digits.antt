-- ===== src/Util/Digits.antt =====
-- The independent reading of a decimal numeral.
use mega_drive_megawifi_appl.Base.{
  ℕ, zero, suc, ◌+◌, ◌*◌, ◌≤◌, ◌<◌, ◌≡◌, refl, Bool, true, false, List, [], ◌∷◌, All, arith,
}
use mega_drive_megawifi_appl.Util.{char_0, is_digit}

abbrev pub number_from : ℕ → List ℕ → ℕ
number_from acc [] = acc
number_from acc (d ∷ ds) = number_from (acc * 10 + d) ds

-- The number whose decimal digits are `ds`, the most significant first.
abbrev pub number : List ℕ → ℕ
number = number_from 0

abbrev pub numeral : List ℕ → List ℕ
numeral [] = []
numeral (d ∷ ds) = (char_0 + d) ∷ numeral ds

abbrev pub AreDigits : List ℕ → Type 0
AreDigits = All (λ d. d < 10)

abbrev pub strip : List ℕ → List ℕ
strip [] = []
strip (zero ∷ ds) = strip ds
strip (suc d ∷ ds) = suc d ∷ ds

pub digit_char : (d : ℕ) → d < 10 → is_digit (char_0 + d) ≡ true
digit_char d h = ground arith

pub number_from-grows : (ds : List ℕ) (acc : ℕ) → acc ≤ number_from acc ds
number_from-grows [] acc = omega arith
number_from-grows (d ∷ ds) acc = omega (arith, number_from-grows ds (acc * 10 + d))

pub number-strip : (ds : List ℕ) → number (strip ds) ≡ number ds
number-strip [] = refl
number-strip (zero ∷ ds) = number-strip ds
number-strip (suc d ∷ ds) = refl

pub strip-AreDigits : (ds : List ℕ) → AreDigits ds → AreDigits (strip ds)
strip-AreDigits [] h = h
strip-AreDigits (zero ∷ ds) h = strip-AreDigits ds (h.1)
strip-AreDigits (suc d ∷ ds) h = h

-- No digit left, or the first is not 0.
abbrev pub Leads : List ℕ → Type 0
Leads [] = Unit
Leads (d ∷ ds) = 0 < d

pub strip-Leads : (ds : List ℕ) → Leads (strip ds)
strip-Leads [] = tt
strip-Leads (zero ∷ ds) = strip-Leads ds
strip-Leads (suc d ∷ ds) = omega arith

-- The zeros before another digit taken away, as `uint16_to_str` skips them.
abbrev pub trim : List ℕ → List ℕ
trim [] = []
trim (d ∷ []) = d ∷ []
trim (zero ∷ e ∷ ds) = trim (e ∷ ds)
trim (suc d ∷ e ∷ ds) = suc d ∷ e ∷ ds

abbrev pub IsTrimmed : List ℕ → Type 0
IsTrimmed [] = Unit
IsTrimmed (d ∷ []) = Unit
IsTrimmed (d ∷ e ∷ ds) = 0 < d

pub trim-IsTrimmed : (ds : List ℕ) → IsTrimmed (trim ds)
trim-IsTrimmed [] = tt
trim-IsTrimmed (d ∷ []) = tt
trim-IsTrimmed (zero ∷ e ∷ ds) = trim-IsTrimmed (e ∷ ds)
trim-IsTrimmed (suc d ∷ e ∷ ds) = omega arith

pub number-trim : (ds : List ℕ) → number (trim ds) ≡ number ds
number-trim [] = refl
number-trim (d ∷ []) = refl
number-trim (zero ∷ e ∷ ds) = number-trim (e ∷ ds)
number-trim (suc d ∷ e ∷ ds) = refl

pub trim-AreDigits : (ds : List ℕ) → AreDigits ds → AreDigits (trim ds)
trim-AreDigits [] h = h
trim-AreDigits (d ∷ []) h = h
trim-AreDigits (zero ∷ e ∷ ds) h = trim-AreDigits (e ∷ ds) (h.1)
trim-AreDigits (suc d ∷ e ∷ ds) h = h

abbrev pub is_empty : List ℕ → Bool
is_empty [] = true
is_empty (d ∷ ds) = false

pub is_empty-trim : (ds : List ℕ) → is_empty (trim ds) ≡ is_empty ds
is_empty-trim [] = refl
is_empty-trim (d ∷ []) = refl
is_empty-trim (zero ∷ e ∷ ds) = is_empty-trim (e ∷ ds)
is_empty-trim (suc d ∷ e ∷ ds) = refl
