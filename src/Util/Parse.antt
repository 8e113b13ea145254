-- ===== src/Util/Parse.antt =====
-- What the parsers of src/mw/util.c make of a decimal numeral that a byte other than a digit follows.
use mega_drive_megawifi_appl.Base.{
  ℕ, zero, suc, ◌+◌, ◌-◌, ◌*◌, ◌%◌, ◌<◌, ◌≡◌, refl, false, ◌&&◌, ◌||◌, Option, none, some, List, [],
  ◌∷◌, ◌++◌, ltb, leb, ◌==◌, if◌then◌else◌, done, arith, le→leb, gt→leb, ne→==, Bool-cases, ltb→lt,
  ltb_false→le, inl, inr,
}
use mega_drive_megawifi_appl.Util.{
  char_0, is_digit, skip_all_zeros, count_digits, above_255, uint8_value, significant_value,
  str_to_uint8,
}
use mega_drive_megawifi_appl.Util.Digits.{
  number, numeral, AreDigits, strip, Leads, digit_char, number_from-grows, number-strip,
  strip-AreDigits, strip-Leads,
}

pub not_zero : (x : ℕ) → is_digit x ≡ false → (x == char_0) ≡ false
not_zero x h = ground arith

skip_all_zeros-numeral :
    (ds rest : List ℕ) (x : ℕ)
    → is_digit x ≡ false
    → skip_all_zeros (numeral ds ++ (x ∷ rest)) ≡ done (numeral (strip ds) ++ (x ∷ rest))
unfolding skip_all_zeros
skip_all_zeros-numeral [] rest x nx = rw (not_zero x nx) refl
skip_all_zeros-numeral (zero ∷ ds) rest x nx = skip_all_zeros-numeral ds rest x nx
skip_all_zeros-numeral (suc d ∷ ds) rest x nx =
    rw (ne→== (char_0 + suc d) char_0 (λ e. omega arith)) refl

pub number_above : (a b c d : ℕ) (ds : List ℕ) → 0 < a → 255 < number (a ∷ b ∷ c ∷ d ∷ ds)
number_above a b c d ds h =
    omega (arith, number_from-grows ds ((((0 * 10 + a) * 10 + b) * 10 + c) * 10 + d))

pub above_digits :
    (a b c : ℕ)
    → a < 10
    → b < 10
    → c < 10
    → (ltb 50 (char_0 + a)
        || ((char_0 + a) == 50
            && (ltb 53 (char_0 + b) || ((char_0 + b) == 53 && ltb 53 (char_0 + c)))))
      ≡ ltb 255 (((0 * 10 + a) * 10 + b) * 10 + c)
above_digits a b c ha hb hc = ground arith

-- The result on a numeral: its value and what follows, NULL above 255.
abbrev pub uint8_result : List ℕ → List ℕ → Option (ℕ × List ℕ)
uint8_result ds after = if leb (number ds) 255 then some (number ds, after) else none

significant_value-numeral :
    (s rest : List ℕ) (x : ℕ)
    → AreDigits s
    → Leads s
    → is_digit x ≡ false
    → significant_value (numeral s ++ (x ∷ rest)) ≡ done (uint8_result s (x ∷ rest))
unfolding significant_value count_digits uint8_value above_255
significant_value-numeral [] rest x h l nx = rw nx refl
significant_value-numeral (a ∷ []) rest x h l nx =
    let v : (0 + (char_0 + a - char_0) * 1) % 256 ≡ 0 * 10 + a = omega (arith, h.0) in
    rw (digit_char a (h.0), nx, v, le→leb (0 * 10 + a) 255 (omega (arith, h.0)))
significant_value-numeral (a ∷ b ∷ []) rest x h l nx =
    let v : ((0 + (char_0 + a - char_0) * 10) % 256 + (char_0 + b - char_0) * 1) % 256
        ≡ (0 * 10 + a) * 10 + b =
      omega (arith, h.0, h.1.0) in
    rw (
      digit_char a (h.0),
      digit_char b (h.1.0),
      nx,
      v,
      le→leb ((0 * 10 + a) * 10 + b) 255 (omega (arith, h.0, h.1.0)),
    )
significant_value-numeral (a ∷ b ∷ c ∷ []) rest x h l nx =
    rw
      (
        digit_char a (h.0),
        digit_char b (h.1.0),
        digit_char c (h.1.1.0),
        nx,
        above_digits a b c (h.0) (h.1.0) (h.1.1.0),
      )
      (elim (Bool-cases (ltb 255 (number (a ∷ b ∷ c ∷ [])))) [
        | inl t ↦ rw (t, gt→leb (number (a ∷ b ∷ c ∷ [])) 255 (ltb→lt _ _ t)) refl
        | inr f ↦
            let v : (((0 + (char_0 + a - char_0) * 100) % 256 + (char_0 + b - char_0) * 10) % 256
                    + (char_0 + c - char_0) * 1)
                  % 256
                ≡ number (a ∷ b ∷ c ∷ []) =
              omega (arith, ltb_false→le _ _ f, h.0, h.1.0, h.1.1.0) in
            rw (f, v, le→leb (number (a ∷ b ∷ c ∷ [])) 255 (ltb_false→le _ _ f)) refl
      ])
significant_value-numeral (a ∷ b ∷ c ∷ d ∷ ds) rest x h l nx =
    rw
      (
        digit_char a (h.0),
        digit_char b (h.1.0),
        digit_char c (h.1.1.0),
        digit_char d (h.1.1.1.0),
        gt→leb (number (a ∷ b ∷ c ∷ d ∷ ds)) 255 (number_above a b c d ds l),
      )
      refl

-- A decimal numeral before any byte that is not a digit is read as the number that it stands for, and
-- what follows it is given back; above 255 it is NULL. No digit at all reads as 0.
pub str_to_uint8-numeral :
    (ds rest : List ℕ) (x : ℕ)
    → AreDigits ds
    → is_digit x ≡ false
    → str_to_uint8 (numeral ds ++ (x ∷ rest))
      ≡ done (if leb (number ds) 255 then some (number ds, x ∷ rest) else none)
unfolding str_to_uint8
str_to_uint8-numeral ds rest x h nx = rw (skip_all_zeros-numeral ds rest x nx) (
    rw number-strip at
      (significant_value-numeral (strip ds) rest x (strip-AreDigits ds h) (strip-Leads ds) nx))
