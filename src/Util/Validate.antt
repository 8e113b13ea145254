-- ===== src/Util/Validate.antt =====
-- Which strings src/mw/util.c takes for a byte or an address.
use mega_drive_megawifi_appl.Base.{
  ℕ, zero, suc, ◌+◌, ◌*◌, ◌≡◌, refl, Bool, false, ◌&&◌, none, some, List, [], ◌∷◌, ◌++◌, ltb, leb,
  if◌then◌else◌, done, ◌>>=◌, arith, le→leb, gt→leb, ne→==, Bool-cases, ltb→lt, ltb_false→le, inl,
  inr,
}
use mega_drive_megawifi_appl.Util.{
  char_0, char_dot, is_digit, skip_zeros, count_digits, above_255, uint8_end, str_is_uint8,
  dotted_rest, ip_validate,
}
use mega_drive_megawifi_appl.Util.Digits.{
  number, numeral, AreDigits, trim, IsTrimmed, digit_char, number-trim, trim-AreDigits,
  trim-IsTrimmed, is_empty, is_empty-trim,
}
use mega_drive_megawifi_appl.Util.Parse.{not_zero, above_digits, number_above}

skip_zeros-numeral :
    (ds rest : List ℕ) (x : ℕ)
    → AreDigits ds
    → is_digit x ≡ false
    → skip_zeros (numeral ds ++ (x ∷ rest)) ≡ done (numeral (trim ds) ++ (x ∷ rest))
unfolding skip_zeros
skip_zeros-numeral [] rest x h nx = rw (not_zero x nx) refl
skip_zeros-numeral (zero ∷ []) rest x h nx = rw nx refl
skip_zeros-numeral (suc d ∷ []) rest x h nx =
    rw (ne→== (char_0 + suc d) char_0 (λ e. omega arith)) refl
skip_zeros-numeral (zero ∷ e ∷ ds) rest x h nx =
    rw (digit_char e (h.1.0)) (skip_zeros-numeral (e ∷ ds) rest x (h.1) nx)
skip_zeros-numeral (suc d ∷ e ∷ ds) rest x h nx =
    rw (ne→== (char_0 + suc d) char_0 (λ e. omega arith)) refl

-- A numeral of at least one digit that is at most 255.
abbrev pub is_byte : List ℕ → Bool
is_byte ds = if is_empty ds then false else leb (number ds) 255

uint8_end-numeral :
    (s rest : List ℕ) (x : ℕ)
    → AreDigits s
    → IsTrimmed s
    → is_digit x ≡ false
    → (count_digits 4 (numeral s ++ (x ∷ rest)) >>= λ i. uint8_end i (numeral s ++ (x ∷ rest)))
      ≡ done (if is_byte s then some (x ∷ rest) else none)
unfolding count_digits uint8_end above_255
uint8_end-numeral [] rest x h l nx = rw nx refl
uint8_end-numeral (a ∷ []) rest x h l nx =
    rw (digit_char a (h.0), nx, le→leb (0 * 10 + a) 255 (omega (arith, h.0)))
uint8_end-numeral (a ∷ b ∷ []) rest x h l nx = rw (
  digit_char a (h.0),
  digit_char b (h.1.0),
  nx,
  le→leb ((0 * 10 + a) * 10 + b) 255 (omega (arith, h.0, h.1.0)),
)
uint8_end-numeral (a ∷ b ∷ c ∷ []) rest x h l nx =
    rw
      (
        digit_char a (h.0),
        digit_char b (h.1.0),
        digit_char c (h.1.1.0),
        nx,
        above_digits a b c (h.0) (h.1.0) (h.1.1.0),
      )
      (elim (Bool-cases (ltb 255 (number (a ∷ b ∷ c ∷ [])))) [
        | inl t ↦ rw (t, gt→leb (number (a ∷ b ∷ c ∷ [])) 255 (ltb→lt _ _ t)) refl
        | inr f ↦ rw (f, le→leb (number (a ∷ b ∷ c ∷ [])) 255 (ltb_false→le _ _ f)) refl
      ])
uint8_end-numeral (a ∷ b ∷ c ∷ d ∷ ds) rest x h l nx =
    rw
      (
        digit_char a (h.0),
        digit_char b (h.1.0),
        digit_char c (h.1.1.0),
        digit_char d (h.1.1.1.0),
        gt→leb (number (a ∷ b ∷ c ∷ d ∷ ds)) 255 (number_above a b c d ds l),
      )
      refl

-- A numeral before any byte that is not a digit is taken exactly if it has a digit and is at most 255,
-- whatever zeros it begins with; what follows it is given back.
pub str_is_uint8-numeral :
    (ds rest : List ℕ) (x : ℕ)
    → AreDigits ds
    → is_digit x ≡ false
    → str_is_uint8 (numeral ds ++ (x ∷ rest)) ≡ done (if is_byte ds then some (x ∷ rest) else none)
unfolding str_is_uint8
str_is_uint8-numeral ds rest x h nx = rw (skip_zeros-numeral ds rest x h nx) (
    rw (number-trim ds, is_empty-trim ds) at
      (uint8_end-numeral (trim ds) rest x (trim-AreDigits ds h) (trim-IsTrimmed ds) nx))

dotted_rest-numeral :
    (i : ℕ) (ds rest : List ℕ) (x : ℕ) (v : Bool)
    → AreDigits ds
    → is_digit x ≡ false
    → dotted_rest i (x ∷ rest) ≡ done v
    → dotted_rest (suc i) (char_dot ∷ (numeral ds ++ (x ∷ rest))) ≡ done (is_byte ds && v)
unfolding dotted_rest
dotted_rest-numeral i ds rest x v h nx e =
    rw (str_is_uint8-numeral ds rest x h nx)
      (elim (Bool-cases (is_byte ds)) [ inl t ↦ rw t e | inr f ↦ rw f refl ])

dotted_rest-last :
    (ds rest : List ℕ)
    → AreDigits ds
    → dotted_rest 1 (char_dot ∷ (numeral ds ++ (0 ∷ rest))) ≡ done (is_byte ds)
unfolding dotted_rest
dotted_rest-last ds rest h =
    rw (str_is_uint8-numeral ds rest 0 h refl)
      (elim (Bool-cases (is_byte ds)) [ inl t ↦ rw t refl | inr f ↦ rw f refl ])

abbrev pub dotted : List ℕ → List ℕ → List ℕ → List ℕ → List ℕ → List ℕ
dotted a b c d after =
    numeral a
    ++ (char_dot ∷ (numeral b ++ (char_dot ∷ (numeral c ++ (char_dot ∷ (numeral d ++ after))))))

pub ip_validate-dotted :
    (a b c d rest : List ℕ)
    → AreDigits a
    → AreDigits b
    → AreDigits c
    → AreDigits d
    → ip_validate (dotted a b c d (0 ∷ rest))
      ≡ done (is_byte a && (is_byte b && (is_byte c && is_byte d)))
unfolding ip_validate
ip_validate-dotted a b c d rest ha hb hc hd =
    rw (str_is_uint8-numeral a (numeral b ++ rest_c) char_dot ha refl)
      (elim (Bool-cases (is_byte a)) [
        | inl t ↦ rw t (
            dotted_rest-numeral 2 b (numeral c ++ rest_d) char_dot _ hb refl (
              dotted_rest-numeral 1 c (numeral d ++ (0 ∷ rest)) char_dot _ hc refl
                (dotted_rest-last d rest hd)))
        | inr f ↦ rw f refl
      ])
  where
    rest_d : List ℕ
    rest_d = char_dot ∷ (numeral d ++ (0 ∷ rest))

    rest_c : List ℕ
    rest_c = char_dot ∷ (numeral c ++ rest_d)
