-- ===== src/Util/Print.antt =====
-- What src/mw/util.c prints, and what its parsers make of that.
use mega_drive_megawifi_appl.Base.{
  ℕ, suc, ◌+◌, ◌*◌, ◌/◌, ◌%◌, ◌<◌, ◌≡◌, refl, ◌∙◌, ap, Bool, true, false, ◌||◌, some, List, [], ◌∷◌,
  ◌++◌, length, ◌↔◌, append_assoc, ltb, leb, if◌then◌else◌, done, arith, Bool-cases, inl, inr,
}
use mega_drive_megawifi_appl.Util.{
  char_dot, is_digit, uint8_to_str, uint32_to_ip_str, str_to_uint8, ip_bytes, ip_str_to_uint32,
  ip_validate,
}
use mega_drive_megawifi_appl.Util.Digits.{number, numeral, AreDigits}
use mega_drive_megawifi_appl.Util.Parse.{str_to_uint8-numeral}
use mega_drive_megawifi_appl.Util.Validate.{is_byte, ip_validate-dotted}

-- The decimal digits of a number below 1000.
abbrev pub decimal : ℕ → List ℕ
decimal n =
    if ltb n 10
    then n ∷ []
    else if ltb n 100
    then n / 10 ∷ n % 10 ∷ []
    else n / 100 ∷ n / 10 % 10 ∷ n % 10 ∷ []

-- Whether the middle digit is no 0.
abbrev pub is_exact : ℕ → Bool
is_exact n = ltb n 100 || leb 10 (n % 100)

-- The digits that `uint8_to_str` prints.
abbrev printed : ℕ → List ℕ
printed n = if is_exact n then decimal n else (n / 100 ∷ n % 10 ∷ [])

-- The number that they stand for.
abbrev pub seen : ℕ → ℕ
seen n = if is_exact n then n else n / 100 * 10 + n % 10

printed-AreDigits : (n : ℕ) → n < 256 → AreDigits (printed n)
printed-AreDigits n h = ground arith

number-printed : (n : ℕ) → n < 256 → number (printed n) ≡ seen n
number-printed n h = ground arith

uint8_to_str-numeral : (n : ℕ) → n < 256 → uint8_to_str n ≡ numeral (printed n)
unfolding uint8_to_str
uint8_to_str-numeral n h = ground arith

printed-byte : (n : ℕ) → n < 256 → is_byte (printed n) ≡ true
printed-byte n h = ground arith

seen-byte : (n : ℕ) → n < 256 → leb (seen n) 255 ≡ true
seen-byte n h = ground arith

-- The text that `uint8_to_str` prints for a byte is read back by `str_to_uint8` as the same byte if its
-- tens digit is not 0 or it is below 100; else the middle 0 is lost, and 105 comes back as 15.
pub str_to_uint8-uint8_to_str :
    (n x : ℕ) (rest : List ℕ)
    → n < 256
    → is_digit x ≡ false
    → str_to_uint8 (uint8_to_str n ++ (x ∷ rest))
      ≡ done (some ((if is_exact n then n else n / 100 * 10 + n % 10), x ∷ rest))
str_to_uint8-uint8_to_str n x rest h nx = rw (uint8_to_str-numeral n h) (
    rw (number-printed n h, seen-byte n h) at
      (str_to_uint8-numeral (printed n) rest x (printed-AreDigits n h) nx))

length-short : (n : ℕ) → n < 256 → is_exact n ≡ false → length (uint8_to_str n) ≡ 2
unfolding uint8_to_str
length-short n h f = ground arith

length-decimal : (n : ℕ) → n < 256 → is_exact n ≡ false → length (numeral (decimal n)) ≡ 3
length-decimal n h f = ground arith

-- `uint8_to_str` prints a byte's decimal numeral exactly if the byte is below 100 or its tens digit is
-- not 0.
pub uint8_to_str-decimal :
    (n : ℕ) → n < 256 → (uint8_to_str n ≡ numeral (decimal n)) ↔ (is_exact n ≡ true)
uint8_to_str-decimal n h = (
  (λ e. elim (Bool-cases (is_exact n)) [
    | inl t ↦ t
    | inr f ↦ absurd (omega (arith, ap length e, length-short n h f, length-decimal n h f))
  ]),
  (λ t. uint8_to_str-numeral n h ∙ rw t refl),
)

ip_bytes-step :
    (k n x : ℕ) (rest : List ℕ) (bs : List ℕ)
    → n < 256
    → is_digit x ≡ false
    → ip_bytes k rest ≡ done (some bs)
    → ip_bytes (suc k) (uint8_to_str n ++ (x ∷ rest)) ≡ done (some (seen n ∷ bs))
unfolding ip_bytes
ip_bytes-step k n x rest bs h nx e = rw (str_to_uint8-uint8_to_str n x rest h nx, e) refl

address_text :
    (a b c d : ℕ) (after : List ℕ)
    → uint32_to_ip_str a b c d ++ after
      ≡ uint8_to_str a
        ++ (char_dot
            ∷ (uint8_to_str b
                ++ (char_dot ∷ (uint8_to_str c ++ (char_dot ∷ (uint8_to_str d ++ after))))))
unfolding uint32_to_ip_str
address_text a b c d after =
    rw
      (
        append_assoc (uint8_to_str a) _ after,
        append_assoc (uint8_to_str b) _ after,
        append_assoc (uint8_to_str c) _ after,
      )
      refl

-- The four bytes of an address, printed with dots up to the terminating NUL, are read back in order, each
-- as it is if it is below 100 or its tens digit is not 0, and else as hundreds digit and ones digit.
pub ip_str_to_uint32-uint32_to_ip_str :
    (a b c d : ℕ) (rest : List ℕ)
    → (a < 256) × (b < 256) × (c < 256) × (d < 256)
    → ip_str_to_uint32 (uint32_to_ip_str a b c d ++ (0 ∷ rest))
      ≡ done (seen a ∷ seen b ∷ seen c ∷ seen d ∷ [])
unfolding ip_str_to_uint32 ip_bytes
ip_str_to_uint32-uint32_to_ip_str a b c d rest h =
    rw
      (
        address_text a b c d (0 ∷ rest),
        ip_bytes-step 3 a char_dot _ _ (h.0) refl (
            ip_bytes-step 2 b char_dot _ _ (h.1) refl (
              ip_bytes-step 1 c char_dot _ _ (h.2) refl
                (ip_bytes-step 0 d 0 rest [] (h.3) refl refl))),
      )
      refl

-- Every printed address is taken for one.
pub ip_validate-uint32_to_ip_str :
    (a b c d : ℕ) (rest : List ℕ)
    → (a < 256) × (b < 256) × (c < 256) × (d < 256)
    → ip_validate (uint32_to_ip_str a b c d ++ (0 ∷ rest)) ≡ done true
ip_validate-uint32_to_ip_str a b c d rest h =
    rw
      (
        address_text a b c d (0 ∷ rest),
        uint8_to_str-numeral a (h.0),
        uint8_to_str-numeral b (h.1),
        uint8_to_str-numeral c (h.2),
        uint8_to_str-numeral d (h.3),
        ip_validate-dotted (printed a) (printed b) (printed c) (printed d) rest
            (printed-AreDigits a (h.0)) (printed-AreDigits b (h.1)) (printed-AreDigits c (h.2))
            (printed-AreDigits d (h.3)),
        printed-byte a (h.0),
        printed-byte b (h.1),
        printed-byte c (h.2),
        printed-byte d (h.3),
      )
      refl
