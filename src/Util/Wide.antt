-- ===== src/Util/Wide.antt =====
-- `uint16_to_str` and `int16_to_str` of src/mw/util.c. An `int16_t` is its 16 bits.
use mega_drive_megawifi_appl.Base.{
  ℕ, zero, suc, ◌/◌, ◌%◌, ◌^◌, ◌≤◌, ◌<◌, ◌≡◌, refl, ◌∙◌, List, [], ◌∷◌, ◌++◌, replicate, leb, ◌==◌,
  if◌then◌else◌, arith, le→leb, gt→leb,
}
use mega_drive_megawifi_appl.Util.Digits.{
  number, numeral, AreDigits, IsTrimmed, trim, number-trim, trim-AreDigits, trim-IsTrimmed,
}

abbrev pub char_minus : ℕ
char_minus = 45

-- `digit[0]` to `digit[i]`, before the digits that are already there.
unfoldable pub fill_digits : ℕ → ℕ → List ℕ → List ℕ
fill_digits zero num after = num ∷ after
fill_digits (suc i) num after =
    let more = fill_digits i (num / 10) (num % 10 ∷ after) in
    if num == 0 then replicate (suc (suc i)) 0 ++ after else more

unfoldable pub uint16_to_str : ℕ → List ℕ
uint16_to_str num = numeral (trim (fill_digits 4 num []))

unfoldable pub int16_to_str : ℕ → List ℕ
int16_to_str num = if leb (2 ^ 15) num then char_minus ∷ uint16_to_str num else uint16_to_str num

-- `text` is the decimal numeral of `n`: digits, without a leading 0 but for 0 itself.
abbrev pub IsDecimal : ℕ → List ℕ → Type 0
IsDecimal n text =
    (ds : List ℕ) × (text ≡ numeral ds) × AreDigits ds × IsTrimmed ds × (number ds ≡ n)

fill_digits-AreDigits : (n : ℕ) → n < 65536 → AreDigits (fill_digits 4 n [])
unfolding fill_digits
fill_digits-AreDigits n h = ground arith

number-fill_digits : (n : ℕ) → n < 65536 → number (fill_digits 4 n []) ≡ n
unfolding fill_digits
number-fill_digits n h = ground arith

-- `uint16_to_str` prints the decimal numeral of every 16-bit number.
pub uint16_to_str-IsDecimal : (n : ℕ) → n < 65536 → IsDecimal n (uint16_to_str n)
unfolding uint16_to_str
uint16_to_str-IsDecimal n h = (
  trim (fill_digits 4 n []),
  refl,
  trim-AreDigits (fill_digits 4 n []) (fill_digits-AreDigits n h),
  trim-IsTrimmed (fill_digits 4 n []),
  number-trim (fill_digits 4 n []) ∙ number-fill_digits n h,
)

-- `int16_to_str` prints the decimal numeral of every number that is not negative.
pub int16_to_str-IsDecimal : (n : ℕ) → n < 32768 → IsDecimal n (int16_to_str n)
unfolding int16_to_str
int16_to_str-IsDecimal n h = rw (gt→leb (2 ^ 15) n h) (uint16_to_str-IsDecimal n (omega arith))

-- For a negative number `int16_to_str` prints a minus sign and the numeral of its 16 bits read as
-- unsigned, which is 65536 less the magnitude: -1 is printed as -65535.
pub int16_to_str_negative :
    (n : ℕ)
    → 32768 ≤ n
    → n < 65536
    → (text : List ℕ) × (int16_to_str n ≡ char_minus ∷ text) × IsDecimal n text
unfolding int16_to_str
int16_to_str_negative n large h =
    (uint16_to_str n, rw (le→leb (2 ^ 15) n large) refl, uint16_to_str-IsDecimal n h)
