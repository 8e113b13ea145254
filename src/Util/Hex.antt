-- ===== src/Util/Hex.antt =====
-- The hexadecimal printers of src/mw/util.c.
use mega_drive_megawifi_appl.Base.{
  ℕ, zero, suc, ◌+◌, ◌-◌, ◌*◌, ◌/◌, ◌%◌, ◌^◌, ◌≤◌, ◌<◌, ◌≢◌, ◌≡◌, refl, ◌∙◌, ap, Bool, true, false,
  not, ◌&&◌, ◌||◌, ==→eq, Option, none, some, List, [], ◌∷◌, length, get_or, ltb, ◌==◌,
  if◌then◌else◌, agree_below, holds_below, holds_below_sound, Bool-cases, ◌⊎◌, inl, inr, arith,
}

-- "0123456789ABCDEF".
abbrev pub hex_map : List ℕ
hex_map = 48 ∷ 49 ∷ 50 ∷ 51 ∷ 52 ∷ 53 ∷ 54 ∷ 55 ∷ 56 ∷ 57 ∷ 65 ∷ 66 ∷ 67 ∷ 68 ∷ 69 ∷ 70 ∷ []

unfoldable pub hex_char : ℕ → ℕ
hex_char d = get_or hex_map d 0

unfoldable pub uint8_to_hex_str : ℕ → List ℕ
uint8_to_hex_str num = hex_char (num / 2 ^ 4) ∷ hex_char (num % 2 ^ 4) ∷ []

-- Whether a zero is written.
abbrev pub fills : ℕ → ℕ → Bool → Bool
fills nibble pad started = started || (ltb nibble pad || (not started && nibble == 0))

-- What a round of the loop of `uint32_to_hex_str` writes: `started` is `i > 0`.
abbrev pub hex_nibble : ℕ → ℕ → ℕ → Bool → Option ℕ
hex_nibble nibble num pad started =
    let d : ℕ = num / 2 ^ (4 * nibble) % 2 ^ 4 in
    if not (d == 0) then some (hex_char d) else if fills nibble pad started then some 48 else none

abbrev wrote : Option ℕ → Bool
wrote none = false
wrote (some c) = true

abbrev written : Option ℕ → List ℕ → List ℕ
written none rest = rest
written (some c) rest = c ∷ rest

-- The rounds for the nibbles below the given one.
unfoldable pub hex_rounds : ℕ → ℕ → ℕ → Bool → List ℕ
hex_rounds zero num pad started = []
hex_rounds (suc nibble) num pad started =
    let c : Option ℕ = hex_nibble nibble num pad started in
    written c (hex_rounds nibble num pad (wrote c || started))

unfoldable pub uint32_to_hex_str : ℕ → ℕ → List ℕ
uint32_to_hex_str num pad = hex_rounds 8 num pad false

-- The value of a hexadecimal digit, and of a text behind the value `acc`.
abbrev pub digit_of : ℕ → ℕ
digit_of c = if ltb c 58 then c - 48 else c - 55

abbrev pub hex_read : ℕ → List ℕ → ℕ
hex_read acc [] = acc
hex_read acc (c ∷ cs) = hex_read (acc * 16 + digit_of c) cs

digit_of-hex_char : (d : ℕ) → d < 16 → digit_of (hex_char d) ≡ d
unfolding holds_below hex_char
digit_of-hex_char d h = agree_below 16 (λ d. digit_of (hex_char d)) (λ d. d) d refl h

abbrev nibble_of : ℕ → ℕ → ℕ
nibble_of nibble num = num / 2 ^ (4 * nibble) % 2 ^ 4

-- The nibbles below the given one, read behind `acc`.
abbrev nibbles_read : ℕ → ℕ → ℕ → ℕ
nibbles_read acc zero num = acc
nibbles_read acc (suc nibble) num = nibbles_read (acc * 16 + nibble_of nibble num) nibble num

nibble_of-below : (nibble num : ℕ) → nibble_of nibble num < 16
nibble_of-below nibble num = omega arith

-- What is written is read as the nibbles, also if zeros before them are not written.
hex_read-hex_rounds :
    (n num pad acc : ℕ) (started : Bool)
    → (started ≡ true) ⊎ (acc ≡ 0)
    → hex_read acc (hex_rounds n num pad started) ≡ nibbles_read acc n num
unfolding hex_rounds
hex_read-hex_rounds zero num pad acc started h = refl
hex_read-hex_rounds (suc n) num pad acc started h = elim (Bool-cases (nibble_of n num == 0)) [
  | inr nonzero ↦
      rw (nonzero, digit_of-hex_char (nibble_of n num) (nibble_of-below n num))
        (hex_read-hex_rounds n num pad (acc * 16 + nibble_of n num) true (inl refl))
  | inl is_zero ↦
      let e : nibble_of n num ≡ 0 = ==→eq (nibble_of n num) 0 is_zero in
      elim (Bool-cases (fills n pad started)) [
        | inl t ↦ rw (e, t) (hex_read-hex_rounds n num pad (acc * 16 + 0) true (inl refl))
        | inr f ↦
            let silent : started ≡ false = ground arith in
            let none_yet : acc ≡ 0 = ground arith in
            let same : acc ≡ acc * 16 + 0 = omega arith in
            rw (e, f)
              (hex_read-hex_rounds n num pad acc started (inr none_yet)
                ∙ ap (λ a. nibbles_read a n num) same)
      ]
]

nibbles_read-whole : (num : ℕ) → num < 2 ^ 32 → nibbles_read 0 8 num ≡ num
nibbles_read-whole num h = omega arith

length-hex_rounds : (n num pad : ℕ) → length (hex_rounds n num pad true) ≡ n
unfolding hex_rounds
length-hex_rounds zero num pad = refl
length-hex_rounds (suc n) num pad = elim (Bool-cases (nibble_of n num == 0)) [
  | inr nonzero ↦ rw nonzero (ap suc (length-hex_rounds n num pad))
  | inl is_zero ↦
      let e : nibble_of n num ≡ 0 = ==→eq (nibble_of n num) 0 is_zero in
      rw e (ap suc (length-hex_rounds n num pad))
]

not-true : (b : Bool) → not b ≡ true → b ≡ false
not-true true h = absurd (cc)
not-true false h = refl

hex_char-ne-zero : (d : ℕ) → d < 16 → (d == 0) ≡ false → (hex_char d == 48) ≡ false
unfolding holds_below hex_char
hex_char-ne-zero d h nz =
    let t : ((d == 0) || not (hex_char d == 48)) ≡ true =
      holds_below_sound 16 (λ d. (d == 0) || not (hex_char d == 48)) d refl h in
    not-true (hex_char d == 48) (rw nz at t)

-- The first byte is not a zero.
abbrev pub LeadsNonzero : List ℕ → Type 0
LeadsNonzero [] = 1 ≤ 0
LeadsNonzero (c ∷ cs) = c ≢ 48

-- No zero stands in front but to fill the text up to `pad` characters, or to make it one.
abbrev pub Padded : ℕ → List ℕ → Type 0
Padded pad text =
    (LeadsNonzero text × (pad ≤ length text)) ⊎ (length text ≡ (if pad == 0 then 1 else pad))

hex_rounds-Padded : (n num pad : ℕ) → 1 ≤ n → pad ≤ n → Padded pad (hex_rounds n num pad false)
unfolding hex_rounds
hex_rounds-Padded zero num pad some_left wide = absurd (omega arith)
hex_rounds-Padded (suc n) num pad some_left wide = elim (Bool-cases (nibble_of n num == 0)) [
  | inr nonzero ↦
      let first = hex_char-ne-zero (nibble_of n num) (nibble_of-below n num) nonzero in
      let width = length-hex_rounds n num pad in
      rw nonzero (inl (λ e. absurd (ground arith), omega (arith, width)))
  | inl is_zero ↦
      let e : nibble_of n num ≡ 0 = ==→eq (nibble_of n num) 0 is_zero in
      elim (Bool-cases (fills n pad false)) [
        | inl t ↦
            let width = length-hex_rounds n num pad in
            let exact : suc n ≡ (if pad == 0 then 1 else pad) = ground arith in
            rw (e, t) (inr (ap suc width ∙ exact))
        | inr f ↦
            let more : 1 ≤ n = ground arith in
            let less : pad ≤ n = ground arith in rw (e, f) (hex_rounds-Padded n num pad more less)
      ]
]

-- The text of a number is read as that number, at least `pad` and at most 8 characters long, and no
-- longer than it needs to be; `pad` is at most 8.
pub uint32_to_hex_str-hex_read :
    (num pad : ℕ)
    → num < 2 ^ 32
    → pad ≤ 8
    → (hex_read 0 (uint32_to_hex_str num pad) ≡ num) × Padded pad (uint32_to_hex_str num pad)
unfolding uint32_to_hex_str
uint32_to_hex_str-hex_read num pad h wide = (
  hex_read-hex_rounds 8 num pad 0 false (inr refl) ∙ nibbles_read-whole num h,
  hex_rounds-Padded 8 num pad (omega arith) wide,
)

-- The two digits of a byte are read as that byte.
pub uint8_to_hex_str-hex_read : (num : ℕ) → num < 256 → hex_read 0 (uint8_to_hex_str num) ≡ num
unfolding uint8_to_hex_str
uint8_to_hex_str-hex_read num h =
    rw (digit_of-hex_char (num / 16) (omega arith), digit_of-hex_char (num % 16) (omega arith))
      (omega arith)
