-- ===== src/Util/Versions.antt =====
-- The version numbers of src/mw/util.c, and `int8_to_str`.
use mega_drive_megawifi_appl.Base.{
  ℕ, zero, suc, ◌+◌, ◌-◌, ◌*◌, ◌≤◌, ◌<◌, ◌≡◌, refl, ◌∙◌, sym, ap, append_assoc, length-append,
  take-append, Bool, true, false, not, List, [], ◌∷◌, ◌++◌, length, take, ltb, leb, ◌==◌,
  if◌then◌else◌, arith, ◌%◌, ◌^◌,
}
use mega_drive_megawifi_appl.Util.{char_dot, uint8_to_str}
use mega_drive_megawifi_appl.Util.Wide.{char_minus}

-- An `int`, as far as it is needed: `negsuc n` is the negative of `n + 1`.
pub data ℤ : Type 0 where
  pos negsuc : ℕ → ℤ

-- `a - b`.
abbrev pub int_sub : ℕ → ℕ → ℤ
int_sub a b = if leb b a then pos (a - b) else negsuc (b - a - 1)

abbrev pub is_zero : ℤ → Bool
is_zero (pos zero) = true
is_zero z = false

abbrev pub is_positive : ℤ → Bool
is_positive (pos (suc n)) = true
is_positive z = false

-- `int8_to_str`: a negative number is its eight bits.
unfoldable pub int8_to_str : ℕ → List ℕ
int8_to_str num =
    if leb (2 ^ 7) num then char_minus ∷ uint8_to_str ((2 ^ 8 - num) % 2 ^ 8) else uint8_to_str num

-- The rounds of `version_to_str`.
unfoldable pub version_rounds : List ℕ → List ℕ
version_rounds [] = []
version_rounds (v ∷ vs) = uint8_to_str v ++ (char_dot ∷ version_rounds vs)

-- The last dot is overwritten by the NUL.
unfoldable pub version_to_str : List ℕ → List ℕ
version_to_str version = let text : List ℕ = version_rounds version in take (length text - 1) text

pub record VersionNumbers : Type 0 where
  pub major : ℕ
  pub minor : ℕ
  pub micro : ℕ

unfoldable pub version_cmp : VersionNumbers → VersionNumbers → ℤ
version_cmp old new =
    let first : ℤ = int_sub new.major old.major in
    let second : ℤ = int_sub new.minor old.minor in
    if not (is_zero first)
    then first
    else if not (is_zero second)
    then second
    else int_sub new.micro old.micro

-- The three bytes of a version as one number.
abbrev pub packed : VersionNumbers → ℕ
packed v = v.major * 65536 + v.minor * 256 + v.micro

abbrev pub AreBytes : VersionNumbers → Type 0
AreBytes v = (v.major < 256) × (v.minor < 256) × (v.micro < 256)

-- The comparison is positive exactly if the new version is the later one, and 0 exactly if they are the
-- same, the earlier parts counting first.
pub version_cmp-packed :
    (old new : VersionNumbers)
    → AreBytes old
    → AreBytes new
    → (is_positive (version_cmp old new) ≡ ltb (packed old) (packed new))
      × (is_zero (version_cmp old new) ≡ (packed old == packed new))
unfolding version_cmp
version_cmp-packed old new ho hn = (ground arith, ground arith)

length-uint8_to_str : (n : ℕ) → length (uint8_to_str n) ≤ 3
unfolding uint8_to_str
length-uint8_to_str n = ground arith

take-last : (text : List ℕ) (c : ℕ) → take (length (text ++ (c ∷ [])) - 1) (text ++ (c ∷ [])) ≡ text
take-last text c =
    take-append text (c ∷ []) (length (text ++ (c ∷ [])) - 1)
      (omega (arith, length-append text (c ∷ [])))

-- Numbers with dots between them.
abbrev pub dotted : List ℕ → List ℕ → List ℕ → List ℕ
dotted a b c = a ++ (char_dot ∷ (b ++ (char_dot ∷ c)))

dotted-append : (a b c d : List ℕ) → dotted a b (c ++ d) ≡ dotted a b c ++ d
dotted-append a b c d = sym (
    append_assoc a (char_dot ∷ (b ++ (char_dot ∷ c))) d
    ∙ ap (λ l. a ++ (char_dot ∷ l)) (append_assoc b (char_dot ∷ c) d))

length-dotted : (a b c : List ℕ) → length (dotted a b c) ≡ length a + length b + length c + 2
length-dotted a b c =
    omega
      (arith, length-append a (char_dot ∷ (b ++ (char_dot ∷ c))), length-append b (char_dot ∷ c))

-- The three numbers of a version are printed with dots between them, in 11 characters at most.
pub version_to_str-dotted :
    (a b c : ℕ)
    → (version_to_str (a ∷ b ∷ c ∷ []) ≡ dotted (uint8_to_str a) (uint8_to_str b) (uint8_to_str c))
      × (length (version_to_str (a ∷ b ∷ c ∷ [])) ≤ 11)
unfolding version_to_str version_rounds
version_to_str-dotted a b c =
    let text : List ℕ = dotted (uint8_to_str a) (uint8_to_str b) (uint8_to_str c) in
    let all = dotted-append (uint8_to_str a) (uint8_to_str b) (uint8_to_str c) (char_dot ∷ []) in
    let shown : version_to_str (a ∷ b ∷ c ∷ []) ≡ text = rw (all, take-last text char_dot) refl in
    (
      shown,
      omega (
        arith,
        ap length shown,
        length-dotted (uint8_to_str a) (uint8_to_str b) (uint8_to_str c),
        length-uint8_to_str a,
        length-uint8_to_str b,
        length-uint8_to_str c,
      ),
    )
