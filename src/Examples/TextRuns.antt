-- ===== src/Examples/TextRuns.antt =====
-- src/mw/util.c on concrete texts.
use mega_drive_megawifi_appl.Base.{
  ℕ, ◌≡◌, refl, ◌↔◌, true, List, [], ◌∷◌, ltb, ◌==◌, arith, done, ◌++◌,
}
use mega_drive_megawifi_appl.Util.{uint8_to_str, uint32_to_ip_str, ip_str_to_uint32}
use mega_drive_megawifi_appl.Util.Wide.{IsDecimal, int16_to_str, char_minus, int16_to_str_negative}
use mega_drive_megawifi_appl.Util.Hex.{
  uint32_to_hex_str, hex_rounds, hex_char, hex_read, Padded, uint32_to_hex_str-hex_read,
}
use mega_drive_megawifi_appl.Util.Versions.{
  VersionNumbers, version_cmp, is_positive, is_zero, packed, version_cmp-packed, int8_to_str,
}
use mega_drive_megawifi_appl.Util.Digits.{numeral}
use mega_drive_megawifi_appl.Util.Print.{
  decimal, is_exact, uint8_to_str-decimal, ip_str_to_uint32-uint32_to_ip_str,
}

uint8_to_str-decimal_example : (uint8_to_str 200 ≡ numeral (decimal 200)) ↔ (is_exact 200 ≡ true)
uint8_to_str-decimal_example = uint8_to_str-decimal 200 (omega arith)

-- -1
int16_to_str_negative_example :
    (text : List ℕ) × (int16_to_str 65535 ≡ char_minus ∷ text) × IsDecimal 65535 text
int16_to_str_negative_example = int16_to_str_negative 65535 (omega arith) (omega arith)

abbrev words : List (List ℕ)
words = (104 ∷ 105 ∷ []) ∷ (111 ∷ []) ∷ []

uint32_to_hex_str-hex_read_example :
    (hex_read 0 (uint32_to_hex_str 0xBEEF 6) ≡ 0xBEEF) × Padded 6 (uint32_to_hex_str 0xBEEF 6)
uint32_to_hex_str-hex_read_example = uint32_to_hex_str-hex_read 0xBEEF 6 (omega arith) (omega arith)

hex_run : uint32_to_hex_str 0xBEEF 6 ≡ 48 ∷ 48 ∷ 66 ∷ 69 ∷ 69 ∷ 70 ∷ []
unfolding uint32_to_hex_str hex_rounds hex_char
hex_run = refl

abbrev older : VersionNumbers
older = record { major = 1; minor = 4; micro = 200 }

abbrev newer : VersionNumbers
newer = record { major = 1; minor = 5; micro = 0 }

version_cmp-packed_example :
    (is_positive (version_cmp older newer) ≡ ltb (packed older) (packed newer))
    × (is_zero (version_cmp older newer) ≡ (packed older == packed newer))
version_cmp-packed_example = version_cmp-packed older newer (omega arith) (omega arith)

int8_run : int8_to_str 0x80 ≡ 45 ∷ 49 ∷ 50 ∷ 56 ∷ []
unfolding int8_to_str uint8_to_str
int8_run = refl

-- 192.168.1.203
ip_str_to_uint32-uint32_to_ip_str_example :
    ip_str_to_uint32 (uint32_to_ip_str 192 168 1 203 ++ (0 ∷ [])) ≡ done (192 ∷ 168 ∷ 1 ∷ 23 ∷ [])
ip_str_to_uint32-uint32_to_ip_str_example =
    ip_str_to_uint32-uint32_to_ip_str 192 168 1 203 []
      (omega arith, omega arith, omega arith, omega arith)
