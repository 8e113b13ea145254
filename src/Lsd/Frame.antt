-- ===== src/Lsd/Frame.antt =====
-- The frames of src/mw/lsd.c: STX, the channel and the high bits of the length, the low bits, the
-- data, ETX.
use mega_drive_megawifi_appl.Base.{
  ℕ, ◌+◌, ◌*◌, ◌/◌, ◌%◌, ◌<◌, bit_and, bit_or, ◌≡◌, refl, List, [], ◌∷◌, ◌++◌, length, arith,
  holds_below, agree_below,
}
use mega_drive_megawifi_appl.Lsd.{lsd_stx_etx}

abbrev pub header : ℕ → ℕ → ℕ
header ch len = ch * 16 + len / 256

abbrev pub frame : ℕ → List ℕ → List ℕ
frame ch bytes =
    lsd_stx_etx ∷ header ch (length bytes) ∷ length bytes % 256 ∷ (bytes ++ (lsd_stx_etx ∷ []))

packed : (x : ℕ) → x < 64 → bit_or (x / 16 * 16) (x % 16) % 256 ≡ x
unfolding holds_below
packed x = agree_below 64 (λ x. bit_or (x / 16 * 16) (x % 16) % 256) (λ x. x) x refl

pub joined : (x : ℕ) → x < 4096 → bit_or (x / 256 * 256) (x % 256) ≡ x
unfolding holds_below
joined x = agree_below 4096 (λ x. bit_or (x / 256 * 256) (x % 256)) (λ x. x) x refl

pub low_byte : (len : ℕ) → len < 4096 → bit_and len 0xFF ≡ len % 256
unfolding holds_below
low_byte len = agree_below 4096 (λ x. bit_and x 0xFF) (λ x. x % 256) len refl

pub sent_header :
    (ch len : ℕ) → ch < 4 → len < 4096 → bit_or (ch * 16) (len / 256) % 256 ≡ header ch len
sent_header ch len hc hl =
    let a : (ch * 16 + len / 256) / 16 * 16 ≡ ch * 16 = omega arith in
    let b : (ch * 16 + len / 256) % 16 ≡ len / 256 = omega arith in
    rw b at (rw a at (packed (header ch len) (omega arith)))
