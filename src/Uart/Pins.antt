-- ===== src/Uart/Pins.antt =====
-- The output pins by which src/mw/megawifi.c holds the WiFi module in reset and lets it go.
use mega_drive_megawifi_appl.Base.{
  ℕ, ◌+◌, ◌%◌, ◌<◌, bit_and, bit_or, ◌≡◌, refl, holds_below, agree_below,
}
use mega_drive_megawifi_appl.Uart.{
  Uart, mcr, uart_get, uart_set_bits, uart_clr_bits, mw_module_reset, mw_module_start, mw_init_pins,
}

pins_bits : (m : ℕ) → m < 256 → bit_and (bit_or m 4 % 256) 0xF6 % 256 ≡ bit_and m 0xF2 + 4
unfolding holds_below
pins_bits m h =
    agree_below 256 (λ b. bit_and (bit_or b 4 % 256) 0xF6 % 256) (λ b. bit_and b 0xF2 + 4) m refl h

start_bit :
    (m : ℕ) → m < 256 → bit_and (bit_and (bit_or m 4 % 256) 0xF6 % 256) 0xFB % 256 ≡ bit_and m 0xF2
unfolding holds_below
start_bit m h =
    agree_below 256 (λ b. bit_and (bit_and (bit_or b 4 % 256) 0xF6 % 256) 0xFB % 256)
      (λ b. bit_and b 0xF2) m refl h

-- With the pins as `mw_init` leaves them, OUT1, the module's reset, is set and OUT2 and DTR are clear,
-- until `mw_module_start` clears OUT1; the other pins stay as they were.
pub mw_init_pins-mw_module_start :
    (u : Uart)
    → u.sh.mcr_val < 256
    → (uart_get mcr (mw_init_pins u) ≡ bit_and (uart_get mcr u) 0xF2 + 4)
      × (uart_get mcr (mw_module_start (mw_init_pins u)) ≡ bit_and (uart_get mcr u) 0xF2)
unfolding mw_init_pins mw_module_reset mw_module_start uart_set_bits uart_clr_bits uart_get
mw_init_pins-mw_module_start u h = (pins_bits u.sh.mcr_val h, start_bit u.sh.mcr_val h)
