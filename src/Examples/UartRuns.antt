-- ===== src/Examples/UartRuns.antt =====
-- src/mw/16c550.c set up, and calls behind that.
use mega_drive_megawifi_appl.Base.{◌≡◌, refl, List, [], ◌∷◌, ◌++◌, arith}
use mega_drive_megawifi_appl.Uart.{
  Uart, lcr, mcr, uart_init, uart_set, uart_set_bits, uart_clr_bits, uart_reset_fifos, uart_putc,
  uart_get, mw_module_reset, mw_init_pins,
}
use mega_drive_megawifi_appl.Uart.Chip.{
  Chip, UartCall, set, set_bits, reset_fifos, putc, perform_all, chip_after, bytes_put, Mirrors,
}
use mega_drive_megawifi_appl.Uart.Mirror.{uart_init-Mirrors}

abbrev blank : Uart
blank = record { sh = record { ier_val = 0; fcr_val = 0; lcr_val = 0; mcr_val = 0 }; writes = [] }

-- A chip that was left with its divisor latch open.
abbrev left_open : Chip
left_open = record {
  ier_val = 1;
  fcr_val = 2;
  lcr_val = 0x80;
  mcr_val = 3;
  dll_val = 9;
  dlm_val = 9;
  sent = 7 ∷ [];
}

abbrev calls : List UartCall
calls = set_bits mcr 4 ∷ putc 0x155 ∷ reset_fifos ∷ set lcr 0x1B ∷ putc 3 ∷ []

uart_init-Mirrors_example :
    Mirrors
      (perform_all calls (uart_init blank))
      (chip_after (perform_all calls (uart_init blank)).writes left_open)
    × ((chip_after (perform_all calls (uart_init blank)).writes left_open).sent
        ≡ (chip_after blank.writes left_open).sent ++ bytes_put calls)
unfolding uart_init uart_set uart_set_bits uart_reset_fifos uart_putc
uart_init-Mirrors_example = uart_init-Mirrors left_open blank calls (omega arith)

pins_run : uart_get mcr (mw_init_pins (uart_init blank)) ≡ 0x26
unfolding uart_get mw_init_pins mw_module_reset uart_clr_bits uart_set_bits uart_init uart_set
pins_run = refl
