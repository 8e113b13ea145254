-- ===== src/Uart/Chip.antt =====
-- The registers of the UART behind src/mw/16c550.h, as that file documents them, under what
-- src/mw/16c550.c writes.
use mega_drive_megawifi_appl.Base.{
  ℕ, ◌%◌, ◌^◌, ◌<◌, ◌≡◌, refl, List, [], ◌∷◌, ◌++◌, leb, ◌==◌, if◌then◌else◌,
}
use mega_drive_megawifi_appl.Uart.{
  Uart, Reg, uart_set, uart_set_bits, uart_clr_bits, uart_reset_fifos, uart_putc,
}

-- What the chip holds, and the bytes given to the transmitter.
pub record Chip : Type 0 where
  pub ier_val : ℕ
  pub fcr_val : ℕ
  pub lcr_val : ℕ
  pub mcr_val : ℕ
  pub dll_val : ℕ
  pub dlm_val : ℕ
  pub sent : List ℕ

-- With LCR[7] set, offsets 0 and 2 are the divisor latch.
abbrev pub chip_write : ℕ × ℕ → Chip → Chip
chip_write (offset, v) c =
    if offset == 0
    then (if leb 128 c.lcr_val
        then record c { dll_val = v }
        else record c { sent = c.sent ++ (v ∷ []) })
    else if offset == 2
    then (if leb 128 c.lcr_val then record c { dlm_val = v } else record c { ier_val = v })
    else if offset == 4
    then record c { fcr_val = v }
    else if offset == 6
    then record c { lcr_val = v }
    else if offset == 8
    then record c { mcr_val = v }
    else c

abbrev pub chip_after : List (ℕ × ℕ) → Chip → Chip
chip_after [] c = c
chip_after (w ∷ ws) c = chip_after ws (chip_write w c)

pub chip_after-append :
    (ws : List (ℕ × ℕ)) (w : ℕ × ℕ) (c : Chip)
    → chip_after (ws ++ (w ∷ [])) c ≡ chip_write w (chip_after ws c)
chip_after-append [] w c = refl
chip_after-append (x ∷ ws) w c = chip_after-append ws w (chip_write x c)

pub data UartCall : Type 0 where
  set set_bits clr_bits : Reg → ℕ → UartCall
  reset_fifos : UartCall
  putc : ℕ → UartCall

abbrev pub perform : UartCall → Uart → Uart
perform (set reg val) u = uart_set reg val u
perform (set_bits reg val) u = uart_set_bits reg val u
perform (clr_bits reg val) u = uart_clr_bits reg val u
perform reset_fifos u = uart_reset_fifos u
perform (putc c) u = uart_putc c u

abbrev pub perform_all : List UartCall → Uart → Uart
perform_all [] u = u
perform_all (call ∷ calls) u = perform_all calls (perform call u)

abbrev pub bytes_put : List UartCall → List ℕ
bytes_put [] = []
bytes_put (putc c ∷ calls) = c % 2 ^ 8 ∷ bytes_put calls
bytes_put (call ∷ calls) = bytes_put calls

-- No call leaves LCR[7] set.
abbrev pub LatchClosed : List UartCall → Uart → Type 0
LatchClosed [] u = Unit {0}
LatchClosed (call ∷ calls) u =
    ((perform call u).sh.lcr_val < 128) × LatchClosed calls (perform call u)

-- The chip holds what the shadow says, LCR[7] is clear, the divisor is that of the baud rate.
pub record Mirrors (u : Uart) (c : Chip) : Type 0 where
  pub same_ier : c.ier_val ≡ u.sh.ier_val
  pub same_fcr : c.fcr_val ≡ u.sh.fcr_val
  pub same_lcr : c.lcr_val ≡ u.sh.lcr_val
  pub same_mcr : c.mcr_val ≡ u.sh.mcr_val
  pub closed : u.sh.lcr_val < 128
  pub low : c.dll_val ≡ 1
  pub high : c.dlm_val ≡ 0

-- What a call comes to on the line.
abbrev pub one_put : UartCall → List ℕ
one_put call = bytes_put (call ∷ [])

abbrev pub Mirrored : Uart → Chip → Chip → List ℕ → Type 0
Mirrored u c c' more = Mirrors u c' × (c'.sent ≡ c.sent ++ more)
