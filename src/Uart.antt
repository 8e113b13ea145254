-- ===== src/Uart.antt =====
-- src/mw/16c550.c and src/mw/16c550.h: the UART. `writes` logs what is written to its registers, oldest
-- first, as the offset from `UART_BASE` and the value. The pins of the WiFi module are those of
-- src/mw/megawifi.h.
pub mod Chip
pub mod Mirror
pub mod Pins
use mega_drive_megawifi_appl.Base.{
  ℕ, ◌+◌, ◌-◌, ◌*◌, ◌/◌, ◌%◌, ◌^◌, bit_and, bit_or, List, [], ◌∷◌, ◌++◌,
}

abbrev pub uart_clk : ℕ
uart_clk = 24000000

abbrev pub uart_br : ℕ
uart_br = 1500000

abbrev pub div_with_rounding : ℕ → ℕ → ℕ
div_with_rounding dividend divisor = (dividend * 2 / divisor + 1) / 2

abbrev pub uart_dlm_val : ℕ
uart_dlm_val = div_with_rounding uart_clk (16 * uart_br) / 2 ^ 8

abbrev pub uart_dll_val : ℕ
uart_dll_val = bit_and (div_with_rounding uart_clk (16 * uart_br)) 0xFF

-- The registers that have a shadow.
pub data Reg : Type 0 where
  ier fcr lcr mcr : Reg

pub record UartShadow : Type 0 where
  pub ier_val : ℕ
  pub fcr_val : ℕ
  pub lcr_val : ℕ
  pub mcr_val : ℕ

pub record Uart : Type 0 where
  pub sh : UartShadow
  pub writes : List (ℕ × ℕ)

abbrev pub address : Reg → ℕ
address ier = 2
address fcr = 4
address lcr = 6
address mcr = 8

-- A register is assigned to; it takes the low eight bits.
abbrev pub assign : ℕ → ℕ → Uart → Uart
assign offset val u = record u { writes = u.writes ++ ((offset, val % 2 ^ 8) ∷ []) }

abbrev pub sh_get : Reg → UartShadow → ℕ
sh_get ier sh = sh.ier_val
sh_get fcr sh = sh.fcr_val
sh_get lcr sh = sh.lcr_val
sh_get mcr sh = sh.mcr_val

abbrev pub sh_set : Reg → ℕ → UartShadow → UartShadow
sh_set ier val sh = record sh { ier_val = val % 2 ^ 8 }
sh_set fcr val sh = record sh { fcr_val = val % 2 ^ 8 }
sh_set lcr val sh = record sh { lcr_val = val % 2 ^ 8 }
sh_set mcr val sh = record sh { mcr_val = val % 2 ^ 8 }

unfoldable pub uart_set : Reg → ℕ → Uart → Uart
uart_set reg val u = assign (address reg) val (record u { sh = sh_set reg val u.sh })

unfoldable pub uart_get : Reg → Uart → ℕ
uart_get reg u = sh_get reg u.sh

-- The register is assigned its shadow, once that is changed.
abbrev pub assign_shadow : Reg → ℕ → Uart → Uart
assign_shadow reg val u =
    let u' : Uart = record u { sh = sh_set reg val u.sh } in
    assign (address reg) (sh_get reg u'.sh) u'

unfoldable pub uart_set_bits : Reg → ℕ → Uart → Uart
uart_set_bits reg val u = assign_shadow reg (bit_or (sh_get reg u.sh) val) u

-- `~val` in the low eight bits, which are all that the shadow has.
unfoldable pub uart_clr_bits : Reg → ℕ → Uart → Uart
uart_clr_bits reg val u = assign_shadow reg (bit_and (sh_get reg u.sh) (0xFF - val % 2 ^ 8)) u

unfoldable pub uart_reset_fifos : Uart → Uart
uart_reset_fifos u = uart_set_bits fcr 0x07 u

unfoldable pub uart_putc : ℕ → Uart → Uart
uart_putc c u = assign 0 c u

unfoldable pub uart_init : Uart → Uart
uart_init u0 =
    let u1 : Uart = assign (address lcr) 0x83 u0 in
    let u2 : Uart = assign 2 uart_dlm_val u1 in
    let u3 : Uart = assign 0 uart_dll_val u2 in
    let u4 : Uart = uart_set lcr 0x03 u3 in
    let u5 : Uart = uart_set mcr 0x22 u4 in
    let u6 : Uart = assign (address fcr) 0xC1 u5 in
    let u7 : Uart = uart_set fcr 0xC7 u6 in uart_set ier 0x00 u7

abbrev pub uart_mcr_dtr : ℕ
uart_mcr_dtr = 0x01

abbrev pub uart_mcr_out1 : ℕ
uart_mcr_out1 = 0x04

abbrev pub uart_mcr_out2 : ℕ
uart_mcr_out2 = 0x08

unfoldable pub mw_module_reset : Uart → Uart
mw_module_reset = uart_set_bits mcr uart_mcr_out1

unfoldable pub mw_module_start : Uart → Uart
mw_module_start = uart_clr_bits mcr uart_mcr_out1

-- The first lines of `mw_init`: reset, neither programming nor powered down.
unfoldable pub mw_init_pins : Uart → Uart
mw_init_pins u = uart_clr_bits mcr (bit_or uart_mcr_out2 uart_mcr_dtr) (mw_module_reset u)
