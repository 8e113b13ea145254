-- ===== src/Uart/Mirror.antt =====
-- That the shadow registers of src/mw/16c550.h mirror the chip.
use mega_drive_megawifi_appl.Base.{
  ℕ, ◌-◌, ◌%◌, ◌^◌, ◌<◌, bit_and, bit_or, ◌≡◌, refl, ◌∙◌, ap, sym, false, List, [], ◌∷◌, ◌++◌,
  append_assoc, append-nil, leb, gt→leb, arith,
}
use mega_drive_megawifi_appl.Uart.{
  Uart, Reg, ier, fcr, lcr, mcr, address, sh_get, sh_set, uart_set, uart_set_bits, uart_clr_bits,
  uart_reset_fifos, uart_putc, uart_init,
}
use mega_drive_megawifi_appl.Uart.Chip.{
  Chip, chip_write, chip_after, chip_after-append, UartCall, set, set_bits, clr_bits, reset_fifos,
  putc, perform, perform_all, bytes_put, LatchClosed, Mirrors, one_put, Mirrored,
}

-- A register and its shadow take the same value.
set-Mirrors :
    (reg : Reg) (val : ℕ) (u : Uart) (ws : List (ℕ × ℕ)) (c : Chip)
    → Mirrors u c
    → (sh_set reg val u.sh).lcr_val < 128
    → Mirrored
        (record { sh = sh_set reg val u.sh; writes = ws })
        c
        (chip_write (address reg, val % 2 ^ 8) c)
        []
set-Mirrors ier val u ws c m k =
    let open_latch : leb 128 c.lcr_val ≡ false =
      gt→leb 128 c.lcr_val (omega (arith, m.same_lcr, m.closed)) in
    rw open_latch (
      record {
        same_ier = refl;
        same_fcr = m.same_fcr;
        same_lcr = m.same_lcr;
        same_mcr = m.same_mcr;
        closed = k;
        low = m.low;
        high = m.high;
      },
      sym (append-nil c.sent),
    )
set-Mirrors fcr val u ws c m k = (
  record {
    same_ier = m.same_ier;
    same_fcr = refl;
    same_lcr = m.same_lcr;
    same_mcr = m.same_mcr;
    closed = k;
    low = m.low;
    high = m.high;
  },
  sym (append-nil c.sent),
)
set-Mirrors lcr val u ws c m k = (
  record {
    same_ier = m.same_ier;
    same_fcr = m.same_fcr;
    same_lcr = refl;
    same_mcr = m.same_mcr;
    closed = k;
    low = m.low;
    high = m.high;
  },
  sym (append-nil c.sent),
)
set-Mirrors mcr val u ws c m k = (
  record {
    same_ier = m.same_ier;
    same_fcr = m.same_fcr;
    same_lcr = m.same_lcr;
    same_mcr = refl;
    closed = k;
    low = m.low;
    high = m.high;
  },
  sym (append-nil c.sent),
)

low_byte_twice : (n : ℕ) → n % 256 % 256 ≡ n % 256
low_byte_twice n = omega arith

sh_get-sh_set :
    (reg : Reg) (val : ℕ) (u : Uart) → sh_get reg (sh_set reg val u.sh) % 256 ≡ val % 256
sh_get-sh_set ier val u = low_byte_twice val
sh_get-sh_set fcr val u = low_byte_twice val
sh_get-sh_set lcr val u = low_byte_twice val
sh_get-sh_set mcr val u = low_byte_twice val

bytes_put-one :
    (call : UartCall) (calls : List UartCall)
    → one_put call ++ bytes_put calls ≡ bytes_put (call ∷ calls)
bytes_put-one (set reg val) calls = refl
bytes_put-one (set_bits reg val) calls = refl
bytes_put-one (clr_bits reg val) calls = refl
bytes_put-one reset_fifos calls = refl
bytes_put-one (putc c) calls = refl

module _ (c0 : Chip) where
  set_to-Mirrored :
      (reg : Reg) (val v : ℕ) (u : Uart)
      → v ≡ val % 256
      → Mirrors u (chip_after u.writes c0)
      → (sh_set reg val u.sh).lcr_val < 128
      → let u' : Uart = record {
        sh = sh_set reg val u.sh;
        writes = u.writes ++ ((address reg, v) ∷ []);
      } in
        Mirrored u' (chip_after u.writes c0) (chip_after u'.writes c0) []
  set_to-Mirrored reg val v u e m k =
      rw (chip_after-append u.writes (address reg, v) c0, e)
        (set-Mirrors reg val u (u.writes ++ ((address reg, val % 256) ∷ []))
          (chip_after u.writes c0) m k)

  perform-Mirrored :
      (call : UartCall) (u : Uart)
      → Mirrors u (chip_after u.writes c0)
      → (perform call u).sh.lcr_val < 128
      → Mirrored
          (perform call u)
          (chip_after u.writes c0)
          (chip_after (perform call u).writes c0)
          (one_put call)
  unfolding uart_set uart_set_bits uart_clr_bits uart_reset_fifos uart_putc
  perform-Mirrored (set reg val) u m k = set_to-Mirrored reg val (val % 256) u refl m k
  perform-Mirrored (set_bits reg val) u m k =
      set_to-Mirrored reg _ _ u (sh_get-sh_set reg (bit_or (sh_get reg u.sh) val) u) m k
  perform-Mirrored (clr_bits reg val) u m k =
      set_to-Mirrored reg _ _ u
        (sh_get-sh_set reg (bit_and (sh_get reg u.sh) (0xFF - val % 2 ^ 8)) u) m k
  perform-Mirrored reset_fifos u m k =
      set_to-Mirrored fcr _ _ u (sh_get-sh_set fcr (bit_or (sh_get fcr u.sh) 0x07) u) m k
  perform-Mirrored (putc b) u m k =
      let open_latch : leb 128 (chip_after u.writes c0).lcr_val ≡ false =
        gt→leb 128 (chip_after u.writes c0).lcr_val (omega (arith, m.same_lcr, m.closed)) in
      rw (chip_after-append u.writes (0, b % 256) c0, open_latch)
        (
          record {
            same_ier = m.same_ier;
            same_fcr = m.same_fcr;
            same_lcr = m.same_lcr;
            same_mcr = m.same_mcr;
            closed = m.closed;
            low = m.low;
            high = m.high;
          },
          refl,
        )

  perform_all-Mirrored :
      (calls : List UartCall) (u : Uart)
      → Mirrors u (chip_after u.writes c0)
      → LatchClosed calls u
      → Mirrored
          (perform_all calls u)
          (chip_after u.writes c0)
          (chip_after (perform_all calls u).writes c0)
          (bytes_put calls)
  perform_all-Mirrored [] u m k = (m, sym (append-nil (chip_after u.writes c0).sent))
  perform_all-Mirrored (call ∷ calls) u m k =
      let (m1, s1) = perform-Mirrored call u m (k.0) in
      let (m2, s2) = perform_all-Mirrored calls (perform call u) m1 (k.1) in
      (
        m2,
        s2
            ∙ ap (λ l. l ++ bytes_put calls) s1
            ∙ append_assoc (chip_after u.writes c0).sent (one_put call) (bytes_put calls)
            ∙ ap (λ l. (chip_after u.writes c0).sent ++ l) (bytes_put-one call calls),
      )

-- A chip in any state, after `uart_init`.
uart_init-Mirrored :
    (c0 : Chip) (u : Uart)
    → Mirrored (uart_init u) (chip_after u.writes c0) (chip_after (uart_init u).writes c0) []
unfolding uart_init uart_set
uart_init-Mirrored c0 u = simp (chip_after-append) (
  record {
    same_ier = refl;
    same_fcr = refl;
    same_lcr = refl;
    same_mcr = refl;
    closed = omega arith;
    low = refl;
    high = refl;
  },
  sym (append-nil (chip_after u.writes c0).sent),
)

-- From `uart_init` on, whatever the chip held before and whatever calls follow, its registers hold what their
-- shadows say, the divisor is 1 for the baud rate of 1.5 Mbit/s, and what the transmitter gets is
-- the bytes of the calls of `uart_putc` in order, as long as no call sets LCR[7].
pub uart_init-Mirrors :
    (c0 : Chip) (u : Uart) (calls : List UartCall)
    → LatchClosed calls (uart_init u)
    → let u' : Uart = perform_all calls (uart_init u) in
      Mirrors u' (chip_after u'.writes c0)
      × ((chip_after u'.writes c0).sent ≡ (chip_after u.writes c0).sent ++ bytes_put calls)
uart_init-Mirrors c0 u calls k =
    let (m, s) = uart_init-Mirrored c0 u in
    let (m', s') = perform_all-Mirrored c0 calls (uart_init u) m k in
    (m', s' ∙ ap (λ l. l ++ bytes_put calls) (s ∙ append-nil (chip_after u.writes c0).sent))
