-- ===== src/Lsd/Polling.antt =====
-- The calls of src/mw/lsd.c that poll the UART: `lsd_process`, and those that wait for it. The UART
-- (src/mw/16c550.h) is an interface; `S` is the state of the line. Fuel bounds the bytes that come in and
-- the rounds, for which the code has no bound.
use mega_drive_megawifi_appl.Base.{
  ℕ, zero, suc, Bool, true, false, ◌||◌, Option, none, some, List, [], ◌∷◌, if◌then◌else◌, Outcome,
  done, spent, ◌>>=◌,
}
use mega_drive_megawifi_appl.Lsd.{
  Lsd, LsdStatus, complete, busy, general_error, RecvState, recv_idle, is_receiving, is_send_idle,
  process_recv, process_send, lsd_send, lsd_recv, lsd_init,
}

-- `uart_rx_ready()`, `uart_getc()`, `uart_tx_ready()` and `uart_putc(c)`.
pub record Serial (S : Type 0) : Type 0 where
  pub rx_ready : S → Bool × S
  pub getc : S → ℕ × S
  pub tx_ready : S → Bool × S
  pub putc : ℕ → S → S

abbrev pub uart_tx_fifo_len : ℕ
uart_tx_fifo_len = 16

-- `stat <= LSD_STAT_COMPLETE`.
abbrev pub is_settled : LsdStatus → Bool
is_settled busy = false
is_settled _ = true

abbrev pub is_recv_idle : RecvState → Bool
is_recv_idle recv_idle = true
is_recv_idle _ = false

module _ {S : Type 0} (uart : Serial S) where
  abbrev pub puts : List ℕ → S → S
  puts [] s = s
  puts (b ∷ bs) s = puts bs (uart.putc b s)

  -- The loop over `process_recv`.
  unfoldable pub recv_loop : ℕ → Lsd → S → Outcome (Lsd × S)
  recv_loop zero d s = spent
  recv_loop (suc n) d s =
      let ready : Bool × S = uart.rx_ready s in
      let c : ℕ × S = uart.getc (ready.1) in
      let more = process_recv (c.0) d >>= λ d'. recv_loop n d' (c.1) in
      if is_receiving d.rx.stat then (if ready.0 then more else done (d, ready.1)) else done (d, s)

  -- The loop over `process_send`, at most so many times.
  unfoldable pub send_loop : ℕ → Lsd → S → Outcome (Lsd × S)
  send_loop zero d s = done (d, s)
  send_loop (suc n) d s =
      let more = process_send d >>= λ step. send_loop n (step.1) (puts (step.0) s) in
      if is_send_idle d.tx.stat then done (d, s) else more

  -- The first half of a round of `lsd_process`, and whether it was active.
  unfoldable pub recv_phase : ℕ → Lsd → S → Outcome (Bool × Lsd × S)
  recv_phase n d s =
      let ready : Bool × S = uart.rx_ready s in
      if is_receiving d.rx.stat
      then (if ready.0
          then (recv_loop n d (ready.1) >>= λ r. done (true, r.0, r.1))
          else done (false, d, ready.1))
      else done (false, d, s)

  unfoldable pub send_phase : Lsd → S → Outcome (Bool × Lsd × S)
  send_phase d s =
      let ready : Bool × S = uart.tx_ready s in
      if is_send_idle d.tx.stat
      then done (false, d, s)
      else if ready.0
      then (send_loop uart_tx_fifo_len d (ready.1) >>= λ r. done (true, r.0, r.1))
      else done (false, d, ready.1)

  unfoldable pub lsd_process : ℕ → Lsd → S → Outcome (Lsd × S)
  lsd_process zero d s = spent
  lsd_process (suc n) d s = recv_phase (suc n) d s >>= λ r. send_phase (r.1) (r.2) >>= λ t.
      let again = lsd_process n (t.1) (t.2) in if r.0 || t.0 then again else done (t.1, t.2)

  -- `while (d.tx.stat > LSD_SEND_IDLE) { lsd_process(); }`, and the same for `d.rx`.
  unfoldable pub send_wait : ℕ → Lsd → S → Outcome (Lsd × S)
  send_wait zero d s = spent
  send_wait (suc n) d s =
      let more = lsd_process (suc n) d s >>= λ r. send_wait n (r.0) (r.1) in
      if is_send_idle d.tx.stat then done (d, s) else more

  unfoldable pub recv_wait : ℕ → Lsd → S → Outcome (Lsd × S)
  recv_wait zero d s = spent
  recv_wait (suc n) d s =
      let more = lsd_process (suc n) d s >>= λ r. recv_wait n (r.0) (r.1) in
      if is_receiving d.rx.stat then more else done (d, s)

  unfoldable pub lsd_send_sync : ℕ → ℕ → List ℕ → ℕ → Lsd → S → Outcome (LsdStatus × Lsd × S)
  lsd_send_sync n ch bytes len d s =
      let (stat, d') = lsd_send ch bytes len false d in
      if is_settled stat
      then done (stat, d', s)
      else (send_wait n d' s >>= λ r.
          done ((if is_send_idle (r.0).tx.stat then complete else general_error), r.0, r.1))

  -- `*len` and `*ch` where they are written. Lengths are below 2 ^ 15, as an `int16_t` holds them.
  unfoldable pub lsd_recv_sync :
      ℕ → List ℕ → ℕ → Lsd → S → Outcome (LsdStatus × Option (ℕ × ℕ) × Lsd × S)
  lsd_recv_sync n buf len d s =
      let (stat, d') = lsd_recv buf len false d in
      if is_settled stat
      then done (stat, none, d', s)
      else (recv_wait n d' s >>= λ r.
          if is_recv_idle (r.0).rx.stat
          then done (complete, some ((r.0).rx.pos, (r.0).rx.ch), r.0, r.1)
          else done (general_error, none, r.0, r.1))

  -- So many rounds of `lsd_line_sync`.
  unfoldable pub line_sync_rounds : ℕ → S → S
  line_sync_rounds zero s = s
  line_sync_rounds (suc n) s =
      let ready : Bool × S = uart.tx_ready s in
      line_sync_rounds n (if ready.0 then uart.putc 0x55 (ready.1) else ready.1)

  unfoldable pub lsd_line_sync : S → S
  lsd_line_sync = line_sync_rounds 256

  -- `lsd_init` with the line: `uart_init()`, the state as `lsd_init` sets it, and `lsd_line_sync()`.
  unfoldable pub lsd_init_line : (S → S) → S → Lsd × S
  lsd_init_line uart_init s = (lsd_init, lsd_line_sync (uart_init s))
