-- ===== src/Lsd.antt =====
-- src/mw/lsd.c and src/mw/lsd.h: the symmetric data link, framing on a serial line. `d` is the record
-- `Lsd`. A callback is always the last thing that a step does, so it is logged in `reports`, oldest
-- first, and what it does to the module is the next step.
pub mod Frame
pub mod Send
pub mod Fields
pub mod Receive
pub mod Partial
pub mod Link
pub mod Overrun
pub mod Polling
pub mod Bursts
pub mod Wire
pub mod Sending
pub mod Hearing
pub mod Awaiting
pub mod SendSync
pub mod RecvSync
pub mod SyncLink
use mega_drive_megawifi_appl.Base.{
  ℕ, zero, suc, ◌+◌, ◌-◌, ◌*◌, ◌/◌, ◌%◌, ◌^◌, bit_and, bit_or, Bool, true, false, not, ◌||◌, ◌&&◌,
  List, [], ◌∷◌, ◌++◌, length, get_or, set, replicate, take, ltb, leb, ◌==◌, if◌then◌else◌, Outcome,
  done, fault, ◌>>=◌, read,
}

abbrev pub lsd_stx_etx : ℕ
lsd_stx_etx = 0x7E

abbrev pub lsd_max_ch : ℕ
lsd_max_ch = 4

abbrev pub lsd_max_len : ℕ
lsd_max_len = 4095

pub data LsdStatus : Type 0 where
  err_framing err_invalid_ch err_frame_too_long err_in_progress general_error complete busy :
      LsdStatus

pub data RecvState : Type 0 where
  recv_partial recv_idle recv_stx recv_ch_lenh recv_len recv_data recv_etx : RecvState

pub data SendState : Type 0 where
  send_idle send_stx send_ch_lenh send_len send_data send_etx : SendState

-- `cb` and `ctx` are the callback's arguments of the last call, `none` for NULL.
pub record SendData : Type 0 where
  pub stat : SendState
  pub buf : List ℕ
  pub pos : ℕ
  pub total : ℕ
  pub cb : Bool
  pub ch : ℕ

pub record RecvData : Type 0 where
  pub stat : RecvState
  pub buf : List ℕ
  pub pos : ℕ
  pub frame_len : ℕ
  pub max : ℕ
  pub cb : Bool
  pub ch : ℕ

-- A call of a callback.
pub data Report : Type 0 where
  sent : LsdStatus → Report
  received : LsdStatus → ℕ → List ℕ → Report

pub record Lsd : Type 0 where
  pub tx : SendData
  pub rx : RecvData
  pub ch_enable : List Bool
  pub reports : List Report

abbrev pub report : Bool → Report → Lsd → Lsd
report cb r d = if cb then (record d { reports = d.reports ++ (r ∷ []) }) else d

-- Whether channel `ch` may be used: `ch >= LSD_MAX_CH || !d.ch_enable[ch]`, negated.
abbrev pub usable : Lsd → ℕ → Bool
usable d ch = ltb ch lsd_max_ch && get_or d.ch_enable ch false

unfoldable pub recv_error : LsdStatus → Lsd → Lsd
recv_error stat d =
    report d.rx.cb (received stat 0 []) (record d { rx = record (d.rx) { stat = recv_idle } })

unfoldable pub recv_complete : Lsd → Lsd
recv_complete d = report d.rx.cb (received complete d.rx.ch (take d.rx.pos d.rx.buf)) d

-- What `recv_add` does once the byte is written and `pos` counted.
unfoldable pub recv_added : Lsd → Lsd
recv_added d =
    if leb d.rx.frame_len d.rx.pos
    then record d { rx = record (d.rx) { stat = recv_etx } }
    else if leb d.rx.max d.rx.pos
    then recv_complete (record d {
      rx = record (d.rx) { frame_len = d.rx.frame_len - d.rx.pos; stat = recv_partial };
    })
    else d

-- A write past the buffer that `lsd_recv` was given faults.
unfoldable pub recv_add : ℕ → Lsd → Outcome Lsd
recv_add recv d =
    if ltb d.rx.pos (length d.rx.buf)
    then done (
        recv_added (record d {
          rx = record (d.rx) { buf = set d.rx.buf d.rx.pos recv; pos = d.rx.pos + 1 };
        }))
    else fault

unfoldable pub recv_channel : ℕ → Lsd → Lsd
recv_channel recv d =
    if recv == lsd_stx_etx
    then d
    else (let d' : Lsd = record d {
      rx = record (d.rx) { ch = recv / 2 ^ 4; frame_len = bit_and recv 0x0F * 2 ^ 8 };
    } in
        if usable d' d'.rx.ch
        then record d' { rx = record (d'.rx) { stat = recv_len } }
        else recv_error err_invalid_ch d')

unfoldable pub recv_length : ℕ → Lsd → Lsd
recv_length recv d =
    let n : ℕ = bit_or d.rx.frame_len recv in
    record d {
      rx = record (d.rx) { frame_len = n; pos = 0; stat = if n == 0 then recv_etx else recv_data };
    }

unfoldable pub recv_end : ℕ → Lsd → Lsd
recv_end recv d =
    if recv == lsd_stx_etx
    then recv_complete (record d { rx = record (d.rx) { stat = recv_idle } })
    else recv_error err_framing d

-- The `switch` of `process_recv`, on the state.
unfoldable pub recv_byte : RecvState → ℕ → Lsd → Outcome Lsd
recv_byte recv_stx recv d =
    done
      (if recv == lsd_stx_etx then record d { rx = record (d.rx) { stat = recv_ch_lenh } } else d)
recv_byte recv_ch_lenh recv d = done (recv_channel recv d)
recv_byte recv_len recv d = done (recv_length recv d)
recv_byte recv_data recv d = recv_add recv d
recv_byte recv_etx recv d = done (recv_end recv d)
recv_byte recv_partial recv d = done (recv_error general_error d)
recv_byte recv_idle recv d = done (recv_error general_error d)

-- `process_recv` on the byte that `uart_getc()` gives.
unfoldable pub process_recv : ℕ → Lsd → Outcome Lsd
process_recv recv d = recv_byte d.rx.stat recv d

abbrev to_send : SendState → Lsd → Lsd
to_send stat d = record d { tx = record (d.tx) { stat = stat } }

unfoldable pub send_complete : Lsd → Lsd
send_complete d = report d.tx.cb (sent complete) (to_send send_idle d)

-- The bytes that a step gives to `uart_putc`, and the state after it.
abbrev pub Step : Type 0
Step = List ℕ × Lsd

unfoldable pub send_data_byte : Lsd → Outcome Step
send_data_byte d = do
  b ← read d.tx.buf d.tx.pos
  let d' = record d { tx = record (d.tx) { pos = d.tx.pos + 1 } }
  done (b ∷ [], (if leb d.tx.total (d.tx.pos + 1) then to_send send_etx d' else d'))

-- The `switch` of `process_send`; `uart_putc` takes the low eight bits.
unfoldable pub send_step : SendState → Lsd → Outcome Step
send_step send_stx d = done (lsd_stx_etx ∷ [], to_send send_ch_lenh d)
send_step send_ch_lenh d =
    done (bit_or (d.tx.ch * 2 ^ 4) (d.tx.total / 2 ^ 8) % 2 ^ 8 ∷ [], to_send send_len d)
send_step send_len d = done (bit_and d.tx.total 0xFF ∷ [], to_send send_data d)
send_step send_data d = send_data_byte d
send_step send_etx d = done (lsd_stx_etx ∷ [], send_complete d)
send_step send_idle d = done ([], d)

unfoldable pub process_send : Lsd → Outcome Step
process_send d = send_step d.tx.stat d

-- `memset(&d, 0, …)` and `d.rx.stat = LSD_RECV_IDLE`. The UART set-up is outside.
unfoldable pub lsd_init : Lsd
lsd_init = record {
  tx = record { stat = send_idle; buf = []; pos = 0; total = 0; cb = false; ch = 0 };
  rx = record { stat = recv_idle; buf = []; pos = 0; frame_len = 0; max = 0; cb = false; ch = 0 };
  ch_enable = replicate 4 false;
  reports = [];
}

abbrev set_channel : Bool → ℕ → Lsd → LsdStatus × Lsd
set_channel enable ch d =
    if ltb ch lsd_max_ch
    then (complete, record d { ch_enable = set d.ch_enable ch enable })
    else (general_error, d)

unfoldable pub lsd_ch_enable : ℕ → Lsd → LsdStatus × Lsd
lsd_ch_enable = set_channel true

unfoldable pub lsd_ch_disable : ℕ → Lsd → LsdStatus × Lsd
lsd_ch_disable = set_channel false

abbrev pub is_send_idle : SendState → Bool
is_send_idle send_idle = true
is_send_idle _ = false

unfoldable pub lsd_send : ℕ → List ℕ → ℕ → Bool → Lsd → LsdStatus × Lsd
lsd_send ch bytes len cb d =
    if not (is_send_idle d.tx.stat)
    then (err_in_progress, d)
    else if not (usable d ch)
    then (err_invalid_ch, d)
    else if ltb lsd_max_len len
    then (err_frame_too_long, d)
    else (
      busy,
      record d {
        tx = record { stat = send_stx; buf = bytes; pos = 0; total = len; cb = cb; ch = ch };
      },
    )

-- The state and the position with which a new receive buffer is filled.
abbrev recv_start : RecvState → ℕ → RecvState × ℕ
recv_start recv_idle pos = (recv_stx, pos)
recv_start recv_partial pos = (recv_data, 0)
recv_start stat pos = (stat, pos)

unfoldable pub lsd_recv : List ℕ → ℕ → Bool → Lsd → LsdStatus × Lsd
lsd_recv buf len cb d =
    if leb (lsd_max_len + 1) len
    then (err_frame_too_long, d)
    else (let (stat, pos) = recv_start d.rx.stat d.rx.pos in
        (
          busy,
          record d { rx = record (d.rx) { stat = stat; pos = pos; buf = buf; max = len; cb = cb } },
        ))

-- The loop of `lsd_process` over `process_send`: at most `n` steps while there is something to send.
-- The callbacks are those that only take note of their call.
unfoldable pub send_burst : ℕ → Lsd → Outcome Step
send_burst zero d = done ([], d)
send_burst (suc n) d =
    if is_send_idle d.tx.stat
    then done ([], d)
    else process_send d >>= λ first.
        send_burst n (first.1) >>= λ rest. done (first.0 ++ rest.0, rest.1)

abbrev pub is_receiving : RecvState → Bool
is_receiving recv_partial = false
is_receiving recv_idle = false
is_receiving _ = true

-- The loop of `lsd_process` over `process_recv`, on the bytes that the UART has: those that are left,
-- and the state.
unfoldable pub recv_burst : List ℕ → Lsd → Outcome Step
recv_burst [] d = done ([], d)
recv_burst (b ∷ bs) d =
    if is_receiving d.rx.stat then process_recv b d >>= recv_burst bs else done (b ∷ bs, d)
