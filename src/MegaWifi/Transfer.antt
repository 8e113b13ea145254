-- ===== src/MegaWifi/Transfer.antt =====
-- `mw_recv_sync`, `mw_send_sync` and `mw_sleep` of src/mw/megawifi.c.
use mega_drive_megawifi_appl.Base.{
  ℕ, zero, suc, Option, none, some, List, [], ◌∷◌, length, take, drop, ◌==◌, if◌then◌else◌, spent,
}
use mega_drive_megawifi_appl.AppleMidi.{mw_err_none}
use mega_drive_megawifi_appl.MegaWifi.{
  Act, lsd_sent, timer_started, ◌>>=◌, ◌>>◌, pure, call, pend, is_posted_ok, err_recv, err_send,
}

-- `if (tout_frames) { loop_timer_start(&d.timer, tout_frames); }`
abbrev pub start_timer : ℕ → Act (Unit {0})
start_timer tout = if tout == 0 then pure tt else call (timer_started tout)

-- The channel and the bytes received, where there are any.
unfoldable pub mw_recv_sync : ℕ → Act (ℕ × Option (ℕ × List ℕ))
mw_recv_sync tout = do
  start_timer tout
  p ← pend
  if is_posted_ok p.stat then pure (mw_err_none, some (p.ch, p.bytes)) else pure (err_recv, none)

-- The rounds of `while (sent < len)`, on the bytes that are left.
unfoldable pub send_rounds : ℕ → ℕ → List ℕ → ℕ → Act ℕ
send_rounds zero ch bytes tout d = spent
send_rounds (suc n) ch [] tout d = pure mw_err_none d
send_rounds (suc n) ch (b ∷ bs) tout d =
    let more = send_rounds n ch (drop d.buf_len (b ∷ bs)) tout in
    (call (lsd_sent ch (take d.buf_len (b ∷ bs))) >> start_timer tout >> pend >>= λ p.
    if is_posted_ok p.stat then more else pure err_send)
      d

-- Each round sends a byte at least, if the command buffer is not empty.
unfoldable pub mw_send_sync : ℕ → List ℕ → ℕ → Act ℕ
mw_send_sync ch bytes tout = send_rounds (suc (length bytes)) ch bytes tout

unfoldable pub mw_sleep : ℕ → Act (Unit {0})
mw_sleep frames = call (timer_started frames) >> pend >> pure tt
