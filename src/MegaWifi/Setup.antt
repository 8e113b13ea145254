-- ===== src/MegaWifi/Setup.antt =====
-- Starting the module: `mw_init`, `mw_detect`, `mw_version_get` and `mw_echo` of src/mw/megawifi.c.
use mega_drive_megawifi_appl.Base.{
  ℕ, zero, suc, ◌+◌, Bool, true, false, not, Option, none, some, List, [], ◌∷◌, length, ltb, ◌==◌,
  if◌then◌else◌, done,
}
use mega_drive_megawifi_appl.Lsd.{lsd_init, lsd_ch_enable}
use mega_drive_megawifi_appl.AppleMidi.{mw_err_none}
use mega_drive_megawifi_appl.MegaWifi.{
  Mw, Act, timer_added, module_reset, bits_cleared, module_started, fifos_reset, ◌>>=◌, ◌>>◌, pure,
  call, byte_at, reply_len, data_offset, fill_command, mw_command, when_ready, on_reply,
  err_general, err_not_ready, err_buffer_too_short, command_tout, ms_to_frames, mw_ctrl_ch,
  mw_cmd_min_buflen,
}
use mega_drive_megawifi_appl.MegaWifi.Codes.{cmd_version, cmd_echo}
use mega_drive_megawifi_appl.MegaWifi.Transfer.{mw_sleep}

-- `memset(&d, 0, …)` and what follows it up to the test of the UART.
abbrev pub fresh : List ℕ → ℕ → Mw → Mw
fresh cmd_buf buf_len d = record {
  cmd = cmd_buf;
  buf_len = buf_len;
  mw_ready = false;
  cmd_data_cb = false;
  lsd = lsd_init;
  posts = d.posts;
  calls = bits_cleared ∷ module_reset ∷ timer_added ∷ d.calls;
}

-- `installed`: whether the scratch pad register gives back what is written to it. `none` is a null
-- buffer.
unfoldable pub mw_init : Option (List ℕ) → ℕ → Bool → Mw → ℕ × Mw
mw_init none buf_len installed d = (err_buffer_too_short, d)
mw_init (some cmd_buf) buf_len installed d =
    if ltb buf_len mw_cmd_min_buflen
    then (err_buffer_too_short, d)
    else (let d' : Mw = fresh cmd_buf buf_len d in
        if not installed then (err_general, d') else (
          mw_err_none,
          record d' { lsd = (lsd_ch_enable mw_ctrl_ch d'.lsd).1; mw_ready = true },
        ))

-- The error code, `version` where it is written, and the string that `variant` is pointed to.
abbrev pub Version : Type 0
Version = ℕ × List ℕ × Option ℕ

unfoldable pub mw_version_get : Act Version
mw_version_get =
    when_ready (err_not_ready, [], none)
      (do
        fill_command cmd_version []
        err ← mw_command command_tout
        if err == mw_err_none
            then (do
              major ← byte_at data_offset
              minor ← byte_at (data_offset + 1)
              patch ← byte_at (data_offset + 2)
              pure (mw_err_none, major ∷ minor ∷ patch ∷ [], some (data_offset + 3)))
            else pure (err, [], none))

-- One round of the loop of `mw_detect`.
abbrev pub attempt : Act Version
attempt = call fifos_reset >> mw_version_get

-- The loop, `retries` rounds at most being left after this one.
unfoldable pub detect_rounds : ℕ → Act Version
detect_rounds zero = attempt
detect_rounds (suc retries) =
    let more = detect_rounds retries in attempt >>= λ v. if v.0 == mw_err_none then pure v else more

unfoldable pub mw_detect : Act Version
mw_detect = do
  mw_sleep (ms_to_frames 30)
  call module_started
  mw_sleep (ms_to_frames 1000)
  detect_rounds 4

abbrev pub lsd_overhead : ℕ
lsd_overhead = 4

-- The reply's data and its length; `none` for NULL.
unfoldable pub mw_echo : List ℕ → Act (Option (ℕ × ℕ))
mw_echo bytes = when_ready none (λ d.
    if ltb (length bytes + lsd_overhead + 4) d.buf_len
    then done (none, d)
    else (do
      fill_command cmd_echo bytes
      on_reply command_tout none (reply_len >>= λ len. pure (some (data_offset, len))))
        d)
