-- ===== src/MegaWifi/Wireless.antt =====
-- Access points and addresses in src/mw/megawifi.c.
use mega_drive_megawifi_appl.Base.{
  ℕ, ◌+◌, ◌-◌, Option, none, some, List, [], ◌∷◌, ◌++◌, take, replicate, leb, ◌==◌, if◌then◌else◌,
}
use mega_drive_megawifi_appl.AppleMidi.{mw_err_none}
use mega_drive_megawifi_appl.MegaWifi.{
  Act, ◌>>=◌, ◌>>◌, pure, byte_at, reply_len, data_offset, be32, fill_command, when_ready, on_reply,
  request, err_general, err_not_ready, err_param, command_tout, ms_to_frames,
}
use mega_drive_megawifi_appl.MegaWifi.Codes.{
  cmd_def_cfg_set, cmd_ap_cfg, cmd_ap_cfg_get, cmd_ip_cfg, cmd_ip_cfg_get, cmd_ip_current,
  cmd_ap_scan, cmd_ap_join, cmd_ap_leave, cmd_def_ap_cfg, cmd_def_ap_cfg_get,
}

abbrev pub mw_num_cfg_slots : ℕ
mw_num_cfg_slots = 3

abbrev pub mw_ssid_maxlen : ℕ
mw_ssid_maxlen = 32

abbrev pub mw_pass_maxlen : ℕ
mw_pass_maxlen = 64

abbrev pub scan_tout : ℕ
scan_tout = ms_to_frames 10000

abbrev pub assoc_tout : ℕ
assoc_tout = ms_to_frames 20000

unfoldable pub mw_default_cfg_set : Act ℕ
mw_default_cfg_set =
    when_ready err_not_ready (request cmd_def_cfg_set (be32 0xFEAA5501) command_tout)

-- `memcpy(field, str, strnlen(str, size))` into a field of `size` zeros.
abbrev pub padded : ℕ → List ℕ → List ℕ
padded size str = take size (str ++ replicate size 0)

-- struct mw_msg_ap_cfg.
abbrev pub ap_cfg : ℕ → ℕ → List ℕ → Option (List ℕ) → List ℕ
ap_cfg slot phy_type ssid pass =
    slot
    ∷ phy_type
    ∷ (padded mw_ssid_maxlen ssid
        ++ elim pass [ none ↦ replicate mw_pass_maxlen 0 | some str ↦ padded mw_pass_maxlen str ])

unfoldable pub mw_ap_cfg_set : ℕ → Option (List ℕ) → Option (List ℕ) → ℕ → Act ℕ
mw_ap_cfg_set slot none pass phy_type = when_ready err_not_ready (pure err_param)
mw_ap_cfg_set slot (some ssid) pass phy_type = when_ready err_not_ready (
    if leb mw_num_cfg_slots slot
    then pure err_param
    else request cmd_ap_cfg (ap_cfg slot phy_type ssid pass) command_tout)

-- The error code, and on success the strings' places and the PHY type.
unfoldable pub mw_ap_cfg_get : ℕ → Act (ℕ × Option (ℕ × ℕ × ℕ))
mw_ap_cfg_get slot =
    when_ready (err_not_ready, none)
      (if leb mw_num_cfg_slots slot then pure (err_param, none) else (do
        fill_command cmd_ap_cfg_get (slot ∷ [])
        on_reply command_tout (err_general, none)
            (do
              phy_type ← byte_at (data_offset + 1)
              pure (
                mw_err_none,
                some (data_offset + 2, data_offset + 2 + mw_ssid_maxlen, phy_type),
              ))))

-- `ip`: the 20 bytes of a struct mw_ip_cfg.
unfoldable pub mw_ip_cfg_set : ℕ → List ℕ → Act ℕ
mw_ip_cfg_set slot ip = when_ready err_not_ready (
    if leb mw_num_cfg_slots slot
    then pure err_param
    else request cmd_ip_cfg (slot ∷ 0 ∷ 0 ∷ 0 ∷ ip) command_tout)

-- `cmd->ip_cfg.ip`.
abbrev pub ip_offset : ℕ
ip_offset = data_offset + 4

unfoldable pub mw_ip_cfg_get : ℕ → Act (ℕ × Option ℕ)
mw_ip_cfg_get slot =
    when_ready (err_not_ready, none)
      (do
        fill_command cmd_ip_cfg_get (slot ∷ [])
        on_reply command_tout (err_general, none) (pure (mw_err_none, some ip_offset)))

unfoldable pub mw_ip_current : Act (ℕ × Option ℕ)
mw_ip_current =
    when_ready (err_not_ready, none)
      (do
        fill_command cmd_ip_current []
        on_reply command_tout (err_general, none) (pure (mw_err_none, some ip_offset)))

-- The number of access points, where their data begins, and the length that is returned; `none` for the
-- -1 of an error. A reply without data has length -1 too.
unfoldable pub mw_ap_scan : ℕ → Act (Option (ℕ × ℕ × Option ℕ))
mw_ap_scan phy_type = when_ready none (do
  fill_command cmd_ap_scan (phy_type ∷ [])
  on_reply scan_tout none (do
    aps ← byte_at data_offset
    len ← reply_len
    pure (some (aps, data_offset + 1, (if len == 0 then none else some (len - 1))))))

unfoldable pub mw_ap_assoc : ℕ → Act ℕ
mw_ap_assoc slot = when_ready err_not_ready (request cmd_ap_join (slot ∷ []) assoc_tout)

unfoldable pub mw_ap_disassoc : Act ℕ
mw_ap_disassoc = when_ready err_not_ready (request cmd_ap_leave [] command_tout)

unfoldable pub mw_def_ap_cfg : ℕ → Act ℕ
mw_def_ap_cfg slot = when_ready err_not_ready (request cmd_def_ap_cfg (slot ∷ []) command_tout)

-- `none` for -1. There is no test of `mw_ready`.
unfoldable pub mw_def_ap_cfg_get : Act (Option ℕ)
mw_def_ap_cfg_get = do
  fill_command cmd_def_ap_cfg_get []
  on_reply command_tout none (byte_at data_offset >>= λ slot. pure (some slot))
