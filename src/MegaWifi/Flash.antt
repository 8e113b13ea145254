-- ===== src/MegaWifi/Flash.antt =====
-- The module's flash memory, random numbers and stored settings in src/mw/megawifi.c.
use mega_drive_megawifi_appl.Base.{
  ℕ, ◌+◌, not, ◌||◌, Option, none, some, List, [], ◌∷◌, ◌++◌, leb, ltb, if◌then◌else◌, done,
}
use mega_drive_megawifi_appl.AppleMidi.{mw_err_none}
use mega_drive_megawifi_appl.MegaWifi.{
  Act, ◌>>=◌, ◌>>◌, pure, byte_at, word_at, data_offset, be16, be32, fill_command, mw_cmd_send,
  when_ready, on_reply, request, err_general, err_not_ready, command_tout,
}
use mega_drive_megawifi_appl.MegaWifi.Codes.{
  MwCommand, cmd_flash_id, cmd_flash_erase, cmd_flash_write, cmd_flash_read, cmd_hrng_get,
  cmd_bssid_get, cmd_gamertag_set, cmd_gamertag_get, cmd_factory_reset, cmd_sleep, cmd_nv_cfg_save,
  cmd_wifi_adv_get, cmd_wifi_adv_set,
}

-- The manufacturer and the device.
unfoldable pub mw_flash_id_get : Act (ℕ × Option (ℕ × ℕ))
mw_flash_id_get =
    when_ready (err_not_ready, none)
      (do
        fill_command cmd_flash_id []
        on_reply command_tout (err_general, none)
            (do
              manufacturer ← byte_at (data_offset + 2)
              device ← word_at data_offset
              pure (mw_err_none, some (manufacturer, device))))

unfoldable pub mw_flash_sector_erase : ℕ → Act ℕ
mw_flash_sector_erase sect =
    when_ready err_not_ready (request cmd_flash_erase (be16 sect) command_tout)

unfoldable pub mw_flash_write : ℕ → List ℕ → Act ℕ
mw_flash_write addr bytes =
    when_ready err_not_ready (request cmd_flash_write (be32 addr ++ bytes) command_tout)

-- A command whose reply is its data, in the command buffer; `none` for NULL.
abbrev pub fetch : MwCommand → List ℕ → Act (Option ℕ)
fetch c payload =
    when_ready none
      (do fill_command c payload; on_reply command_tout none (pure (some data_offset)))

unfoldable pub mw_flash_read : ℕ → ℕ → Act (Option ℕ)
mw_flash_read addr len d =
    if not d.mw_ready || ltb d.buf_len len
    then done (none, d)
    else fetch cmd_flash_read (be32 addr ++ be16 len) d

unfoldable pub mw_hrng_get : ℕ → Act (Option ℕ)
mw_hrng_get rnd_len = fetch cmd_hrng_get (be16 rnd_len)

abbrev pub mw_if_max : ℕ
mw_if_max = 2

unfoldable pub mw_bssid_get : ℕ → Act (Option ℕ)
mw_bssid_get interface_type d =
    if not d.mw_ready || leb mw_if_max interface_type
    then done (none, d)
    else fetch cmd_bssid_get (interface_type ∷ []) d

-- `gamertag`: the 964 bytes of a struct mw_gamertag.
unfoldable pub mw_gamertag_set : ℕ → List ℕ → Act ℕ
mw_gamertag_set slot gamertag =
    when_ready err_not_ready (request cmd_gamertag_set (slot ∷ 0 ∷ 0 ∷ 0 ∷ gamertag) command_tout)

unfoldable pub mw_gamertag_get : ℕ → Act (Option ℕ)
mw_gamertag_get slot = fetch cmd_gamertag_get (slot ∷ [])

unfoldable pub mw_factory_settings : Act ℕ
mw_factory_settings = when_ready err_not_ready (request cmd_factory_reset [] command_tout)

-- There is no test of `mw_ready`, and no reply is awaited.
unfoldable pub mw_power_off : Act (Unit {0})
mw_power_off = fill_command cmd_sleep [] >> mw_cmd_send

unfoldable pub mw_cfg_save : Act ℕ
mw_cfg_save = when_ready err_not_ready (request cmd_nv_cfg_save [] command_tout)

unfoldable pub mw_wifi_adv_cfg_get : Act (Option ℕ)
mw_wifi_adv_cfg_get = fetch cmd_wifi_adv_get []

-- `wifi`: the 24 bytes of a struct mw_wifi_adv_cfg.
unfoldable pub mw_wifi_adv_cfg_set : List ℕ → Act ℕ
mw_wifi_adv_cfg_set wifi = when_ready err_not_ready (request cmd_wifi_adv_set wifi command_tout)
