-- ===== src/MegaWifi/Services.antt =====
-- Calls that carry strings, the clock and the firmware in src/mw/megawifi.c.
use mega_drive_megawifi_appl.Base.{
  ℕ, zero, suc, ◌+◌, ◌-◌, not, Bool, false, Option, none, some, List, [], ◌∷◌, ◌++◌, length, ◌==◌,
  if◌then◌else◌,
}
use mega_drive_megawifi_appl.AppleMidi.{mw_err_none}
use mega_drive_megawifi_appl.MegaWifi.{
  Act, ◌>>=◌, ◌>>◌, pure, put, byte_at, dword_at, reply_len, data_offset, fill_command, when_ready,
  on_reply, request, err_general, err_not_ready, err_param, command_tout, ms_to_frames,
}
use mega_drive_megawifi_appl.MegaWifi.Codes.{
  MwCommand, cmd_sntp_cfg, cmd_sntp_cfg_get, cmd_datetime, cmd_log, cmd_server_url_get,
  cmd_server_url_set, cmd_upgrade_perform,
}
use mega_drive_megawifi_appl.MegaWifi.Sockets.{str_len_at}

-- A payload of a string that is neither NULL nor empty, sent with its NUL.
unfoldable pub string_based_cmd : MwCommand → Option (List ℕ) → ℕ → Act ℕ
string_based_cmd c none tout = when_ready err_not_ready (pure err_param)
string_based_cmd c (some []) tout = when_ready err_not_ready (pure err_param)
string_based_cmd c (some (b ∷ bs)) tout =
    when_ready err_not_ready (request c (b ∷ (bs ++ (0 ∷ []))) tout)

unfoldable pub mw_def_server_set : Option (List ℕ) → Act ℕ
mw_def_server_set server_url = string_based_cmd cmd_server_url_set server_url command_tout

unfoldable pub mw_log : Option (List ℕ) → Act ℕ
mw_log msg = string_based_cmd cmd_log msg command_tout

unfoldable pub mw_def_server_get : Act (Option ℕ)
mw_def_server_get =
    when_ready none
      (do fill_command cmd_server_url_get []; on_reply command_tout none (pure (some data_offset)))

-- At most `n` servers, up to the first that is NULL or empty, each with its NUL.
abbrev pub servers_text : ℕ → List (Option (List ℕ)) → List ℕ
servers_text zero servers = []
servers_text (suc n) [] = []
servers_text (suc n) (none ∷ servers) = []
servers_text (suc n) (some [] ∷ servers) = []
servers_text (suc n) (some (b ∷ bs) ∷ servers) = b ∷ (bs ++ (0 ∷ servers_text n servers))

unfoldable pub mw_sntp_cfg_set : List ℕ → List (Option (List ℕ)) → Act ℕ
mw_sntp_cfg_set tz_str servers =
    when_ready err_not_ready
      (request cmd_sntp_cfg (tz_str ++ (0 ∷ (servers_text 3 servers ++ (0 ∷ [])))) command_tout)

-- The loop of `tokens_get`: where the tokens begin, in order, the one that ended the loop last, and
-- whether that one has text. `left` is `token_max - 1 - i`.
unfoldable pub token_rounds : ℕ → ℕ → Act (List ℕ × Bool)
token_rounds zero at = byte_at at >>= λ b. pure (at ∷ [], not (b == 0))
token_rounds (suc left) at =
    let more = λ (len : ℕ). token_rounds left (at + len + 1) in
    byte_at at >>= λ b.
    if b == 0
    then pure (at ∷ [], false)
    else (str_len_at at >>= more >>= λ found. pure (at ∷ found.0, found.1))

-- The tokens' places, and their number.
unfoldable pub tokens_get : ℕ → ℕ → Act (List ℕ × ℕ)
tokens_get at token_max = do
  found ← token_rounds (token_max - 1) at
  pure (found.0, (if found.1 then length found.0 else length found.0 - 1))

-- The places of the time zone and of the servers.
unfoldable pub mw_sntp_cfg_get : Act (ℕ × List ℕ)
mw_sntp_cfg_get =
    when_ready (err_not_ready, [])
      (do
        fill_command cmd_sntp_cfg_get []
        on_reply command_tout (err_general, [])
            (tokens_get data_offset 4 >>= λ found. pure (mw_err_none, found.0)))

-- The two halves of the binary time, and the place of the text, which is ended behind the reply.
unfoldable pub mw_date_time_get : Act (Option (ℕ × ℕ × ℕ))
mw_date_time_get = when_ready none (do
  fill_command cmd_datetime []
  on_reply command_tout none (do
    high ← dword_at data_offset
    low ← dword_at (data_offset + 4)
    len ← reply_len
    put (data_offset + len) (0 ∷ [])
    pure (some (high, low, data_offset + 8))))

abbrev pub upgrade_tout : ℕ
upgrade_tout = ms_to_frames 180000

unfoldable pub mw_fw_upgrade : List ℕ → Act ℕ
mw_fw_upgrade name =
    when_ready err_not_ready (request cmd_upgrade_perform (name ++ (0 ∷ [])) upgrade_tout)
