-- ===== src/MegaWifi/Game.antt =====
-- The game API in src/mw/megawifi.c.
use mega_drive_megawifi_appl.Base.{
  ℕ, ◌+◌, ◌-◌, ◌%◌, ◌^◌, not, ◌&&◌, Option, none, some, List, [], ◌∷◌, length, take, ◌==◌,
  if◌then◌else◌,
}
use mega_drive_megawifi_appl.Util.Concat.{concat_strings, concat_kv_pairs}
use mega_drive_megawifi_appl.AppleMidi.{mw_err_none}
use mega_drive_megawifi_appl.MegaWifi.{
  Act, ◌>>=◌, ◌>>◌, pure, put, word_at, dword_at, data_offset, be16, when_ready, on_reply,
  err_general, err_not_ready, err_param, command_tout, enable_ch,
}
use mega_drive_megawifi_appl.MegaWifi.Codes.{
  MwCommand, code, cmd_game_endpoint_set, cmd_game_keyval_add, cmd_game_request,
}
use mega_drive_megawifi_appl.MegaWifi.Http.{mw_http_ch}

abbrev pub mw_cmd_max_buflen : ℕ
mw_cmd_max_buflen = 508

abbrev pub Pairs : Type 0
Pairs = List (Option (List ℕ) × Option (List ℕ))

-- The strings stand in the buffer already; a NUL is put behind them, and the head is filled in.
abbrev pub closed_command : MwCommand → ℕ → Act (Unit {0})
closed_command c pos =
    put (data_offset + pos) (0 ∷ []) >> put 0 (be16 (code c)) >> put 2 (be16 (pos + 1))

unfoldable pub mw_ga_endpoint_set : Option (List ℕ) → Option (List ℕ) → Act ℕ
mw_ga_endpoint_set endpoint priv_key = when_ready err_not_ready (do
  let found = concat_strings (endpoint ∷ priv_key ∷ []) (mw_cmd_max_buflen - 1)
  put data_offset (found.1)
  if found.0 == 0 then pure err_param else (do
    closed_command cmd_game_endpoint_set (found.0)
    on_reply command_tout err_general (pure mw_err_none)))

-- The number of pairs, here the length of the list, is handed on as a `uint8_t`.
unfoldable pub mw_ga_key_value_add : Pairs → Act ℕ
mw_ga_key_value_add pairs = when_ready err_not_ready (do
  let found = concat_kv_pairs (take (length pairs % 2 ^ 8) pairs) (mw_cmd_max_buflen - 1)
  put data_offset (found.1)
  if found.0 == 0 && not (length pairs == 0) then pure err_param else (do
    closed_command cmd_game_keyval_add (found.0)
    on_reply command_tout err_general (pure mw_err_none)))

-- `cmd->ga_request.req`.
abbrev pub req_offset : ℕ
req_offset = data_offset + 3

-- The status or the error code, and the content's length.
unfoldable pub mw_ga_request : ℕ → List (Option (List ℕ)) → Pairs → ℕ → Act (ℕ × Option ℕ)
mw_ga_request method paths pairs tout =
    when_ready (err_not_ready, none)
      (do
        let path = concat_strings paths (mw_cmd_max_buflen - 4)
        put req_offset (path.1)
        if path.0 == 0 then pure (err_param, none) else (do
          let found = concat_kv_pairs pairs (mw_cmd_max_buflen - 4 - path.0)
          put (req_offset + path.0) (found.1)
          if found.0 == 0 && not (length pairs == 0) then pure (err_param, none) else (do
            let pos = path.0 + found.0
            put (req_offset + pos) (0 ∷ [])
            put data_offset (method ∷ length paths ∷ length pairs ∷ [])
            put 0 (be16 (code cmd_game_request))
            put 2 (be16 (pos + 1 + 3))
            on_reply tout (err_general, none)
                (do
                  enable_ch mw_http_ch
                  content_len ← dword_at data_offset
                  status ← word_at (data_offset + 4)
                  pure (status, some content_len)))))
