-- ===== src/MegaWifi/Http.antt =====
-- HTTP requests in src/mw/megawifi.c.
use mega_drive_megawifi_appl.Base.{
  ℕ, ◌+◌, Bool, true, false, not, ◌&&◌, Option, none, some, List, [], ◌∷◌, ◌++◌, leb, ◌==◌,
  if◌then◌else◌,
}
use mega_drive_megawifi_appl.AppleMidi.{mw_err_none}
use mega_drive_megawifi_appl.MegaWifi.{
  Act, ◌>>=◌, ◌>>◌, pure, word_at, dword_at, data_offset, be16, be32, fill_command, mw_command,
  when_ready, on_reply, request, err_general, err_not_ready, err_param, command_tout, ms_to_frames,
  enable_ch, disable_ch,
}
use mega_drive_megawifi_appl.MegaWifi.Codes.{
  cmd_http_url_set, cmd_http_method_set, cmd_http_hdr_add, cmd_http_hdr_del, cmd_http_open,
  cmd_http_finish, cmd_http_cert_query, cmd_http_cert_set,
}
use mega_drive_megawifi_appl.MegaWifi.Transfer.{mw_send_sync}
use mega_drive_megawifi_appl.MegaWifi.Services.{string_based_cmd}

-- LSD_MAX_CH - 1.
abbrev pub mw_http_ch : ℕ
mw_http_ch = 3

abbrev pub http_open_tout : ℕ
http_open_tout = ms_to_frames 10000

abbrev pub mw_http_method_max : ℕ
mw_http_method_max = 10

unfoldable pub mw_http_url_set : Option (List ℕ) → Act ℕ
mw_http_url_set url = string_based_cmd cmd_http_url_set url command_tout

unfoldable pub mw_http_method_set : ℕ → Act ℕ
mw_http_method_set method = when_ready err_not_ready (
    if leb mw_http_method_max method
    then pure err_param
    else request cmd_http_method_set (method ∷ []) command_tout)

-- The two strings, each with its NUL; `none` if one is NULL or empty.
abbrev pub header_text : Option (List ℕ) → Option (List ℕ) → Option (List ℕ)
header_text (some (k ∷ ks)) (some (v ∷ vs)) = some (k ∷ (ks ++ (0 ∷ v ∷ (vs ++ (0 ∷ [])))))
header_text (some (k ∷ ks)) (some []) = none
header_text (some (k ∷ ks)) none = none
header_text (some []) value = none
header_text none value = none

unfoldable pub mw_http_header_add : Option (List ℕ) → Option (List ℕ) → Act ℕ
mw_http_header_add key value = when_ready err_not_ready (elim (header_text key value) [
  | none ↦ pure err_param
  | some text ↦ request cmd_http_hdr_add text command_tout
])

unfoldable pub mw_http_header_del : Option (List ℕ) → Act ℕ
mw_http_header_del key = string_based_cmd cmd_http_hdr_del key command_tout

unfoldable pub mw_http_open : ℕ → Act ℕ
mw_http_open content_len = when_ready err_not_ready (do
  fill_command cmd_http_open (be32 content_len)
  on_reply http_open_tout err_general (enable_ch mw_http_ch >> pure mw_err_none))

-- `given`: whether `content_len` is no null pointer. The status or the error code, and what is written
-- through the pointer.
unfoldable pub mw_http_finish : Bool → ℕ → Act (ℕ × Option ℕ)
mw_http_finish given tout =
    when_ready (err_not_ready, none)
      (if not given then pure (err_param, none) else (do
        fill_command cmd_http_finish []
        on_reply tout (err_general, none)
            (do
              content_len ← dword_at data_offset
              status ← word_at (data_offset + 4)
              pure (status, some content_len))))

unfoldable pub mw_http_cert_query : Act ℕ
mw_http_cert_query =
    when_ready 0xFFFFFFFF (do
      fill_command cmd_http_cert_query []
      on_reply command_tout 0xFFFFFFF (dword_at data_offset))

abbrev is_missing : Option (List ℕ) → Bool
is_missing none = true
is_missing (some bytes) = false

abbrev cert_bytes : Option (List ℕ) → List ℕ
cert_bytes none = []
cert_bytes (some bytes) = bytes

-- `none` for a null certificate, which has no bytes; else `cert` has `cert_len` bytes.
unfoldable pub mw_http_cert_set : ℕ → Option (List ℕ) → ℕ → Act ℕ
mw_http_cert_set cert_hash cert cert_len = when_ready err_not_ready (do
  let missing = is_missing cert
  if missing && not (cert_len == 0) then pure err_param else (do
    fill_command cmd_http_cert_set (be32 cert_hash ++ be16 cert_len)
    on_reply command_tout err_general (do
      enable_ch mw_http_ch
      err ← mw_send_sync mw_http_ch (cert_bytes cert) 0
      disable_ch mw_http_ch
      pure mw_err_none)))

unfoldable pub mw_http_cleanup : Act ℕ
mw_http_cleanup = when_ready err_not_ready (do
  fill_command cmd_http_finish []
  err ← mw_command command_tout
  disable_ch mw_http_ch
  if err == mw_err_none then pure mw_err_none else pure err_general)
