-- ===== src/MegaWifi/Sockets.antt =====
-- Sockets in src/mw/megawifi.c.
use mega_drive_megawifi_appl.Base.{
  ℕ, ◌+◌, Option, none, some, List, [], ◌∷◌, ◌++◌, length, drop, replicate, ltb, if◌then◌else◌,
  done, fault, dead, spent,
}
use mega_drive_megawifi_appl.AppleMidi.{mw_err_none, c_string}
use mega_drive_megawifi_appl.MegaWifi.{
  Act, ◌>>=◌, ◌>>◌, pure, put, byte_at, data_offset, be16, fill_command, when_ready, on_reply,
  err_general, err_not_ready, err_param, command_tout, ms_to_frames, enable_ch, disable_ch,
}
use mega_drive_megawifi_appl.MegaWifi.Codes.{
  MwCommand, code, cmd_tcp_con, cmd_udp_set, cmd_close, cmd_tcp_bind, cmd_sock_stat, cmd_sys_stat,
}

abbrev pub mw_max_sock : ℕ
mw_max_sock = 3

abbrev pub connect_tout : ℕ
connect_tout = ms_to_frames 10000

-- The fields of struct mw_msg_in_addr, in the command buffer.
abbrev pub src_port_offset : ℕ
src_port_offset = data_offset + 6

abbrev pub channel_offset : ℕ
channel_offset = data_offset + 12

abbrev pub dst_addr_offset : ℕ
dst_addr_offset = data_offset + 13

-- `strcpy` from a pointer that may be NULL, which faults.
abbrev pub str_copy : ℕ → Option (List ℕ) → Act (Unit {0})
str_copy at none d = fault
str_copy at (some str) d = put at (str ++ (0 ∷ [])) d

abbrev pub str_copy_given : ℕ → Option (List ℕ) → Act (Unit {0})
str_copy_given at none = pure tt
str_copy_given at (some str) = put at (str ++ (0 ∷ []))

-- `strlen` of the string that begins at an offset of the command buffer.
unfoldable pub str_len_at : ℕ → Act ℕ
str_len_at at d = elim (c_string (drop at d.cmd)) [
  | done str ↦ done (length str, d)
  | fault ↦ fault
  | dead ↦ dead
  | spent ↦ spent
]

-- The second copy of both strings, if neither is NULL.
abbrev pub copy_addr : Option (List ℕ) → Option (List ℕ) → Act (Unit {0})
copy_addr none dst_port = pure tt
copy_addr (some addr) none = pure tt
copy_addr (some addr) (some port) =
    put dst_addr_offset (addr ++ (0 ∷ [])) >> put data_offset (port ++ (0 ∷ []))

-- `dst_addr`, `dst_port`, `src_port`; the length of the command's data.
unfoldable pub fill_addr : Option (List ℕ) → Option (List ℕ) → Option (List ℕ) → Act ℕ
fill_addr dst_addr dst_port src_port = do
  put data_offset (replicate 13 0)
  put dst_addr_offset (0 ∷ [])
  str_copy data_offset dst_port
  str_copy_given src_port_offset src_port
  copy_addr dst_addr dst_port
  len ← str_len_at dst_addr_offset
  pure (6 + 6 + 1 + len + 1)

-- What `mw_tcp_connect` and `mw_udp_set` share.
abbrev pub open_socket :
    MwCommand → ℕ → ℕ → Option (List ℕ) → Option (List ℕ) → Option (List ℕ) → Act ℕ
open_socket c tout ch dst_addr dst_port src_port = when_ready err_not_ready (
    if ltb mw_max_sock ch then pure err_param else (do
      put 0 (be16 (code c))
      len ← fill_addr dst_addr dst_port src_port
      put 2 (be16 len)
      put channel_offset (ch ∷ [])
      on_reply tout err_general (enable_ch ch >> pure mw_err_none)))

unfoldable pub mw_tcp_connect : ℕ → Option (List ℕ) → Option (List ℕ) → Option (List ℕ) → Act ℕ
mw_tcp_connect = open_socket cmd_tcp_con connect_tout

unfoldable pub mw_udp_set : ℕ → Option (List ℕ) → Option (List ℕ) → Option (List ℕ) → Act ℕ
mw_udp_set = open_socket cmd_udp_set command_tout

unfoldable pub mw_close : ℕ → Act ℕ
mw_close ch = when_ready err_not_ready (do
  fill_command cmd_close (ch ∷ [])
  on_reply command_tout err_general (disable_ch ch >> pure mw_err_none))

-- struct mw_msg_bind: four reserved bytes, the port and the channel.
unfoldable pub mw_tcp_bind : ℕ → ℕ → Act ℕ
mw_tcp_bind ch port = when_ready err_not_ready (do
  fill_command cmd_tcp_bind (0 ∷ 0 ∷ 0 ∷ 0 ∷ (be16 port ++ (ch ∷ [])))
  on_reply command_tout err_general (enable_ch ch >> pure mw_err_none))

unfoldable pub mw_sys_stat_get : Act (Option ℕ)
mw_sys_stat_get =
    when_ready none
      (do fill_command cmd_sys_stat []; on_reply command_tout none (pure (some data_offset)))

-- `none` for -1.
unfoldable pub mw_sock_stat_get : ℕ → Act (Option ℕ)
mw_sock_stat_get ch = when_ready none (do
  fill_command cmd_sock_stat (ch ∷ [])
  on_reply command_tout none (byte_at data_offset >>= λ stat. pure (some stat)))
