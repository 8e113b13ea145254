-- ===== src/AppleMidi.antt =====
-- src/applemidi.c and src/applemidi.h: the session packets of Apple's network MIDI protocol. A packet
-- union is the list of its bytes (`pack(1)`, big-endian as on the 68000), and `buffer` the C object
-- that the packet of `length` bytes lies at the start of. SGDK's text calls are logged.
pub mod Packets
pub mod Invitation
pub mod Sync
pub mod Dispatch
use mega_drive_megawifi_appl.Base.{
  ℕ, zero, suc, ◌+◌, ◌*◌, ◌%◌, ◌^◌, Bool, false, not, List, [], ◌∷◌, ◌++◌, length, get_or, set,
  take, drop, replicate, ltb, ◌==◌, if◌then◌else◌, Outcome, done, fault, ◌>>=◌, read,
}
use mega_drive_megawifi_appl.Machine.{Machine, draw}
use mega_drive_megawifi_appl.Driver.{Driver}
use mega_drive_megawifi_appl.Mediator.Send.{mediator_send}
use mega_drive_megawifi_appl.Midi.{midi_emit}
use mega_drive_megawifi_appl.Rtp.{process_rtp_midi_packet}

-- Names from src/applemidi.h.
abbrev pub err_base : ℕ
err_base = 100

abbrev pub mw_err_none : ℕ
mw_err_none = 0

abbrev pub err_invalid_apple_midi_signature : ℕ
err_invalid_apple_midi_signature = err_base

abbrev pub err_apple_midi_exch_pkt_too_small : ℕ
err_apple_midi_exch_pkt_too_small = err_base + 2

abbrev pub err_invalid_timesync_pkt_length : ℕ
err_invalid_timesync_pkt_length = err_base + 3

abbrev pub ch_control_port : ℕ
ch_control_port = 1

abbrev pub ch_midi_port : ℕ
ch_midi_port = 2

abbrev pub name_len : ℕ
name_len = 16

abbrev pub exchange_packet_len : ℕ
exchange_packet_len = 16 + name_len

abbrev pub apple_midi_exch_pkt_min_len : ℕ
apple_midi_exch_pkt_min_len = 17

abbrev pub timesync_pkt_len : ℕ
timesync_pkt_len = 9 * 4

abbrev pub apple_midi_signature : ℕ
apple_midi_signature = 0xFFFF

-- MEGADRIVE_SSRC 0x9E915150, as the bytes of a `u32` field.
abbrev pub megadrive_ssrc : List ℕ
megadrive_ssrc = 0x9E ∷ 0x91 ∷ 0x51 ∷ 0x50 ∷ []

-- The two bytes of a `u16` at an offset.
abbrev pub u16_at : List ℕ → ℕ → ℕ
u16_at packet at = get_or packet at 0 * 256 + get_or packet (at + 1) 0

abbrev pub u32_at : List ℕ → ℕ → List ℕ
u32_at packet at = take 4 (drop at packet)

-- The fields of the unions by their offsets; the rest of the packet stays.
abbrev pub set_u32 : List ℕ → ℕ → List ℕ → List ℕ
set_u32 packet at bytes = take at packet ++ (bytes ++ drop (at + 4) packet)

-- `while (index < n) { packet->byte[index] = buffer[index]; index++; }`, `n` rounds being left.
unfoldable pub copy_bytes : ℕ → List ℕ → ℕ → Outcome (List ℕ)
copy_bytes zero buffer index = done []
copy_bytes (suc n) buffer index = do
  b ← read buffer index
  bs ← copy_bytes n buffer (index + 1)
  done (b ∷ bs)

-- The error code, and the packet where there is none.
abbrev pub Unpacked : Type 0
Unpacked = ℕ × List ℕ

abbrev signed_packet : List ℕ → Unpacked
signed_packet packet =
    if u16_at packet 0 == apple_midi_signature
    then (mw_err_none, packet)
    else (err_invalid_apple_midi_signature, [])

unfoldable pub unpack_invitation : List ℕ → ℕ → Outcome Unpacked
unpack_invitation buffer len =
    if ltb len apple_midi_exch_pkt_min_len
    then done (err_apple_midi_exch_pkt_too_small, [])
    else (do packet ← copy_bytes exchange_packet_len buffer 0; done (signed_packet packet))

-- signature, command "OK", version, initToken, senderSSRC, name "MegaDrive".
unfoldable pub pack_invitation_response : List ℕ → List ℕ
pack_invitation_response init_token =
    (0xFF ∷ 0xFF ∷ b'O' ∷ b'K' ∷ 0 ∷ 0 ∷ 0 ∷ 2 ∷ [])
    ++ (init_token
        ++ (megadrive_ssrc
            ++ (b'M' ∷ b'e' ∷ b'g' ∷ b'a' ∷ b'D' ∷ b'r' ∷ b'i' ∷ b'v' ∷ b'e' ∷ replicate 7 0)))

unfoldable pub unpack_timestamp_sync : List ℕ → ℕ → Outcome Unpacked
unpack_timestamp_sync buffer len =
    if len == timesync_pkt_len
    then (do packet ← copy_bytes timesync_pkt_len buffer 0; done (signed_packet packet))
    else done (err_invalid_timesync_pkt_length, [])

-- `packet.count`, and the packet that is sent back.
abbrev pub sync_count : List ℕ → ℕ
sync_count packet = get_or packet 8 0

unfoldable pub answer_timestamp_sync : List ℕ → List ℕ
answer_timestamp_sync packet =
    set_u32 (set_u32 (set_u32 (set packet 8 1) 20 (replicate 4 0)) 24 (replicate 4 0)) 4
      megadrive_ssrc

unfoldable pub has_apple_midi_signature : List ℕ → ℕ → Outcome Bool
has_apple_midi_signature buffer len = if ltb len 2 then done false else (do
  high ← read buffer 0
  low ← read buffer 1
  done (high * 256 + low == apple_midi_signature))

-- `command[0] == first && command[1] == second`; the second byte is read if the first one fits.
unfoldable pub is_command : ℕ → ℕ → List ℕ → ℕ → Outcome Bool
is_command first second buffer command = do
  a ← read buffer command
  if a == first then (do b ← read buffer (command + 1); done (b == second)) else done false

abbrev pub is_invitation_command : List ℕ → ℕ → Outcome Bool
is_invitation_command = is_command b'I' b'N'

abbrev pub is_timestamp_sync_command : List ℕ → ℕ → Outcome Bool
is_timestamp_sync_command = is_command b'C' b'K'

-- What `%s` reads: the bytes up to the first zero.
unfoldable pub c_string : List ℕ → Outcome (List ℕ)
c_string [] = fault
c_string (b ∷ bs) =
    let rest = c_string bs in if b == 0 then done [] else (do text ← rest; done (b ∷ text))

module _ {S : Type 0} (driver : Driver S) where
  unfoldable pub send_invite_response : ℕ → List ℕ → Machine S → Outcome (Machine S)
  send_invite_response ch invite =
      mediator_send driver ch (pack_invitation_response (u32_at invite 8))

  unfoldable pub send_timestamp_sync : List ℕ → Machine S → ℕ × Machine S
  send_timestamp_sync packet m =
      let (err, s) = driver.send_sync ch_midi_port packet 0 m.driver in
      (err, record m { driver = s })

  -- The end of `processInvitation`, once the packet is unpacked.
  unfoldable pub acknowledge : ℕ → List ℕ → Machine S → Outcome (ℕ × Machine S)
  acknowledge ch packet m = do
    m' ← send_invite_response ch packet (draw "Invite recv'd on UDP ch %d:" (ch ∷ []) 1 (2 + ch) m)
    done (mw_err_none, draw "Ack'd" [] 28 (2 + ch) m')

  unfoldable pub process_invitation : ℕ → List ℕ → ℕ → Machine S → Outcome (ℕ × Machine S)
  process_invitation ch buffer len m = do
    (err, packet) ← unpack_invitation buffer len
    if err == mw_err_none then acknowledge ch packet m else done (err, m)

  -- `sprintf(text, …, timestampSyncCount++)` and the draw.
  abbrev count_sync : Machine S → Machine S
  count_sync m =
      let shown : Machine S = draw "Timestamp Syncs: %d" (m.timestamp_sync_count ∷ []) 1 5 m in
      record shown { timestamp_sync_count = (m.timestamp_sync_count + 1) % 2 ^ 16 }

  unfoldable pub reply_timestamp_sync : List ℕ → Machine S → ℕ × Machine S
  reply_timestamp_sync packet m =
      if sync_count packet == 0
      then (let (err, m') = send_timestamp_sync (answer_timestamp_sync packet) m in
          if err == mw_err_none then (mw_err_none, count_sync m') else (err, m'))
      else (mw_err_none, m)

  unfoldable pub process_timestamp_sync : List ℕ → ℕ → Machine S → Outcome (ℕ × Machine S)
  process_timestamp_sync buffer len m = do
    (err, packet) ← unpack_timestamp_sync buffer len
    if err == mw_err_none then done (reply_timestamp_sync packet m) else done (err, m)

  unfoldable pub process_session_control_packet : List ℕ → ℕ → Machine S → Outcome (ℕ × Machine S)
  process_session_control_packet buffer len m = do
    signed ← has_apple_midi_signature buffer len
    if not signed then done (err_invalid_apple_midi_signature, m) else (do
      invitation ← is_invitation_command buffer 2
      if invitation then process_invitation ch_control_port buffer len m else done (mw_err_none, m))

  -- `sprintf` writes its 14 characters, the string and the end byte into `char text[100]`.
  unfoldable pub show_unknown_event : List ℕ → Machine S → Outcome (ℕ × Machine S)
  show_unknown_event buffer m = do
    text ← c_string (drop 2 buffer)
    if ltb 100 (14 + length text + 1)
        then fault
        else done (mw_err_none, draw "Unknown event %s" text 1 14 m)

  -- A packet with the signature on the MIDI port, by its command.
  unfoldable pub process_session_midi_command : List ℕ → ℕ → Machine S → Outcome (ℕ × Machine S)
  process_session_midi_command buffer len m = do
    invitation ← is_invitation_command buffer 2
    if invitation then process_invitation ch_midi_port buffer len m else (do
      sync ← is_timestamp_sync_command buffer 2
      if sync then process_timestamp_sync buffer len m else show_unknown_event buffer m)

  unfoldable pub process_session_midi_packet : List ℕ → ℕ → Machine S → Outcome (ℕ × Machine S)
  process_session_midi_packet buffer len m = do
    signed ← has_apple_midi_signature buffer len
    if signed
        then process_session_midi_command buffer len m
        else process_rtp_midi_packet midi_emit buffer len m
