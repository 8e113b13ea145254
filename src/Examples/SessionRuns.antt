-- ===== src/Examples/SessionRuns.antt =====
-- src/applemidi.c and src/mediator.c against a driver that plays back one packet.
use mega_drive_megawifi_appl.Base.{
  ℕ, ◌≡◌, refl, inl, List, [], ◌∷◌, ◌++◌, replicate, done, arith, iterate,
}
use mega_drive_megawifi_appl.Machine.{Machine, Draw, draw, draw_text, clear_text_area}
use mega_drive_megawifi_appl.Midi.{midi_emit}
use mega_drive_megawifi_appl.Midi.Rows.{RowsOk}
use mega_drive_megawifi_appl.Rtp.{
  process_rtp_midi_packet, is_long_header, four_bit_midi_length, twelve_bit_midi_length,
  bytes_to_emit, emit_bytes, emit_midi_event, event_round, command_round,
}
use mega_drive_megawifi_appl.Driver.{Driver}
use mega_drive_megawifi_appl.Mediator.{mediator_receive}
use mega_drive_megawifi_appl.Mediator.Receive.{mediator_receive-RowsOk}
use mega_drive_megawifi_appl.AppleMidi.{
  process_session_control_packet, process_session_midi_packet, has_apple_midi_signature,
}
use mega_drive_megawifi_appl.AppleMidi.Packets.{TimeSync, IsTimeSync, time_sync, invitation}
use mega_drive_megawifi_appl.AppleMidi.Invitation.{
  process_session_packet-invitation, invitation_answered,
}
use mega_drive_megawifi_appl.AppleMidi.Sync.{process_session_midi_packet-time_sync, sync_answered}
use mega_drive_megawifi_appl.AppleMidi.Dispatch.{process_session_packet-unknown}

-- The packets sent, latest first.
abbrev Sent : Type 0
Sent = List (ℕ × List ℕ)

-- Takes every packet, and delivers one byte on channel 5.
abbrev quiet : Driver Sent
quiet = record {
  send_sync = λ ch bytes tout sent. (0, (ch, bytes) ∷ sent);
  recv_sync = λ size tout sent. (0, record { ch = 5; buffer = 1 ∷ []; len = 1 }, sent);
}

abbrev boot : Machine Sent
boot = record { y = 7; timestamp_sync_count = 0; screen = []; driver = [] }

abbrev token : List ℕ
token = 1 ∷ 2 ∷ 3 ∷ 4 ∷ []

abbrev version : List ℕ
version = 0 ∷ 0 ∷ 0 ∷ 2 ∷ []

abbrev first_sync : TimeSync
first_sync = record {
  sender_ssrc = 9 ∷ 9 ∷ 9 ∷ 9 ∷ [];
  count = 0;
  padding = 0 ∷ 0 ∷ 0 ∷ [];
  timestamp1_hi = version;
  timestamp1_lo = token;
  timestamp2_hi = token;
  timestamp2_lo = token;
  timestamp3_hi = token;
  timestamp3_lo = token;
}

first_sync-IsTimeSync : IsTimeSync first_sync
first_sync-IsTimeSync = record {
  sender_ssrc_size = refl;
  padding_size = refl;
  timestamp1_hi_size = refl;
  timestamp1_lo_size = refl;
  timestamp2_hi_size = refl;
  timestamp2_lo_size = refl;
  timestamp3_hi_size = refl;
  timestamp3_lo_size = refl;
}

process_session_packet-invitation_example :
    let buffer : List ℕ = invitation version token (replicate 20 7) ++ (8 ∷ []) in
    (process_session_control_packet quiet buffer 25 boot ≡ invitation_answered quiet 1 token boot)
    × (process_session_midi_packet quiet buffer 25 boot ≡ invitation_answered quiet 2 token boot)
process_session_packet-invitation_example =
    process_session_packet-invitation quiet version token (replicate 20 7) (8 ∷ []) 25 boot refl
      refl refl (omega arith)

process_session_midi_packet-time_sync_example :
    process_session_midi_packet quiet (time_sync first_sync ++ (5 ∷ [])) 36 boot
    ≡ done (sync_answered quiet first_sync boot)
process_session_midi_packet-time_sync_example =
    process_session_midi_packet-time_sync quiet first_sync (5 ∷ []) boot first_sync-IsTimeSync

process_session_packet-unknown_example :
    let buffer : List ℕ = 0xFF ∷ 0xFF ∷ b'B' ∷ b'Y' ∷ ((b'!' ∷ []) ++ (0 ∷ [])) in
    (process_session_control_packet quiet buffer 6 boot ≡ done (0, boot))
    × (process_session_midi_packet quiet buffer 6 boot
        ≡ done (0, draw "Unknown event %s" (b'B' ∷ b'Y' ∷ b'!' ∷ []) 1 14 boot))
process_session_packet-unknown_example =
    process_session_packet-unknown quiet b'B' b'Y' (b'!' ∷ []) [] 6 boot (omega arith)
      (inl (omega arith)) (inl (omega arith)) (omega arith)

-- Delivers a note-on event on the MIDI port.
abbrev player : Driver Sent
player = record {
  send_sync = λ ch bytes tout sent. (0, (ch, bytes) ∷ sent);
  recv_sync = λ size tout sent. (
    0,
    record { ch = 2; buffer = replicate 12 0 ++ (3 ∷ 0x90 ∷ 0x48 ∷ 0x6f ∷ []); len = 16 },
    sent,
  );
}

-- Two rows are left on the screen.
abbrev nearly_full : Machine Sent
nearly_full = record boot { y = 26 }

abbrev emitted : ℕ → ℕ → Draw
emitted b row = draw_text (record { format = "MIDI emit: 0x%x"; args = b ∷ [] }) 1 row

abbrev cleared : Machine Sent
cleared = record boot {
  y = 1;
  screen = emitted 0x6f 0 ∷ clear_text_area 0 0 40 28 ∷ emitted 0x48 27 ∷ emitted 0x90 26 ∷ [];
}

player_runs : mediator_receive player nearly_full ≡ done (0, cleared)
unfolding mediator_receive process_session_midi_packet has_apple_midi_signature
    process_rtp_midi_packet is_long_header four_bit_midi_length twelve_bit_midi_length bytes_to_emit
    emit_bytes emit_midi_event event_round command_round iterate midi_emit
player_runs = refl

mediator_receive-RowsOk_example : RowsOk cleared
mediator_receive-RowsOk_example =
    mediator_receive-RowsOk player nearly_full (record { next_row = omega arith; drawn = tt })
      player_runs
