-- ===== src/Examples/RtpRuns.antt =====
-- src/rtpmidi.c on the packets of tests/unit/test_applemidi.c and on others.
use mega_drive_megawifi_appl.Base.{
  ℕ, ◌%◌, ◌≡◌, refl, ◌↔◌, ◌⊎◌, true, false, List, [], ◌∷◌, ◌++◌, length, ◌==◌, done, fault, iterate,
  arith,
}
use mega_drive_megawifi_appl.Rtp.{
  process_rtp_midi_packet, is_long_header, four_bit_midi_length, twelve_bit_midi_length,
  bytes_to_emit, emit_bytes, emit_midi_event, sys_ex_round, process_sys_ex, fast_forward_round,
  fast_forward, event_round, sys_ex_command, command_round,
}
use mega_drive_megawifi_appl.Rtp.Wire.{
  Event, Command, IsEvent, AreCommands, section_header, wire_list, midi_data_length, supported,
}
use mega_drive_megawifi_appl.Rtp.Rounds.{bytes_to_emit-eq-midi_data_length}
use mega_drive_megawifi_appl.Rtp.Total.{process_rtp_midi_packet_ends}
use mega_drive_megawifi_appl.Rtp.Decode.{process_rtp_midi_packet-wire_list}
use mega_drive_megawifi_appl.Rtp.SysEx.{process_rtp_midi_packet-sys_ex, sys_ex}
use mega_drive_megawifi_appl.Rtp.Limits.{
  twelve_bit_midi_length_iff, process_rtp_midi_packet_truncated,
}

-- The emitted bytes, latest first.
abbrev record_byte : ℕ → List ℕ → List ℕ
record_byte b w = b ∷ w

abbrev rtp_header : List ℕ
rtp_header = 0x80 ∷ 0x61 ∷ 0x8c ∷ 0x24 ∷ 0x00 ∷ 0x58 ∷ 0xbb ∷ 0x40 ∷ 0xac ∷ 0x67 ∷ 0xe1 ∷ 0x08 ∷ []

two_events :
    process_rtp_midi_packet record_byte
      (rtp_header ++ (0x06 ∷ 0x90 ∷ 0x48 ∷ 0x6f ∷ 0x00 ∷ 0x51 ∷ 0x6f ∷ 0 ∷ []))
      19
      []
    ≡ done (0, 0x6f ∷ 0x51 ∷ 0x90 ∷ 0x6f ∷ 0x48 ∷ 0x90 ∷ [])
unfolding process_rtp_midi_packet is_long_header four_bit_midi_length twelve_bit_midi_length
    bytes_to_emit emit_bytes emit_midi_event sys_ex_round process_sys_ex fast_forward_round
    fast_forward event_round sys_ex_command command_round iterate
two_events = refl

-- A pitch bend loses its second data byte.
pitch_bend :
    process_rtp_midi_packet record_byte (rtp_header ++ (0x03 ∷ 0xE0 ∷ 0x01 ∷ 0x40 ∷ [])) 16 []
    ≡ done (0, 0x01 ∷ 0xE0 ∷ [])
unfolding process_rtp_midi_packet is_long_header four_bit_midi_length twelve_bit_midi_length
    bytes_to_emit emit_bytes emit_midi_event sys_ex_round process_sys_ex fast_forward_round
    fast_forward event_round sys_ex_command command_round iterate
pitch_bend = refl

abbrev note_on : Event
note_on = record { status = 0x90; args = 0x48 ∷ 0x6f ∷ [] }

abbrev program_change : Command
program_change = record {
  high = 0x81 ∷ [];
  low = 0x10;
  running = false;
  event = record { status = 0xC0; args = 0x05 ∷ [] };
}

abbrev again_running : Command
again_running = record {
  high = [];
  low = 0;
  running = true;
  event = record { status = 0xC0; args = 0x06 ∷ [] };
}

abbrev commands : List Command
commands = program_change ∷ again_running ∷ []

note_on-IsEvent : IsEvent note_on
note_on-IsEvent = record {
  is_status = omega arith;
  known = refl;
  complete = refl;
  low_bytes = omega arith;
}

commands-AreCommands : AreCommands 0x90 commands
commands-AreCommands = (
  record {
    high_octets = omega arith;
    low_octet = omega arith;
    event_ok = record {
      is_status = omega arith;
      known = refl;
      complete = refl;
      low_bytes = omega arith;
    };
    same_status = λ p. absurd (cc);
  },
  (
    record {
      high_octets = tt;
      low_octet = omega arith;
      event_ok = record {
        is_status = omega arith;
        known = refl;
        complete = refl;
        low_bytes = omega arith;
      };
      same_status = λ p. refl;
    },
    tt,
  ),
)

process_rtp_midi_packet-wire_list_example :
    process_rtp_midi_packet record_byte
      (rtp_header
        ++ (section_header true 4 (length (wire_list note_on commands))
            ++ (wire_list note_on commands ++ (9 ∷ []))))
      100
      []
    ≡ done (0, 0x06 ∷ 0xC0 ∷ 0x05 ∷ 0xC0 ∷ 0x6f ∷ 0x48 ∷ 0x90 ∷ [])
process_rtp_midi_packet-wire_list_example =
    process_rtp_midi_packet-wire_list record_byte true 4 100 rtp_header (9 ∷ []) note_on commands []
      (omega arith) (omega arith) (omega arith) note_on-IsEvent commands-AreCommands

process_rtp_midi_packet-sys_ex_example :
    process_rtp_midi_packet record_byte
      (rtp_header
        ++ (section_header false 0 (length (sys_ex (1 ∷ 2 ∷ []))) ++ (sys_ex (1 ∷ 2 ∷ []) ++ [])))
      17
      []
    ≡ done (0, 0xF7 ∷ 2 ∷ 1 ∷ 0xF0 ∷ [])
process_rtp_midi_packet-sys_ex_example =
    process_rtp_midi_packet-sys_ex record_byte false 0 17 rtp_header (1 ∷ 2 ∷ []) [] []
      (omega arith) (omega arith) (omega arith) (omega arith)

process_rtp_midi_packet_ends_example :
    ((w' : List ℕ) × (process_rtp_midi_packet record_byte (rtp_header ++ (3 ∷ 0x90 ∷ [])) 14 []
        ≡ done (0, w')))
    ⊎ (process_rtp_midi_packet record_byte (rtp_header ++ (3 ∷ 0x90 ∷ [])) 14 [] ≡ fault)
process_rtp_midi_packet_ends_example =
    process_rtp_midi_packet_ends record_byte (rtp_header ++ (3 ∷ 0x90 ∷ [])) 14 []

bytes_to_emit-eq-midi_data_length_example :
    (bytes_to_emit 0xE3 == midi_data_length 0xE3) ≡ supported 0xE3
bytes_to_emit-eq-midi_data_length_example =
    bytes_to_emit-eq-midi_data_length 0xE3 (omega arith) (omega arith)

twelve_bit_midi_length_iff_example :
    (twelve_bit_midi_length (rtp_header ++ (0x81 ∷ 0x05 ∷ [])) 12 ≡ done 0x105) ↔ (0x81 % 16 ≡ 0)
twelve_bit_midi_length_iff_example =
    twelve_bit_midi_length_iff rtp_header [] 0x81 0x05 (omega arith) (omega arith)

process_rtp_midi_packet_truncated_example :
    process_rtp_midi_packet record_byte
      (rtp_header ++ (section_header false 0 2 ++ (0x90 ∷ 0x48 ∷ 0x6f ∷ 0 ∷ [])))
      15
      []
    ≡ fault
process_rtp_midi_packet_truncated_example =
    process_rtp_midi_packet_truncated record_byte 0 15 0x90 0x48 rtp_header (0x6f ∷ 0 ∷ []) []
      (omega arith) (omega arith) (omega arith) (omega arith) (omega arith)
