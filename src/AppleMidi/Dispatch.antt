-- ===== src/AppleMidi/Dispatch.antt =====
-- Which handler of src/applemidi.c a packet reaches, and the packets that no handler takes.
use mega_drive_megawifi_appl.Base.{
  ℕ, ◌+◌, ◌*◌, ◌≤◌, ◌<◌, ◌≡◌, refl, ◌≢◌, ◌⊎◌, inl, inr, false, List, [], ◌∷◌, ◌++◌, length, All,
  ltb, if◌then◌else◌, ne→==, lt→ltb, done, fault, arith,
}
use mega_drive_megawifi_appl.Machine.{Machine, draw}
use mega_drive_megawifi_appl.Midi.{midi_emit}
use mega_drive_megawifi_appl.Rtp.{process_rtp_midi_packet}
use mega_drive_megawifi_appl.Driver.{Driver}
use mega_drive_megawifi_appl.AppleMidi.{
  has_apple_midi_signature, is_command, c_string, show_unknown_event,
  process_session_control_packet, process_session_midi_packet, process_session_midi_command,
}
use mega_drive_megawifi_appl.AppleMidi.Packets.{signed_buffer}

unsigned_buffer :
    (a b : ℕ) (tl : List ℕ) (len : ℕ)
    → (len < 2) ⊎ (a * 256 + b ≢ 0xFFFF)
    → has_apple_midi_signature (a ∷ b ∷ tl) len ≡ done false
unfolding has_apple_midi_signature
unsigned_buffer a b tl len (inl h) = rw (lt→ltb len 2 h)
unsigned_buffer a b tl len (inr h) = ground arith

other_command :
    (x y a b : ℕ) (tl : List ℕ)
    → (a ≢ x) ⊎ (b ≢ y)
    → is_command x y (0xFF ∷ 0xFF ∷ a ∷ b ∷ tl) 2 ≡ done false
unfolding is_command
other_command x y a b tl h = ground arith

c_string-text : (text tl : List ℕ) → All (λ b. b ≢ 0) text → c_string (text ++ (0 ∷ tl)) ≡ done text
unfolding c_string
c_string-text [] tl h = refl
c_string-text (b ∷ text) tl h = rw (ne→== b 0 h.0, c_string-text text tl h.1)

module _ {S : Type 0} (driver : Driver S) where
  -- A packet without the signature, or of less than two bytes, is refused on the control port, with
  -- nothing changed, and on the MIDI port it is handled as an RTP-MIDI packet.
  pub process_session_packet-unsigned :
      (a b : ℕ) (tl : List ℕ) (len : ℕ) (m : Machine S)
      → (len < 2) ⊎ (a * 256 + b ≢ 0xFFFF)
      → (process_session_control_packet driver (a ∷ b ∷ tl) len m ≡ done (100, m))
        × (process_session_midi_packet driver (a ∷ b ∷ tl) len m
            ≡ process_rtp_midi_packet midi_emit (a ∷ b ∷ tl) len m)
  unfolding process_session_control_packet process_session_midi_packet
  process_session_packet-unsigned a b tl len m h =
      (rw (unsigned_buffer a b tl len h), rw (unsigned_buffer a b tl len h))

  -- A session command that is neither an invitation nor, on the MIDI port, a time synchronisation is
  -- ignored on the control port. On the MIDI port it is shown as text: if the command and what follows
  -- it run to more than 85 characters before a zero byte, `sprintf` writes past the end of its array.
  pub process_session_packet-unknown :
      (a b : ℕ) (text tl : List ℕ) (len : ℕ) (m : Machine S)
      → 2 ≤ len
      → (a ≢ b'I') ⊎ (b ≢ b'N')
      → (a ≢ b'C') ⊎ (b ≢ b'K')
      → All (λ c. c ≢ 0) (a ∷ b ∷ text)
      → let buffer = 0xFF ∷ 0xFF ∷ a ∷ b ∷ (text ++ (0 ∷ tl)) in
        (process_session_control_packet driver buffer len m ≡ done (0, m))
        × (process_session_midi_packet driver buffer len m ≡ (
            if ltb 85 (length (a ∷ b ∷ text))
            then fault
            else done (0, draw "Unknown event %s" (a ∷ b ∷ text) 1 14 m)))
  unfolding process_session_control_packet process_session_midi_packet process_session_midi_command
      show_unknown_event
  process_session_packet-unknown a b text tl len m h ni nc nz =
      let back = text ++ (0 ∷ tl) in
      (
        rw (signed_buffer (a ∷ b ∷ back) len h, other_command b'I' b'N' a b back ni),
        rw
            (
              signed_buffer (a ∷ b ∷ back) len h,
              other_command b'I' b'N' a b back ni,
              other_command b'C' b'K' a b back nc,
              c_string-text (a ∷ b ∷ text) tl nz,
            )
            (ground arith),
      )
