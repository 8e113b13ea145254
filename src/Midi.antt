-- ===== src/Midi.antt =====
-- src/midi.c: each emitted byte is shown on a row of its own, and a full screen is cleared.
pub mod Rows
use mega_drive_megawifi_appl.Base.{ℕ, ◌+◌, ◌%◌, ◌^◌, [], ◌∷◌, ◌==◌, if◌then◌else◌}
use mega_drive_megawifi_appl.Machine.{Machine, draw, show, clear_text_area}

module _ {S : Type 0} where
  -- `if (y == 28)`, after the `y++` of the call that draws.
  wrap_row : Machine S → Machine S
  wrap_row m = if m.y == 28 then (record (show (clear_text_area 0 0 40 28) m) { y = 0 }) else m

  unfoldable pub midi_emit : ℕ → Machine S → Machine S
  unfolding wrap_row
  midi_emit midi_byte m =
      wrap_row (record (draw "MIDI emit: 0x%x" (midi_byte ∷ []) 1 m.y m) { y = (m.y + 1) % 2 ^ 16 })
