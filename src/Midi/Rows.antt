-- ===== src/Midi/Rows.antt =====
-- Where src/midi.c draws: always on one of the 28 rows of the text plane.
use mega_drive_megawifi_appl.Base.{ℕ, ◌<◌, List, [], ◌∷◌, arith}
use mega_drive_megawifi_appl.Machine.{Machine, Draw, draw_text, clear_text_area}
use mega_drive_megawifi_appl.Midi.{midi_emit}

abbrev pub OnScreen : List Draw → Type 0
OnScreen [] = Unit {0}
OnScreen (draw_text t x y ∷ ds) = (y < 28) × OnScreen ds
OnScreen (clear_text_area x y w h ∷ ds) = OnScreen ds

-- The next row is on the screen, and so was every text drawn so far.
pub record RowsOk {S : Type 0} (m : Machine S) : Type 0 where
  pub next_row : m.y < 28
  pub drawn : OnScreen m.screen

pub midi_emit-RowsOk : {S : Type 0} (b : ℕ) (m : Machine S) → RowsOk m → RowsOk (midi_emit b m)
unfolding midi_emit
midi_emit-RowsOk b m h = ground arith
