-- ===== src/Machine.antt =====
-- What the application's C files keep in static variables and do to the outside: the row of
-- src/midi.c, the counter of src/applemidi.c, and the calls of SGDK's text functions. SGDK and
-- `sprintf` are not in the repository: a call is logged with its format, its arguments and its place.
use Prim.Native.String.{String}
use mega_drive_megawifi_appl.Base.{ℕ, List, ◌∷◌}

-- The text that `sprintf(text, format, args…)` leaves in `text`.
pub record Text : Type 0 where
  pub format : String
  pub args : List ℕ

pub data Draw : Type 0 where
  draw_text : Text → ℕ → ℕ → Draw
  clear_text_area : ℕ → ℕ → ℕ → ℕ → Draw

-- `S` is the state of the network driver; `screen` holds the latest call first.
pub record Machine (S : Type 0) : Type 0 where
  pub y : ℕ
  pub timestamp_sync_count : ℕ
  pub screen : List Draw
  pub driver : S

module _ {S : Type 0} where
  abbrev pub show : Draw → Machine S → Machine S
  show d m = record m { screen = d ∷ m.screen }

  abbrev pub draw : String → List ℕ → ℕ → ℕ → Machine S → Machine S
  draw format args x y m = show (draw_text (record { format = format; args = args }) x y) m
