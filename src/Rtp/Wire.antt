-- ===== src/Rtp/Wire.antt =====
-- The MIDI list of RFC 6295 that the README promises to read, described by what it carries: events
-- with their delta times and running status, and the bytes that a reader has to hand on.
use mega_drive_megawifi_appl.Base.{
  ℕ, ◌+◌, ◌*◌, ◌≤◌, ◌<◌, ◌≡◌, refl, Bool, true, false, ◌||◌, List, [], ◌∷◌, ◌++◌, length, All, ltb,
  ◌==◌, if◌then◌else◌,
}

-- The data bytes that the MIDI standard gives a status byte.
abbrev pub midi_data_length : ℕ → ℕ
midi_data_length status =
    if ltb status 0xC0
    then 2
    else if ltb status 0xE0
    then 1
    else if ltb status 0xF0
    then 2
    else if status == 0xF2
    then 2
    else if status == 0xF1 || status == 0xF3
    then 1
    else 0

-- The channel messages below pitch bend, quarter frame and song select.
abbrev pub supported : ℕ → Bool
supported status = ltb status 0xE0 || status == 0xF1 || status == 0xF3

pub record Event : Type 0 where
  pub status : ℕ
  pub args : List ℕ

pub record IsEvent (e : Event) : Type 0 where
  pub is_status : 128 ≤ e.status
  pub known : supported e.status ≡ true
  pub complete : length e.args ≡ midi_data_length e.status
  pub low_bytes : All (λ b. b < 128) e.args

-- A command behind the first: its delta time, whose last octet is `low`, and an event, written
-- without its status byte if `running` is set.
pub record Command : Type 0 where
  pub high : List ℕ
  pub low : ℕ
  pub running : Bool
  pub event : Event

-- Running status repeats the status of the command before, `previous`.
pub record IsCommand (previous : ℕ) (c : Command) : Type 0 where
  pub high_octets : All (λ b. (128 ≤ b) × (b < 256)) c.high
  pub low_octet : c.low < 128
  pub event_ok : IsEvent c.event
  pub same_status : c.running ≡ true → c.event.status ≡ previous

abbrev pub AreCommands : ℕ → List Command → Type 0
AreCommands previous [] = Unit {0}
AreCommands previous (c ∷ cs) = IsCommand previous c × AreCommands c.event.status cs

abbrev pub event_bytes : Event → List ℕ
event_bytes e = e.status ∷ e.args

abbrev pub wire_event : Bool → Event → List ℕ
wire_event true e = e.args
wire_event false e = event_bytes e

abbrev pub wire_commands : List Command → List ℕ
wire_commands [] = []
wire_commands (c ∷ cs) = c.high ++ (c.low ∷ (wire_event c.running c.event ++ wire_commands cs))

abbrev pub wire_list : Event → List Command → List ℕ
wire_list e cs = event_bytes e ++ wire_commands cs

-- What a reader hands on: each event with its status byte, without delta times.
abbrev pub emitted_commands : List Command → List ℕ
emitted_commands [] = []
emitted_commands (c ∷ cs) = event_bytes c.event ++ emitted_commands cs

abbrev pub emitted_list : Event → List Command → List ℕ
emitted_list e cs = event_bytes e ++ emitted_commands cs

-- The header of the command section: the flags J, Z and P, and the length of the list, in four bits
-- or, where the flag B is set, in the byte that follows four zero bits.
abbrev pub section_header : Bool → ℕ → ℕ → List ℕ
section_header true flags n = (128 + flags * 16) ∷ n ∷ []
section_header false flags n = (flags * 16 + n) ∷ []

-- The lengths that the header can carry, of those that the code reads rightly.
abbrev pub max_length : Bool → ℕ
max_length true = 256
max_length false = 16

module _ {W : Type 0} (emit : ℕ → W → W) where
  abbrev pub emit_all : List ℕ → W → W
  emit_all [] w = w
  emit_all (b ∷ bs) w = emit_all bs (emit b w)

  pub emit_all-append :
      (xs ys : List ℕ) (w : W) → emit_all (xs ++ ys) w ≡ emit_all ys (emit_all xs w)
  emit_all-append [] ys w = refl
  emit_all-append (x ∷ xs) ys w = emit_all-append xs ys (emit x w)
