-- ===== src/Rtp.antt =====
-- src/rtpmidi.c: the MIDI command section of an RTP-MIDI packet. A pointer is an offset into
-- `buffer`, whose length is that of the C object; `emit` stands for `midi_emit`.
pub mod Total
pub mod Wire
pub mod Rounds
pub mod Decode
pub mod SysEx
pub mod Keeps
pub mod Limits
use mega_drive_megawifi_appl.Base.{
  ℕ, zero, suc, ◌+◌, ◌*◌, ◌/◌, ◌%◌, ◌^◌, bit_and, Bool, true, false, not, ◌||◌, List, length, ◌==◌,
  if◌then◌else◌, Outcome, done, fault, dead, spent, ◌>>=◌, read, Next, stop, again, iterate,
}

abbrev pub rtp_midi_header_len : ℕ
rtp_midi_header_len = 3 * 4

abbrev pub midi_sysex_start : ℕ
midi_sysex_start = 0xF0

abbrev pub midi_sysex_end : ℕ
midi_sysex_end = 0xF7

-- `(u8)commandSection[0] >> 7`, as a `bool`.
unfoldable pub is_long_header : List ℕ → ℕ → Outcome Bool
is_long_header buffer section = do b ← read buffer section; done (not (b / 2 ^ 7 == 0))

unfoldable pub four_bit_midi_length : List ℕ → ℕ → Outcome ℕ
four_bit_midi_length buffer section = do b ← read buffer section; done (bit_and b 0x0F)

-- The sum is made in an `int` and returned as a `u16`.
unfoldable pub twelve_bit_midi_length : List ℕ → ℕ → Outcome ℕ
twelve_bit_midi_length buffer section = do
  high ← read buffer section
  low ← read buffer (section + 1)
  done ((high * 2 ^ 12 + low) % 2 ^ 16)

unfoldable pub bytes_to_emit : ℕ → ℕ
bytes_to_emit status = if bit_and status 0xC0 == 0xC0 || bit_and status 0xD0 == 0xD0 then 1 else 2

module _ {W : Type 0} (emit : ℕ → W → W) where
  -- The rounds of the `for` in `emitMidiEvent` that are left.
  unfoldable pub emit_bytes : ℕ → List ℕ → ℕ → W → Outcome (ℕ × W)
  emit_bytes zero buffer cursor w = done (cursor, w)
  emit_bytes (suc n) buffer cursor w = do
    b ← read buffer cursor
    emit_bytes n buffer (cursor + 1) (emit b w)

  unfoldable pub emit_midi_event : ℕ → List ℕ → ℕ → W → Outcome (ℕ × W)
  emit_midi_event status buffer cursor w =
      emit_bytes (bytes_to_emit status) buffer cursor (emit status w)

  -- One round of the `do … while (**cursor != MIDI_SYSEX_END)`.
  unfoldable pub sys_ex_round : List ℕ → ℕ × W → Outcome (Next (ℕ × W) (ℕ × W))
  sys_ex_round buffer (cursor, w) = do
    b ← read buffer cursor
    following ← read buffer (cursor + 1)
    if following == midi_sysex_end
        then done (stop (cursor + 1, emit b w))
        else done (again (cursor + 1, emit b w))

  -- Every round reads one byte further, so the buffer's length bounds them.
  unfoldable pub process_sys_ex : List ℕ → ℕ → W → Outcome (ℕ × W)
  process_sys_ex buffer cursor w = do
    (last, w') ← iterate (sys_ex_round buffer) (suc (length buffer)) (cursor, w)
    b ← read buffer last
    done (last, emit b w')

-- One round of `while (*cursor & 0x80) { cursor++; }`.
unfoldable pub fast_forward_round : List ℕ → ℕ → Outcome (Next ℕ ℕ)
fast_forward_round buffer cursor = do
  b ← read buffer cursor
  if bit_and b 0x80 == 0 then done (stop cursor) else done (again (cursor + 1))

unfoldable pub fast_forward : List ℕ → ℕ → Outcome ℕ
fast_forward buffer cursor = iterate (fast_forward_round buffer) (suc (length buffer)) cursor

-- The variables of the loop of `rtpmidi_processRtpMidiPacket`.
pub record Scan (W : Type 0) : Type 0 where
  pub status : ℕ
  pub cursor : ℕ
  pub world : W

module _ {W : Type 0} (emit : ℕ → W → W) (buffer : List ℕ) (midi_end : ℕ) where
  -- The last part of the loop's body: an event, then the delta time before the next command.
  unfoldable pub event_round : Scan W → Outcome (Next (Scan W) W)
  event_round s = do
    (cursor, w) ← emit_midi_event emit s.status buffer s.cursor s.world
    if cursor == midi_end then done (stop w) else (do
      low ← fast_forward buffer cursor
      done (again (record s { cursor = low + 1; world = w })))

  unfoldable pub sys_ex_command : Scan W → Outcome (Next (Scan W) W)
  sys_ex_command s = do
    (cursor, w) ← process_sys_ex emit buffer s.cursor s.world
    done (again (record s { cursor = cursor; world = w }))

  -- One round of `while (cursor != midiEnd)`, its test included.
  unfoldable pub command_round : Scan W → Outcome (Next (Scan W) W)
  command_round s = if s.cursor == midi_end then done (stop s.world) else (do
    b ← read buffer s.cursor
    if b == midi_sysex_start
        then sys_ex_command s
        else if bit_and b 0x80 == 0
        then event_round s
        else done (again (record s { status = b; cursor = s.cursor + 1 })))

-- Returns the error code, here always MW_ERR_NONE. `length` is not used by the code.
unfoldable pub process_rtp_midi_packet :
    {W : Type 0} → (ℕ → W → W) → List ℕ → ℕ → W → Outcome (ℕ × W)
process_rtp_midi_packet emit buffer len w = do
  let section = rtp_midi_header_len
  long_header ← is_long_header buffer section
  midi_length ←
      (if long_header
        then twelve_bit_midi_length buffer section
        else four_bit_midi_length buffer section)
  let midi_start = section + (if long_header then 2 else 1)
  w' ←
      iterate (command_round emit buffer (midi_start + midi_length)) (suc (length buffer))
        (record { status = 0; cursor = midi_start; world = w })
  done (0, w')
