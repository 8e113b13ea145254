-- ===== src/Rtp/Rounds.antt =====
-- What one round of each loop of src/rtpmidi.c does to a buffer whose next bytes are known.
use mega_drive_megawifi_appl.Base.{
  ℕ, zero, suc, ◌+◌, ◌≤◌, ◌<◌, bit_and, ◌≡◌, refl, ◌≢◌, ◌∙◌, ap, Bool, true, false, not, ◌||◌, List,
  [], ◌∷◌, ◌++◌, length, All, ltb, ◌==◌, if◌then◌else◌, done, stop, again, iterate, iterate-again,
  iterate-stop, arith, holds_below, holds_below_sound, top_bit, Holds, read-Holds, Holds-tail,
  Holds-drop, Holds-length, eq→==, ne→==, length-append,
}
use mega_drive_megawifi_appl.Rtp.{
  Scan, bytes_to_emit, emit_bytes, emit_midi_event, fast_forward_round, fast_forward, event_round,
  command_round,
}
use mega_drive_megawifi_appl.Rtp.Wire.{
  supported, midi_data_length, emit_all, Event, IsEvent, event_bytes,
}

agrees : ℕ → Bool
agrees s =
    ltb s 128
    || (if supported s
        then bytes_to_emit s == midi_data_length s
        else not (bytes_to_emit s == midi_data_length s))

bytes_to_emit_table : holds_below 256 agrees ≡ true
unfolding holds_below agrees bytes_to_emit
bytes_to_emit_table = refl

-- `bytesToEmit` gives a status byte the number of data bytes that the MIDI standard gives it exactly
-- if that is a channel message other than pitch bend, a quarter frame or a song select.
pub bytes_to_emit-eq-midi_data_length :
    (s : ℕ) → 128 ≤ s → s < 256 → (bytes_to_emit s == midi_data_length s) ≡ supported s
unfolding agrees
bytes_to_emit-eq-midi_data_length s lo hi =
    ground (arith, holds_below_sound 256 agrees s bytes_to_emit_table)

status_byte : (b : ℕ) → 128 ≤ b → b < 256 → (bit_and b 0x80 == 0) ≡ false
status_byte b lo hi = ground (arith, top_bit b)

pub data_byte : (b : ℕ) → b < 128 → (bit_and b 0x80 == 0) ≡ true
data_byte b h = ground (arith, top_bit b)

pub supported_byte : (s : ℕ) → supported s ≡ true → (s < 256) × (s ≢ 0xF0)
supported_byte s h = ground arith

bytes_to_emit_complete : (e : Event) → IsEvent e → bytes_to_emit e.status ≡ length e.args
bytes_to_emit_complete e v = ground (
  arith,
  bytes_to_emit-eq-midi_data_length e.status v.is_status (supported_byte e.status v.known).0,
)

fast_forward_round-low :
    (buffer tl : List ℕ) (low c : ℕ)
    → low < 128
    → Holds buffer c (low ∷ tl)
    → fast_forward_round buffer c ≡ done (stop c)
unfolding fast_forward_round
fast_forward_round-low buffer tl low c hl h = rw (read-Holds buffer c low tl h, data_byte low hl)

fast_forward_round-high :
    (buffer tl : List ℕ) (b c : ℕ)
    → (128 ≤ b) × (b < 256)
    → Holds buffer c (b ∷ tl)
    → fast_forward_round buffer c ≡ done (again (c + 1))
unfolding fast_forward_round
fast_forward_round-high buffer tl b c hb h =
    rw (read-Holds buffer c b tl h, status_byte b hb.0 hb.1)

fast_forward_rounds :
    (fuel : ℕ) (buffer high tl : List ℕ) (low c : ℕ)
    → All (λ b. (128 ≤ b) × (b < 256)) high
    → low < 128
    → Holds buffer c (high ++ (low ∷ tl))
    → length high < fuel
    → iterate (fast_forward_round buffer) fuel c ≡ done (c + length high)
fast_forward_rounds zero buffer high tl low c hs hl h f = absurd (omega arith)
fast_forward_rounds (suc fuel) buffer [] tl low c hs hl h f =
    iterate-stop (fast_forward_round buffer) fuel c (fast_forward_round-low buffer tl low c hl h)
    ∙ ap done (omega arith)
fast_forward_rounds (suc fuel) buffer (b ∷ high) tl low c hs hl h f =
    iterate-again (fast_forward_round buffer) fuel c
      (fast_forward_round-high buffer (high ++ (low ∷ tl)) b c hs.0 h)
    ∙ fast_forward_rounds fuel buffer high tl low (c + 1) hs.1 hl
        (Holds-tail buffer c b (high ++ (low ∷ tl)) h) (omega arith)
    ∙ ap done (omega arith)

-- The delta time's octets are skipped but for the last.
fast_forward_skips :
    (buffer high tl : List ℕ) (low c : ℕ)
    → All (λ b. (128 ≤ b) × (b < 256)) high
    → low < 128
    → Holds buffer c (high ++ (low ∷ tl))
    → fast_forward buffer c ≡ done (c + length high)
unfolding fast_forward
fast_forward_skips buffer high tl low c hs hl h =
    fast_forward_rounds (suc (length buffer)) buffer high tl low c hs hl h
      (omega (arith, Holds-length buffer c _ h, length-append high (low ∷ tl)))

module _ {W : Type 0} (emit : ℕ → W → W) where
  emit_bytes-Holds :
      (xs tl buffer : List ℕ) (c : ℕ) (w : W)
      → Holds buffer c (xs ++ tl)
      → emit_bytes emit (length xs) buffer c w ≡ done (c + length xs, emit_all emit xs w)
  unfolding emit_bytes
  emit_bytes-Holds [] tl buffer c w h = ap (λ k. done (k, w)) (omega arith)
  emit_bytes-Holds (x ∷ xs) tl buffer c w h = rw (read-Holds buffer c x (xs ++ tl) h) (
      emit_bytes-Holds xs tl buffer (c + 1) (emit x w) (Holds-tail buffer c x (xs ++ tl) h)
      ∙ ap (λ k. done (k, emit_all emit xs (emit x w))) (omega arith))

  emit_midi_event-Holds :
      (e : Event) (tl buffer : List ℕ) (c : ℕ) (w : W)
      → IsEvent e
      → Holds buffer c (e.args ++ tl)
      → emit_midi_event emit e.status buffer c w
        ≡ done (c + length e.args, emit_all emit (event_bytes e) w)
  unfolding emit_midi_event
  emit_midi_event-Holds e tl buffer c w v h =
      rw (bytes_to_emit_complete e v) (emit_bytes-Holds e.args tl buffer c (emit e.status w) h)

  module _ (buffer : List ℕ) (midi_end : ℕ) where
    pub command_round-end :
        (s : Scan W)
        → s.cursor ≡ midi_end
        → command_round emit buffer midi_end s ≡ done (stop s.world)
    unfolding command_round
    command_round-end s e = rw (eq→== s.cursor midi_end e)

    pub command_round-status :
        (s : Scan W) (b : ℕ) (tl : List ℕ)
        → s.cursor ≢ midi_end
        → Holds buffer s.cursor (b ∷ tl)
        → 128 ≤ b
        → b < 256
        → b ≢ 0xF0
        → command_round emit buffer midi_end s
          ≡ done (again (record s { status = b; cursor = s.cursor + 1 }))
    unfolding command_round
    command_round-status s b tl ne h lo hi nx = rw (
      ne→== s.cursor midi_end ne,
      read-Holds buffer s.cursor b tl h,
      ne→== b 0xF0 nx,
      status_byte b lo hi,
    )

    -- A data byte starts an event with the status at hand; behind the last event the loop stops.
    pub command_round-event :
        (s : Scan W) (b : ℕ) (tl : List ℕ)
        → s.cursor ≢ midi_end
        → Holds buffer s.cursor (b ∷ tl)
        → b < 128
        → command_round emit buffer midi_end s ≡ event_round emit buffer midi_end s
    unfolding command_round
    command_round-event s b tl ne h lo = rw (
      ne→== s.cursor midi_end ne,
      read-Holds buffer s.cursor b tl h,
      ne→== b 0xF0 (omega arith),
      data_byte b lo,
    )

    pub event_round-last :
        (e : Event) (tl : List ℕ) (c : ℕ) (w : W)
        → IsEvent e
        → Holds buffer c (e.args ++ tl)
        → c + length e.args ≡ midi_end
        → event_round emit buffer midi_end (record { status = e.status; cursor = c; world = w })
          ≡ done (stop (emit_all emit (event_bytes e) w))
    unfolding event_round
    event_round-last e tl c w v h q =
        rw (emit_midi_event-Holds e tl buffer c w v h, eq→== _ midi_end q)

    pub event_round-next :
        (e : Event) (high tl : List ℕ) (low c : ℕ) (w : W)
        → IsEvent e
        → All (λ b. (128 ≤ b) × (b < 256)) high
        → low < 128
        → Holds buffer c (e.args ++ (high ++ (low ∷ tl)))
        → c + length e.args ≢ midi_end
        → event_round emit buffer midi_end (record { status = e.status; cursor = c; world = w })
          ≡ done (
              again (record {
                status = e.status;
                cursor = c + length e.args + length high + 1;
                world = emit_all emit (event_bytes e) w;
              }))
    unfolding event_round
    event_round-next e high tl low c w v hs hl h q = rw (
      emit_midi_event-Holds e (high ++ (low ∷ tl)) buffer c w v h,
      ne→== _ midi_end q,
      fast_forward_skips buffer high tl low (c + length e.args) hs hl
          (Holds-drop buffer c e.args (high ++ (low ∷ tl)) h),
    )
