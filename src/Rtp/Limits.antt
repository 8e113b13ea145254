-- ===== src/Rtp/Limits.antt =====
-- Where src/rtpmidi.c departs from RFC 6295: long lengths, and lists that end inside an event.
use mega_drive_megawifi_appl.Base.{
  ℕ, suc, ◌+◌, ◌*◌, ◌-◌, ◌%◌, ◌≤◌, ◌<◌, ◌≡◌, ◌↔◌, ◌⊎◌, ◌⊎◌, ◌∙◌, sym, ap, false, List, ◌∷◌, ◌++◌,
  length, done, fault, iterate, iterate_inv, iterate-again, Holds-length, stop, again, Ends-cases,
  inl, inr, arith, Holds, read-Holds, Holds-tail, Holds-append,
}
use mega_drive_megawifi_appl.Rtp.{
  Scan, twelve_bit_midi_length, command_round, process_rtp_midi_packet, event_round, bytes_to_emit,
  is_long_header, four_bit_midi_length,
}
use mega_drive_megawifi_appl.Rtp.Wire.{section_header}
use mega_drive_megawifi_appl.Rtp.Rounds.{
  command_round-status, command_round-event, bytes_to_emit-eq-midi_data_length,
}
use mega_drive_megawifi_appl.Rtp.Decode.{header_read}
use mega_drive_megawifi_appl.Rtp.Total.{
  command_round_moves, command_round_stops, event_round_moves, event_round_stops, scan-Ends,
}

-- The length that RFC 6295 gives a long header: twelve bits, the high four in the first byte.
abbrev pub rfc_long_length : ℕ → ℕ → ℕ
rfc_long_length high low = high % 16 * 256 + low

done_injective : {a b : ℕ} → done a ≡ done b → a ≡ b
done_injective e = cc

twelve_bit_midi_length-eq :
    (front rest : List ℕ) (high low : ℕ)
    → high < 256
    → low < 256
    → twelve_bit_midi_length (front ++ (high ∷ low ∷ rest)) (length front)
      ≡ done (high % 16 * 4096 + low)
unfolding twelve_bit_midi_length
twelve_bit_midi_length-eq front rest high low hh hl =
    let h = Holds-append front (high ∷ low ∷ rest) in
    let h2 = Holds-tail (front ++ (high ∷ low ∷ rest)) (length front) high (low ∷ rest) h in
    rw
      (
        read-Holds (front ++ (high ∷ low ∷ rest)) (length front) high (low ∷ rest) h,
        read-Holds (front ++ (high ∷ low ∷ rest)) (length front + 1) low rest h2,
      )
      (ap done (omega arith))

-- On any two bytes of the buffer, `twelveBitMidiLength` is the length of RFC 6295 exactly if the four
-- high bits of that length are zero: they are shifted by twelve places instead of eight.
pub twelve_bit_midi_length_iff :
    (front rest : List ℕ) (high low : ℕ)
    → high < 256
    → low < 256
    → (twelve_bit_midi_length (front ++ (high ∷ low ∷ rest)) (length front)
        ≡ done (rfc_long_length high low))
      ↔ (high % 16 ≡ 0)
twelve_bit_midi_length_iff front rest high low hh hl =
    let e = twelve_bit_midi_length-eq front rest high low hh hl in
    (λ p. omega (arith, done_injective (sym e ∙ p)), λ z. e ∙ ap done (omega arith))

module _ {W : Type 0} (emit : ℕ → W → W) (buffer : List ℕ) (midi_end : ℕ) where
  -- A loop that never comes to rest on the end of the list reads past the buffer.
  fault_of_inv :
      (P : Scan W → Type 0)
      → ((s s' : Scan W) → P s → command_round emit buffer midi_end s ≡ done (again s') → P s')
      → ((s : Scan W) (w' : W) → P s → command_round emit buffer midi_end s ≡ done (stop w') → ⊥)
      → (fuel : ℕ) (s : Scan W) → length buffer - s.cursor < fuel
      → P s
      → iterate (command_round emit buffer midi_end) fuel s ≡ fault
  fault_of_inv P keep end fuel s f h =
      elim (Ends-cases _ (scan-Ends emit buffer midi_end fuel s f)) [
        | inl (w', r) ↦
            absurd (iterate_inv (command_round emit buffer midi_end) P (λ _. ⊥) keep end fuel s h r)
        | inr r ↦ r
      ]

  -- Behind the end of the list the test `cursor != midiEnd` holds for ever.
  pub overrun_faults :
      (fuel : ℕ) (s : Scan W)
      → length buffer - s.cursor < fuel
      → midi_end < s.cursor
      → iterate (command_round emit buffer midi_end) fuel s ≡ fault
  overrun_faults =
      fault_of_inv (λ s. midi_end < s.cursor)
        (λ s s' h e. omega (arith, command_round_moves emit buffer midi_end s s' e))
        (λ s w' h e. omega (arith, command_round_stops emit buffer midi_end s w' e))

  -- At a data byte whose event goes beyond the end of the list.
  Cut : Scan W → Type 0
  Cut s =
      (s.cursor < midi_end)
      × (midi_end < s.cursor + bytes_to_emit s.status)
      × (command_round emit buffer midi_end s ≡ event_round emit buffer midi_end s)

  Cut-event_faults :
      (fuel : ℕ) (s : Scan W)
      → length buffer - s.cursor < fuel
      → Cut s
      → iterate (command_round emit buffer midi_end) fuel s ≡ fault
  unfolding Cut
  Cut-event_faults fuel s f cut =
      fault_of_inv (λ s. Cut s ⊎ (midi_end < s.cursor)) (λ s s' h e. inr (moves s s' h e)) stops
        fuel s f (inl cut)
    where
      moves :
          (s s' : Scan W)
          → Cut s ⊎ (midi_end < s.cursor)
          → command_round emit buffer midi_end s ≡ done (again s')
          → midi_end < s'.cursor
      moves s s' (inl c) e =
          omega (arith, event_round_moves emit buffer midi_end s s' (sym c.2 ∙ e), c.1)
      moves s s' (inr h) e = omega (arith, command_round_moves emit buffer midi_end s s' e)

      stops :
          (s : Scan W) (w' : W)
          → Cut s ⊎ (midi_end < s.cursor)
          → command_round emit buffer midi_end s ≡ done (stop w')
          → ⊥
      stops s w' (inl c) e =
          omega (arith, event_round_stops emit buffer midi_end s w' (sym c.2 ∙ e), c.1)
      stops s w' (inr h) e = omega (arith, command_round_stops emit buffer midi_end s w' e)

module _ {W : Type 0} (emit : ℕ → W → W) (buffer : List ℕ) where
  two_byte_cut :
      (status d : ℕ) (rest : List ℕ) (w : W)
      → Holds buffer 13 (status ∷ d ∷ rest)
      → 128 ≤ status
      → status < 0xC0
      → d < 128
      → iterate
          (command_round emit buffer 15)
          (suc (length buffer))
          (record { status = 0; cursor = 13; world = w })
        ≡ fault
  unfolding Cut
  two_byte_cut status d rest w h lo hi hd =
      iterate-again (command_round emit buffer 15) (length buffer) _ (
        command_round-status emit buffer 15 (record { status = 0; cursor = 13; world = w }) status
          (d ∷ rest) (omega arith) h lo (omega arith) (omega arith))
      ∙ Cut-event_faults emit buffer 15 (length buffer) second
          (omega (arith, Holds-length buffer 13 _ h))
          (
            omega arith,
            omega (arith, two),
            command_round-event emit buffer 15 second d rest (omega arith)
                (Holds-tail buffer 13 status (d ∷ rest) h) hd,
          )
    where
      second : Scan W
      second = record { status = status; cursor = 14; world = w }

      two : bytes_to_emit status ≡ 2
      two = ground (arith, bytes_to_emit-eq-midi_data_length status lo (omega arith))

  fault_of_scan :
      (len n : ℕ) (w : W)
      → is_long_header buffer 12 ≡ done false
      → four_bit_midi_length buffer 12 ≡ done n
      → iterate
          (command_round emit buffer (13 + n))
          (suc (length buffer))
          (record { status = 0; cursor = 13; world = w })
        ≡ fault
      → process_rtp_midi_packet emit buffer len w ≡ fault
  unfolding process_rtp_midi_packet
  fault_of_scan len n w p q k = rw (p, q, k)

module _ {W : Type 0} (emit : ℕ → W → W) where
  -- A packet with a short header whose list is only the two bytes status and first data byte, the status
  -- being a note off, a note on, a polyphonic pressure or a control change, which all have a second data
  -- byte: the call reads past the end of the buffer, however long that is and whatever follows the list.
  pub process_rtp_midi_packet_truncated :
      (flags len status d : ℕ) (header rest : List ℕ) (w : W)
      → length header ≡ 12
      → flags < 8
      → 128 ≤ status
      → status < 0xC0
      → d < 128
      → process_rtp_midi_packet emit
          (header ++ (section_header false flags 2 ++ (status ∷ d ∷ rest)))
          len
          w
        ≡ fault
  process_rtp_midi_packet_truncated flags len status d header rest w hh hf lo hi hd =
      let tl = status ∷ d ∷ rest in
      let buffer = header ++ (section_header false flags 2 ++ tl) in
      let at : Holds buffer 12 (section_header false flags 2 ++ tl) =
        rw hh at (Holds-append header (section_header false flags 2 ++ tl)) in
      let (p, q, h) = header_read false flags 2 buffer tl at hf (omega arith) in
      fault_of_scan emit buffer len 2 w p q (two_byte_cut emit buffer status d rest w h lo hi hd)
