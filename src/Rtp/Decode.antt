-- ===== src/Rtp/Decode.antt =====
-- `rtpmidi_processRtpMidiPacket` on well-formed packets: it emits the events that they carry.
use mega_drive_megawifi_appl.Base.{
  ℕ, zero, suc, ◌+◌, ◌*◌, ◌<◌, ◌≡◌, refl, ◌≢◌, ◌∙◌, sym, ap, Bool, true, false, List, [], ◌∷◌, ◌++◌,
  append_assoc, append-nil, length, length-append, Outcome, done, iterate, iterate-again,
  iterate-stop, arith, All, Holds, read-Holds, Holds-tail, Holds-drop, Holds-append, Holds-length,
  low_nibble, if◌then◌else◌,
}
use mega_drive_megawifi_appl.Rtp.{
  command_round, event_round, process_rtp_midi_packet, is_long_header, four_bit_midi_length,
  twelve_bit_midi_length,
}
use mega_drive_megawifi_appl.Rtp.Wire.{
  emit_all, emit_all-append, Event, IsEvent, Command, AreCommands, wire_commands, wire_event,
  event_bytes, wire_list, emitted_list, section_header, max_length,
}
use mega_drive_megawifi_appl.Rtp.Rounds.{
  command_round-status, command_round-event, event_round-last, event_round-next, supported_byte,
}

args_start : (e : Event) → IsEvent e → (b : ℕ) × (more : List ℕ) × (e.args ≡ b ∷ more) × (b < 128)
args_start e v = starts e.args v.low_bytes (ground (arith, v.known, v.complete))
  where
    starts :
        (xs : List ℕ)
        → All (λ b. b < 128) xs
        → 0 < length xs
        → (b : ℕ) × (more : List ℕ) × (xs ≡ b ∷ more) × (b < 128)
    starts [] h n = absurd (omega arith)
    starts (b ∷ more) h n = (b, more, refl, h.0)

args_pos : (e : Event) → IsEvent e → 0 < length e.args
args_pos e v = ground (arith, v.known, v.complete)

module _ {W : Type 0} (emit : ℕ → W → W) (buffer : List ℕ) (midi_end : ℕ) where
  abbrev pub scan : ℕ → ℕ → ℕ → W → Outcome W
  scan fuel status c w =
      iterate (command_round emit buffer midi_end) fuel
        (record { status = status; cursor = c; world = w })

  event_starts :
      (e : Event) (tl : List ℕ) (c : ℕ) (w : W)
      → IsEvent e
      → Holds buffer c (e.args ++ tl)
      → c ≢ midi_end
      → command_round emit buffer midi_end (record { status = e.status; cursor = c; world = w })
        ≡ event_round emit buffer midi_end (record { status = e.status; cursor = c; world = w })
  event_starts e tl c w v h ne =
      let (b, more, q, lo) = args_start e v in
      command_round-event emit buffer midi_end (record { status = e.status; cursor = c; world = w })
        b (more ++ tl) ne (h ∙ ap (λ l. l ++ tl) q) lo

  -- Behind a delta time: a status byte is taken first, and running status needs none.
  after_delta :
      (running : Bool) (e : Event) (body rest : List ℕ) (fuel status c : ℕ) (w : W) (r : W)
      → IsEvent e
      → (running ≡ true → e.status ≡ status)
      → Holds buffer c (wire_event running e ++ (body ++ rest))
      → c + length (wire_event running e ++ body) ≡ midi_end
      → length (wire_event running e ++ body) < fuel
      → ((f d : ℕ)
          → Holds buffer d (e.args ++ (body ++ rest))
          → d + length (e.args ++ body) ≡ midi_end
          → length (e.args ++ body) < f
          → scan f e.status d w ≡ done r)
      → scan fuel status c w ≡ done r
  after_delta true e body rest fuel status c w r v same h q f ih =
      rw (← same refl) (ih fuel c h q f)
  after_delta false e body rest zero status c w r v same h q f ih = absurd (omega arith)
  after_delta false e body rest (suc fuel) status c w r v same h q f ih =
      iterate-again (command_round emit buffer midi_end) fuel _ (
        command_round-status emit buffer midi_end
          (record { status = status; cursor = c; world = w }) e.status (e.args ++ (body ++ rest))
          (omega arith) h v.is_status (supported_byte e.status v.known).0
          (supported_byte e.status v.known).1)
      ∙ ih fuel (c + 1) (Holds-tail buffer c e.status (e.args ++ (body ++ rest)) h) (omega arith)
          (omega arith)

  -- From the data bytes of an event to the end of the list.
  commands_read :
      (cs : List Command) (e : Event) (rest : List ℕ) (fuel c : ℕ) (w : W)
      → IsEvent e
      → AreCommands e.status cs
      → Holds buffer c (e.args ++ (wire_commands cs ++ rest))
      → c + length (e.args ++ wire_commands cs) ≡ midi_end
      → length (e.args ++ wire_commands cs) < fuel
      → scan fuel e.status c w ≡ done (emit_all emit (emitted_list e cs) w)
  commands_read cs e rest zero c w v vs h q f = absurd (omega arith)
  commands_read [] e rest (suc fuel) c w v vs h q f =
      iterate-stop (command_round emit buffer midi_end) fuel _ (
        event_starts e rest c w v h (omega (arith, args_pos e v, length-append e.args []))
        ∙ event_round-last emit buffer midi_end e rest c w v h
            (omega (arith, length-append e.args [])))
      ∙ ap (λ l. done (emit_all emit l (emit e.status w))) (sym (append-nil e.args))
  commands_read (k ∷ cs) e rest (suc fuel) c w v vs h q f =
      iterate-again (command_round emit buffer midi_end) fuel _ (
        event_starts e (k.high ++ (k.low ∷ tl)) c w v h' (omega (arith, sizes, args_pos e v))
        ∙ event_round-next emit buffer midi_end e k.high tl k.low c w v vs.0.high_octets
            vs.0.low_octet h' (omega (arith, sizes)))
      ∙ after_delta k.running k.event (wire_commands cs) rest fuel e.status
          (c + length e.args + length k.high + 1) (emit_all emit (event_bytes e) w) _ vs.0.event_ok
          vs.0.same_status behind (omega (arith, sizes)) (omega (arith, sizes))
          (λ g d hh qq ff.
            commands_read cs k.event rest g d (emit_all emit (event_bytes e) w) vs.0.event_ok vs.1
              hh qq ff)
      ∙ ap done (sym (emit_all-append emit (event_bytes e) (emitted_list k.event cs) w))
    where
      tl : List ℕ
      tl = wire_event k.running k.event ++ (wire_commands cs ++ rest)

      inner : List ℕ
      inner = wire_event k.running k.event ++ wire_commands cs

      sizes :
          length (e.args ++ wire_commands (k ∷ cs))
          ≡ length e.args + length k.high + 1 + length inner
      sizes = omega (
        arith,
        length-append e.args (wire_commands (k ∷ cs)),
        length-append k.high (k.low ∷ inner),
      )

      h' : Holds buffer c (e.args ++ (k.high ++ (k.low ∷ tl)))
      h' = h ∙ simp append_assoc

      behind : Holds buffer (c + length e.args + length k.high + 1) tl
      behind =
          Holds-tail buffer _ k.low tl
            (Holds-drop buffer _ k.high (k.low ∷ tl) (Holds-drop buffer c e.args _ h'))

-- The whole list, from its first status byte, with the fuel that the code's call is given.
list_read :
    {W : Type 0} (emit : ℕ → W → W) (buffer : List ℕ) (c : ℕ) (e : Event) (cs : List Command)
    (rest : List ℕ) (w : W)
    → IsEvent e
    → AreCommands e.status cs
    → Holds buffer c (wire_list e cs ++ rest)
    → scan emit buffer (c + length (wire_list e cs)) (suc (length buffer)) 0 c w
      ≡ done (emit_all emit (emitted_list e cs) w)
list_read emit buffer c e cs rest w v vs h =
    let h' : Holds buffer c (e.status ∷ (e.args ++ (wire_commands cs ++ rest))) =
      h ∙ simp append_assoc in
    let body = e.args ++ wire_commands cs in
    iterate-again (command_round emit buffer _) (length buffer) _ (
      command_round-status emit buffer _ (record { status = 0; cursor = c; world = w }) e.status _
        (omega arith) h' v.is_status (supported_byte e.status v.known).0
        (supported_byte e.status v.known).1)
    ∙ commands_read emit buffer (c + suc (length body)) cs e rest (length buffer) (c + 1) w v vs
        (Holds-tail buffer c e.status _ h') (omega arith)
        (omega (arith, Holds-length buffer c _ h, length-append (e.status ∷ body) rest))

-- Both forms of the header are read as the length and the start that they stand for.
pub header_read :
    (long : Bool) (flags n : ℕ) (buffer tl : List ℕ)
    → Holds buffer 12 (section_header long flags n ++ tl)
    → flags < 8
    → n < max_length long
    → (is_long_header buffer 12 ≡ done long)
      × ((if long then twelve_bit_midi_length buffer 12 else four_bit_midi_length buffer 12)
          ≡ done n)
      × Holds buffer (12 + (if long then 2 else 1)) tl
unfolding is_long_header twelve_bit_midi_length four_bit_midi_length
header_read true flags n buffer tl h hf hn =
    let h2 : Holds buffer 13 (n ∷ tl) = Holds-tail buffer 12 (128 + flags * 16) (n ∷ tl) h in
    let r1 = read-Holds buffer 12 (128 + flags * 16) (n ∷ tl) h in
    let r2 = read-Holds buffer 13 n tl h2 in
    (
      rw r1 (ap done (ground arith)),
      rw (r1, r2) (ap done (omega arith)),
      Holds-tail buffer 13 n tl h2,
    )
header_read false flags n buffer tl h hf hn =
    let r1 = read-Holds buffer 12 (flags * 16 + n) tl h in
    (
      rw r1 (ap done (ground arith)),
      rw r1 (ap done (omega (arith, low_nibble (flags * 16 + n)))),
      Holds-tail buffer 12 (flags * 16 + n) tl h,
    )

module _ {W : Type 0} (emit : ℕ → W → W) where
  -- Once the header is read, the commands' loop decides the outcome.
  pub process_of_scan :
      (buffer tl : List ℕ) (len n : ℕ) (long : Bool) (w r : W)
      → is_long_header buffer 12 ≡ done long
      → (if long then twelve_bit_midi_length buffer 12 else four_bit_midi_length buffer 12) ≡ done n
      → scan emit buffer
          (12 + (if long then 2 else 1) + n)
          (suc (length buffer))
          0
          (12 + (if long then 2 else 1))
          w
        ≡ done r
      → process_rtp_midi_packet emit buffer len w ≡ done (0, r)
  unfolding process_rtp_midi_packet
  process_of_scan buffer tl len n long w r p q k = rw (p, q, k)

  -- A packet whose command section has a short header and less than 16 bytes, or a long one and less than
  -- 256 bytes, and holds a MIDI list of supported events with delta times and running status: the call returns
  -- MW_ERR_NONE and has emitted, in order, each event's status byte and data bytes, whatever the
  -- twelve bytes of the RTP header, the flags, the length argument and the bytes that follow are.
  pub process_rtp_midi_packet-wire_list :
      (long : Bool) (flags len : ℕ) (header rest : List ℕ) (e : Event) (cs : List Command) (w : W)
      → length header ≡ 12
      → flags < 8
      → length (wire_list e cs) < max_length long
      → IsEvent e
      → AreCommands e.status cs
      → process_rtp_midi_packet emit
          (header
            ++ (section_header long flags (length (wire_list e cs)) ++ (wire_list e cs ++ rest)))
          len
          w
        ≡ done (0, emit_all emit (emitted_list e cs) w)
  process_rtp_midi_packet-wire_list long flags len header rest e cs w hh hf hn v vs =
      let n = length (wire_list e cs) in
      let buffer = header ++ (section_header long flags n ++ (wire_list e cs ++ rest)) in
      let at : Holds buffer 12 (section_header long flags n ++ (wire_list e cs ++ rest)) =
        rw hh at (Holds-append header (section_header long flags n ++ (wire_list e cs ++ rest))) in
      let (p, q, h) = header_read long flags n buffer (wire_list e cs ++ rest) at hf hn in
      process_of_scan buffer rest len n long w _ p q
        (list_read emit buffer (12 + (if long then 2 else 1)) e cs rest w v vs h)
