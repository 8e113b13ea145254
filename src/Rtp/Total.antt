-- ===== src/Rtp/Total.antt =====
-- `rtpmidi_processRtpMidiPacket` ends on every buffer: each round of each loop moves the cursor on.
use mega_drive_megawifi_appl.Base.{
  ℕ, zero, suc, ◌+◌, ◌-◌, ◌≤◌, ◌<◌, bit_and, ◌≡◌, ◌⊎◌, Ends-cases, ap, ◌∙◌, inl, inr, List, length,
  ◌==◌, done, fault, Ends, returns, >>=-Ends, >>=-eq-done, read, stop, again, iterate, iterate-Ends,
  iterate_inv, read-Ends, read-below, arith, Bool-cases, if-Ends,
}
use mega_drive_megawifi_appl.Rtp.{
  Scan, is_long_header, four_bit_midi_length, twelve_bit_midi_length, emit_bytes, emit_midi_event,
  sys_ex_round, process_sys_ex, fast_forward_round, fast_forward, event_round, sys_ex_command,
  command_round, process_rtp_midi_packet, bytes_to_emit,
}

fast_forward_round_moves :
    (buffer : List ℕ) (c c' : ℕ)
    → fast_forward_round buffer c ≡ done (again c')
    → (c' ≡ c + 1) × (c < length buffer)
unfolding fast_forward_round
fast_forward_round_moves buffer c c' e =
    let (b, r, k) = >>=-eq-done (read buffer c) _ e in ground (arith, read-below buffer c r)

fast_forward_round-Ends : (buffer : List ℕ) (c : ℕ) → Ends (fast_forward_round buffer c)
unfolding fast_forward_round
fast_forward_round-Ends buffer c =
    >>=-Ends (read buffer c) _ (read-Ends buffer c)
      (λ b r. if-Ends (bit_and b 0x80 == 0) (returns _) (returns _))

fast_forward-Ends : (buffer : List ℕ) (c : ℕ) → Ends (fast_forward buffer c)
unfolding fast_forward
fast_forward-Ends buffer c =
    iterate-Ends (fast_forward_round buffer) (λ c. length buffer - c)
      (fast_forward_round-Ends buffer)
      (λ c c' e. omega (arith, fast_forward_round_moves buffer c c' e)) (suc (length buffer)) c
      (omega arith)

fast_forward_round_stops :
    (buffer : List ℕ) (c c' : ℕ) → fast_forward_round buffer c ≡ done (stop c') → c' ≡ c
unfolding fast_forward_round
fast_forward_round_stops buffer c c' e =
    let (b, r, k) = >>=-eq-done (read buffer c) _ e in ground arith

-- The skip ends at or behind the cursor it starts at.
fast_forward-le : (buffer : List ℕ) (c : ℕ) {c' : ℕ} → fast_forward buffer c ≡ done c' → c ≤ c'
unfolding fast_forward
fast_forward-le buffer c e =
    iterate_inv (fast_forward_round buffer) (λ s. c ≤ s) (λ r. c ≤ r)
      (λ s s' h p. omega (arith, fast_forward_round_moves buffer s s' p))
      (λ s r h p. omega (arith, fast_forward_round_stops buffer s r p)) (suc (length buffer)) c
      (omega arith) e

module _ {W : Type 0} (emit : ℕ → W → W) where
  emit_bytes-Ends : (n : ℕ) (buffer : List ℕ) (c : ℕ) (w : W) → Ends (emit_bytes emit n buffer c w)
  unfolding emit_bytes
  emit_bytes-Ends zero buffer c w = returns _
  emit_bytes-Ends (suc n) buffer c w =
      >>=-Ends (read buffer c) _ (read-Ends buffer c)
        (λ b r. emit_bytes-Ends n buffer (c + 1) (emit b w))

  emit_bytes_moves :
      (n : ℕ) (buffer : List ℕ) (c : ℕ) (w : W) {p : ℕ × W}
      → emit_bytes emit n buffer c w ≡ done p
      → p.0 ≡ c + n
  unfolding emit_bytes
  emit_bytes_moves zero buffer c w e = ground arith
  emit_bytes_moves (suc n) buffer c w e =
      let (b, r, k) = >>=-eq-done (read buffer c) _ e in
      omega (arith, emit_bytes_moves n buffer (c + 1) (emit b w) k)

  sys_ex_round_moves :
      (buffer : List ℕ) (s s' : ℕ × W)
      → sys_ex_round emit buffer s ≡ done (again s')
      → (s'.0 ≡ s.0 + 1) × (s.0 < length buffer)
  unfolding sys_ex_round
  sys_ex_round_moves buffer (c, w) s' e =
      let (b, r, k) = >>=-eq-done (read buffer c) _ e in
      let (b', r', k') = >>=-eq-done (read buffer (c + 1)) _ k in
      ground (arith, read-below buffer c r)

  sys_ex_round_stops :
      (buffer : List ℕ) (s s' : ℕ × W)
      → sys_ex_round emit buffer s ≡ done (stop s')
      → s'.0 ≡ s.0 + 1
  unfolding sys_ex_round
  sys_ex_round_stops buffer (c, w) s' e =
      let (b, r, k) = >>=-eq-done (read buffer c) _ e in
      let (b', r', k') = >>=-eq-done (read buffer (c + 1)) _ k in ground arith

  sys_ex_round-Ends : (buffer : List ℕ) (s : ℕ × W) → Ends (sys_ex_round emit buffer s)
  unfolding sys_ex_round
  sys_ex_round-Ends buffer (c, w) = >>=-Ends (read buffer c) _ (read-Ends buffer c) (λ b r.
      >>=-Ends (read buffer (c + 1)) _ (read-Ends buffer (c + 1))
        (λ b' r'. if-Ends (b' == 0xF7) (returns _) (returns _)))

  process_sys_ex-Ends : (buffer : List ℕ) (c : ℕ) (w : W) → Ends (process_sys_ex emit buffer c w)
  unfolding process_sys_ex
  process_sys_ex-Ends buffer c w =
      >>=-Ends _ _
        (iterate-Ends (sys_ex_round emit buffer) (λ (s : ℕ × W). length buffer - s.0)
          (sys_ex_round-Ends buffer) (λ s s' e. omega (arith, sys_ex_round_moves buffer s s' e))
          (suc (length buffer)) (c, w) (omega arith))
        (λ p e. >>=-Ends (read buffer p.0) _ (read-Ends buffer p.0) (λ b r. returns _))

  -- The cursor that `processSysEx` leaves, on the end byte, is past the one that it was given.
  process_sys_ex_moves :
      (buffer : List ℕ) (c : ℕ) (w : W) {p : ℕ × W}
      → process_sys_ex emit buffer c w ≡ done p
      → c < p.0
  unfolding process_sys_ex
  process_sys_ex_moves buffer c w {p = p} e =
      let (q, r, k) =
        >>=-eq-done (iterate (sys_ex_round emit buffer) (suc (length buffer)) (c, w)) _ e in
      let (b, r', k') = >>=-eq-done (read buffer q.0) _ k in
      let past : c < q.0 =
        iterate_inv (sys_ex_round emit buffer) (λ (s : ℕ × W). c ≤ s.0) (λ (s : ℕ × W). c < s.0)
          (λ s s' h m. omega (arith, sys_ex_round_moves buffer s s' m))
          (λ s t h m. omega (arith, sys_ex_round_stops buffer s t m)) (suc (length buffer)) (c, w)
          (omega arith) r in
      ground arith

  module _ (buffer : List ℕ) (midi_end : ℕ) where
    event_round-Ends : (s : Scan W) → Ends (event_round emit buffer midi_end s)
    unfolding event_round emit_midi_event
    event_round-Ends s =
        >>=-Ends _ _
          (emit_bytes-Ends (bytes_to_emit s.status) buffer s.cursor (emit s.status s.world))
          (λ p e. if-Ends (p.0 == midi_end) ((returns _)) (
            >>=-Ends (fast_forward buffer p.0) _ (fast_forward-Ends buffer p.0) (λ c r. returns _)))

    sys_ex_command-Ends : (s : Scan W) → Ends (sys_ex_command emit buffer midi_end s)
    unfolding sys_ex_command
    sys_ex_command-Ends s =
        >>=-Ends _ _ (process_sys_ex-Ends buffer s.cursor s.world) (λ p e. returns _)

    command_round-Ends : (s : Scan W) → Ends (command_round emit buffer midi_end s)
    unfolding command_round
    command_round-Ends s = if-Ends (s.cursor == midi_end) ((returns _)) (
        >>=-Ends (read buffer s.cursor) _ (read-Ends buffer s.cursor) (λ b r.
          if-Ends (b == 0xF0) (sys_ex_command-Ends s)
            (if-Ends (bit_and b 0x80 == 0) (event_round-Ends s) ((returns _)))))

    -- The event's bytes are read before the round stops, at the end, or goes on, behind a delta.
    pub event_round_moves :
        (s s' : Scan W)
        → event_round emit buffer midi_end s ≡ done (again s')
        → s.cursor + bytes_to_emit s.status < s'.cursor
    unfolding event_round emit_midi_event
    event_round_moves s s' e =
        let w = emit s.status s.world in
        let (p, r, k) =
          >>=-eq-done (emit_bytes emit (bytes_to_emit s.status) buffer s.cursor w) _ e in
        let moved = emit_bytes_moves (bytes_to_emit s.status) buffer s.cursor w r in
        elim (Bool-cases (p.0 == midi_end)) [
          | inl t ↦ absurd (ground arith)
          | inr f ↦
              let (c, q, l) = >>=-eq-done (fast_forward buffer p.0) _ (rw f at k) in
              ground (arith, fast_forward-le buffer p.0 q)
        ]

    pub event_round_stops :
        (s : Scan W) (w' : W)
        → event_round emit buffer midi_end s ≡ done (stop w')
        → s.cursor + bytes_to_emit s.status ≡ midi_end
    unfolding event_round emit_midi_event
    event_round_stops s w' e =
        let w = emit s.status s.world in
        let (p, r, k) =
          >>=-eq-done (emit_bytes emit (bytes_to_emit s.status) buffer s.cursor w) _ e in
        let moved = emit_bytes_moves (bytes_to_emit s.status) buffer s.cursor w r in
        elim (Bool-cases (p.0 == midi_end)) [
          | inl t ↦ ground arith
          | inr f ↦
              let (c, q, l) = >>=-eq-done (fast_forward buffer p.0) _ (rw f at k) in
              absurd (ground arith)
        ]

    sys_ex_command_moves :
        (s s' : Scan W)
        → sys_ex_command emit buffer midi_end s ≡ done (again s')
        → s.cursor < s'.cursor
    unfolding sys_ex_command
    sys_ex_command_moves s s' e =
        let (p, r, k) = >>=-eq-done (process_sys_ex emit buffer s.cursor s.world) _ e in
        ground (arith, process_sys_ex_moves buffer s.cursor s.world r)

    -- A round that goes on has read at the cursor and has moved it on.
    pub command_round_moves :
        (s s' : Scan W)
        → command_round emit buffer midi_end s ≡ done (again s')
        → (s.cursor < s'.cursor) × (s.cursor < length buffer)
    unfolding command_round
    command_round_moves s s' e = elim (Bool-cases (s.cursor == midi_end)) [
      | inl t ↦ absurd (ground arith)
      | inr f ↦
          let (b, r, k) = >>=-eq-done (read buffer s.cursor) _ (rw f at e) in
          ground
            (arith, read-below buffer s.cursor r, sys_ex_command_moves s s', event_round_moves s s')
    ]

module _ {W : Type 0} (emit : ℕ → W → W) (buffer : List ℕ) (midi_end : ℕ) where
  -- The loop stops at the end of the list only.
  pub command_round_stops :
      (s : Scan W) (w' : W)
      → command_round emit buffer midi_end s ≡ done (stop w')
      → s.cursor ≤ midi_end
  unfolding command_round sys_ex_command
  command_round_stops s w' e = elim (Bool-cases (s.cursor == midi_end)) [
    | inl t ↦ ground arith
    | inr f ↦
        let (b, r, k) = >>=-eq-done (read buffer s.cursor) _ (rw f at e) in
        ground (arith, event_round_stops emit buffer midi_end s w')
  ]

header-Ends :
    (buffer : List ℕ)
    → Ends (is_long_header buffer 12)
      × Ends (four_bit_midi_length buffer 12)
      × Ends (twelve_bit_midi_length buffer 12)
unfolding is_long_header four_bit_midi_length twelve_bit_midi_length
header-Ends buffer = (
  >>=-Ends (read buffer 12) _ (read-Ends buffer 12) (λ b r. returns _),
  >>=-Ends (read buffer 12) _ (read-Ends buffer 12) (λ b r. returns _),
  >>=-Ends (read buffer 12) _ (read-Ends buffer 12)
      (λ b r. >>=-Ends (read buffer 13) _ (read-Ends buffer 13) (λ c q. returns _)),
)

module _ {W : Type 0} (emit : ℕ → W → W) (buffer : List ℕ) where
  pub scan-Ends :
      (midi_end fuel : ℕ) (s : Scan W)
      → length buffer - s.cursor < fuel
      → Ends (iterate (command_round emit buffer midi_end) fuel s)
  scan-Ends midi_end fuel s h =
      iterate-Ends (command_round emit buffer midi_end) (λ s. length buffer - s.cursor)
        (command_round-Ends emit buffer midi_end)
        (λ s s' e. omega (arith, command_round_moves emit buffer midi_end s s' e)) fuel s h

  pub process_rtp_midi_packet-Ends :
      (len : ℕ) (w : W) → Ends (process_rtp_midi_packet emit buffer len w)
  unfolding process_rtp_midi_packet
  process_rtp_midi_packet-Ends len w =
      let (flag, short, long) = header-Ends buffer in
      >>=-Ends (is_long_header buffer 12) _ flag (λ b e.
        >>=-Ends _ _ (if-Ends b long short)
          (λ n e'. >>=-Ends _ _ (scan-Ends _ _ _ (omega arith)) (λ w' e''. returns _)))

  process_rtp_midi_packet-err :
      (len : ℕ) (w : W) {e : ℕ} {w' : W}
      → process_rtp_midi_packet emit buffer len w ≡ done (e, w')
      → e ≡ 0
  unfolding process_rtp_midi_packet
  process_rtp_midi_packet-err len w h = ground arith

-- Whatever the buffer holds, `rtpmidi_processRtpMidiPacket` comes to an end: it returns
-- MW_ERR_NONE, or it reads past the end of the buffer; no loop of it goes on for ever.
pub process_rtp_midi_packet_ends :
    {W : Type 0} (emit : ℕ → W → W) (buffer : List ℕ) (len : ℕ) (w : W)
    → ((w' : W) × (process_rtp_midi_packet emit buffer len w ≡ done (0, w')))
      ⊎ (process_rtp_midi_packet emit buffer len w ≡ fault)
process_rtp_midi_packet_ends emit buffer len w =
    elim (Ends-cases _ (process_rtp_midi_packet-Ends emit buffer len w)) [
      | inl ((e, w'), r) ↦
          let zero_code = process_rtp_midi_packet-err emit buffer len w r in
          inl (w', r ∙ ap (λ c. done (c, w')) zero_code)
      | inr r ↦ inr r
    ]
