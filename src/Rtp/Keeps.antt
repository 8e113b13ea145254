-- ===== src/Rtp/Keeps.antt =====
-- What every emission keeps, `rtpmidi_processRtpMidiPacket` keeps: it changes the world in no other
-- way.
use mega_drive_megawifi_appl.Base.{
  ℕ, zero, suc, ◌+◌, bit_and, List, length, ◌==◌, read, if◌then◌else◌, Post, if-Post, Any, Any-Post,
  >>=-Post, AtNext, iterate-Post,
}
use mega_drive_megawifi_appl.Rtp.{
  Scan, emit_bytes, emit_midi_event, sys_ex_round, process_sys_ex, fast_forward, event_round,
  sys_ex_command, command_round, process_rtp_midi_packet, is_long_header, bytes_to_emit,
  twelve_bit_midi_length, four_bit_midi_length,
}

module _ {W : Type 0} (emit : ℕ → W → W) (P : W → Type 0)
    (keep : (b : ℕ) (w : W) → P w → P (emit b w)) (buffer : List ℕ) where
  abbrev Second : {A : Type 0} → A × W → Type 0
  Second (a, w) = P w

  abbrev World : Scan W → Type 0
  World s = P s.world

  emit_bytes-Post : (n c : ℕ) (w : W) → P w → Post Second (emit_bytes emit n buffer c w)
  unfolding emit_bytes
  emit_bytes-Post zero c w h = Post.returns (c, w) h
  emit_bytes-Post (suc n) c w h =
      >>=-Post Any Second (read buffer c) _ (Any-Post (read buffer c))
        (λ b _. emit_bytes-Post n (c + 1) (emit b w) (keep b w h))

  sys_ex_round-Post :
      (s : ℕ × W) → Second s → Post (AtNext Second Second) (sys_ex_round emit buffer s)
  unfolding sys_ex_round
  sys_ex_round-Post (c, w) h =
      >>=-Post Any (AtNext Second Second) (read buffer c) _ (Any-Post (read buffer c)) (λ b _.
        >>=-Post Any (AtNext Second Second) (read buffer (c + 1)) _ (Any-Post (read buffer (c + 1)))
          (λ b' _.
            if-Post (AtNext Second Second) (b' == 0xF7) (Post.returns _ (keep b w h))
              (Post.returns _ (keep b w h))))

  process_sys_ex-Post : (c : ℕ) (w : W) → P w → Post Second (process_sys_ex emit buffer c w)
  unfolding process_sys_ex
  process_sys_ex-Post c w h =
      >>=-Post Second Second _ _
        (iterate-Post Second Second (sys_ex_round emit buffer) sys_ex_round-Post
          (suc (length buffer)) (c, w) h)
        (λ p q.
          >>=-Post Any Second (read buffer p.0) _ (Any-Post (read buffer p.0))
            (λ b _. Post.returns _ (keep b p.1 q)))

  module _ (midi_end : ℕ) where
    event_round-Post :
        (s : Scan W) → World s → Post (AtNext World P) (event_round emit buffer midi_end s)
    unfolding event_round emit_midi_event
    event_round-Post s h =
        >>=-Post Second (AtNext World P) _ _
          (emit_bytes-Post (bytes_to_emit s.status) s.cursor (emit s.status s.world)
            (keep s.status s.world h))
          (λ p q. if-Post (AtNext World P) (p.0 == midi_end) (Post.returns _ q) (
            >>=-Post Any (AtNext World P) (fast_forward buffer p.0) _
              (Any-Post (fast_forward buffer p.0)) (λ c _. Post.returns _ q)))

    sys_ex_command-Post :
        (s : Scan W) → World s → Post (AtNext World P) (sys_ex_command emit buffer midi_end s)
    unfolding sys_ex_command
    sys_ex_command-Post s h =
        >>=-Post Second (AtNext World P) _ _ (process_sys_ex-Post s.cursor s.world h)
          (λ p q. Post.returns _ q)

    command_round-Post :
        (s : Scan W) → World s → Post (AtNext World P) (command_round emit buffer midi_end s)
    unfolding command_round
    command_round-Post s h = if-Post (AtNext World P) (s.cursor == midi_end) (Post.returns _ h) (
        >>=-Post Any (AtNext World P) (read buffer s.cursor) _ (Any-Post (read buffer s.cursor))
          (λ b _. if-Post (AtNext World P) (b == 0xF0) (sys_ex_command-Post s h) (
            if-Post (AtNext World P) (bit_and b 0x80 == 0) (event_round-Post s h)
              (Post.returns _ h))))

  pub process_rtp_midi_packet-Post :
      (len : ℕ) (w : W) → P w → Post Second (process_rtp_midi_packet emit buffer len w)
  unfolding process_rtp_midi_packet
  process_rtp_midi_packet-Post len w h =
      >>=-Post Any Second (is_long_header buffer 12) _ (Any-Post (is_long_header buffer 12))
        (λ long _.
          >>=-Post Any Second
            (if long then twelve_bit_midi_length buffer 12 else four_bit_midi_length buffer 12) _
            (Any-Post _)
            (λ n _.
              >>=-Post P Second _ _
                (iterate-Post World P (command_round emit buffer (12 + (if long then 2 else 1) + n))
                  (command_round-Post (12 + (if long then 2 else 1) + n)) (suc (length buffer))
                  (record { status = 0; cursor = 12 + (if long then 2 else 1); world = w }) h)
                (λ w' q. Post.returns (0, w') q)))
