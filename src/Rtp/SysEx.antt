-- ===== src/Rtp/SysEx.antt =====
-- `processSysEx`, and packets that hold one system exclusive message.
use mega_drive_megawifi_appl.Base.{
  ℕ, zero, suc, ◌+◌, ◌<◌, ◌≡◌, ◌≢◌, ◌∙◌, sym, ap, Bool, List, [], ◌∷◌, ◌++◌, append_assoc, length,
  length-append, done, iterate, iterate-again, iterate-stop, stop, again, arith, All, Holds,
  read-Holds, Holds-tail, Holds-drop, Holds-append, Holds-length, ne→==, if◌then◌else◌,
}
use mega_drive_megawifi_appl.Rtp.{
  Scan, command_round, sys_ex_round, process_sys_ex, sys_ex_command, process_rtp_midi_packet,
}
use mega_drive_megawifi_appl.Rtp.Wire.{emit_all, emit_all-append, section_header, max_length}
use mega_drive_megawifi_appl.Rtp.Rounds.{command_round-end, command_round-status}
use mega_drive_megawifi_appl.Rtp.Decode.{scan, header_read, process_of_scan}

abbrev pub sys_ex : List ℕ → List ℕ
sys_ex payload = 0xF0 ∷ (payload ++ (0xF7 ∷ []))

module _ {W : Type 0} (emit : ℕ → W → W) (buffer : List ℕ) where
  sys_ex_round-last :
      (b c : ℕ) (tl : List ℕ) (w : W)
      → Holds buffer c (b ∷ 0xF7 ∷ tl)
      → sys_ex_round emit buffer (c, w) ≡ done (stop (c + 1, emit b w))
  unfolding sys_ex_round
  sys_ex_round-last b c tl w h = rw (
    read-Holds buffer c b (0xF7 ∷ tl) h,
    read-Holds buffer (c + 1) 0xF7 tl (Holds-tail buffer c b (0xF7 ∷ tl) h),
  )

  sys_ex_round-inner :
      (b b' c : ℕ) (tl : List ℕ) (w : W)
      → b' ≢ 0xF7
      → Holds buffer c (b ∷ b' ∷ tl)
      → sys_ex_round emit buffer (c, w) ≡ done (again (c + 1, emit b w))
  unfolding sys_ex_round
  sys_ex_round-inner b b' c tl w ne h = rw (
    read-Holds buffer c b (b' ∷ tl) h,
    read-Holds buffer (c + 1) b' tl (Holds-tail buffer c b (b' ∷ tl) h),
    ne→== b' 0xF7 ne,
  )

  -- From a byte `b` of the message on, up to the byte before the end byte.
  sys_ex_rounds :
      (fuel b c : ℕ) (payload tl : List ℕ) (w : W)
      → All (λ x. x ≢ 0xF7) payload
      → Holds buffer c (b ∷ (payload ++ (0xF7 ∷ tl)))
      → length payload < fuel
      → iterate (sys_ex_round emit buffer) fuel (c, w)
        ≡ done (c + suc (length payload), emit_all emit (b ∷ payload) w)
  sys_ex_rounds zero b c payload tl w hs h f = absurd (omega arith)
  sys_ex_rounds (suc fuel) b c [] tl w hs h f =
      iterate-stop (sys_ex_round emit buffer) fuel (c, w) (sys_ex_round-last b c tl w h)
  sys_ex_rounds (suc fuel) b c (b' ∷ payload) tl w hs h f =
      iterate-again (sys_ex_round emit buffer) fuel (c, w)
        (sys_ex_round-inner b b' c (payload ++ (0xF7 ∷ tl)) w hs.0 h)
      ∙ sys_ex_rounds fuel b' (c + 1) payload tl (emit b w) hs.1
          (Holds-tail buffer c b (b' ∷ (payload ++ (0xF7 ∷ tl))) h) (omega arith)
      ∙ ap (λ k. done (k, emit_all emit (b' ∷ payload) (emit b w))) (omega arith)

  -- The message is emitted whole, and the cursor is left on its end byte.
  process_sys_ex-Holds :
      (c : ℕ) (payload tl : List ℕ) (w : W)
      → All (λ x. x ≢ 0xF7) payload
      → Holds buffer c (sys_ex payload ++ tl)
      → process_sys_ex emit buffer c w
        ≡ done (c + suc (length payload), emit_all emit (sys_ex payload) w)
  unfolding process_sys_ex
  process_sys_ex-Holds c payload tl w hs h =
      let h' : Holds buffer c ((0xF0 ∷ payload) ++ (0xF7 ∷ tl)) = h ∙ simp append_assoc in
      rw
        (
          sys_ex_rounds (suc (length buffer)) 0xF0 c payload tl w hs h'
              (omega (arith, Holds-length buffer c _ h', length-append payload (0xF7 ∷ tl))),
          read-Holds buffer (c + suc (length payload)) 0xF7 tl
              (Holds-drop buffer c (0xF0 ∷ payload) (0xF7 ∷ tl) h'),
        )
        (ap (λ v. done (c + suc (length payload), v))
          (sym (emit_all-append emit (0xF0 ∷ payload) (0xF7 ∷ []) w)))

  command_round-sys_ex :
      (midi_end c status : ℕ) (payload tl : List ℕ) (w : W)
      → c ≢ midi_end
      → All (λ x. x ≢ 0xF7) payload
      → Holds buffer c (sys_ex payload ++ tl)
      → command_round emit buffer midi_end (record { status = status; cursor = c; world = w })
        ≡ done (
            again (record {
              status = status;
              cursor = c + suc (length payload);
              world = emit_all emit (sys_ex payload) w;
            }))
  unfolding command_round sys_ex_command
  command_round-sys_ex midi_end c status payload tl w ne hs h = rw (
    ne→== c midi_end ne,
    read-Holds buffer c 0xF0 ((payload ++ (0xF7 ∷ [])) ++ tl) h,
    process_sys_ex-Holds c payload tl w hs h,
  )

  -- Three rounds: the message, its end byte, which is taken for a status byte, and the end.
  scan-sys_ex :
      (fuel c : ℕ) (payload tl : List ℕ) (w : W)
      → 2 < fuel
      → All (λ x. x ≢ 0xF7) payload
      → Holds buffer c (sys_ex payload ++ tl)
      → scan emit buffer (c + length (sys_ex payload)) fuel 0 c w
        ≡ done (emit_all emit (sys_ex payload) w)
  scan-sys_ex zero c payload tl w f hs h = absurd (omega arith)
  scan-sys_ex (suc zero) c payload tl w f hs h = absurd (omega arith)
  scan-sys_ex (suc (suc zero)) c payload tl w f hs h = absurd (omega arith)
  scan-sys_ex (suc (suc (suc fuel))) c payload tl w f hs h =
      iterate-again (command_round emit buffer midi_end) (suc (suc fuel)) _
        (command_round-sys_ex midi_end c 0 payload tl w (omega arith) hs h)
      ∙ iterate-again (command_round emit buffer midi_end) (suc fuel) _ (
          command_round-status emit buffer midi_end at_end 0xF7 tl (omega (arith, size)) ending
            (omega arith) (omega arith) (omega arith))
      ∙ iterate-stop (command_round emit buffer midi_end) fuel _
          (command_round-end emit buffer midi_end behind (omega (arith, size)))
    where
      midi_end : ℕ
      midi_end = c + length (sys_ex payload)

      size : length (payload ++ (0xF7 ∷ [])) ≡ length payload + 1
      size = length-append payload (0xF7 ∷ [])

      at_end : Scan W
      at_end = record {
        status = 0;
        cursor = c + suc (length payload);
        world = emit_all emit (sys_ex payload) w;
      }

      behind : Scan W
      behind = record at_end { status = 0xF7; cursor = at_end.cursor + 1 }

      ending : Holds buffer (c + suc (length payload)) (0xF7 ∷ tl)
      ending = Holds-drop buffer c (0xF0 ∷ payload) (0xF7 ∷ tl) (h ∙ simp append_assoc)

module _ {W : Type 0} (emit : ℕ → W → W) where
  -- A packet whose list is one system exclusive message, of less than 16 bytes with a short header and of
  -- less than 256 with a long one, its start and end bytes included: the call returns MW_ERR_NONE and has
  -- emitted the message whole and in order, start and end included, and nothing else.
  pub process_rtp_midi_packet-sys_ex :
      (long : Bool) (flags len : ℕ) (header payload rest : List ℕ) (w : W)
      → length header ≡ 12
      → flags < 8
      → length (sys_ex payload) < max_length long
      → All (λ x. x ≢ 0xF7) payload
      → process_rtp_midi_packet emit
          (header
            ++ (section_header long flags (length (sys_ex payload)) ++ (sys_ex payload ++ rest)))
          len
          w
        ≡ done (0, emit_all emit (sys_ex payload) w)
  process_rtp_midi_packet-sys_ex long flags len header payload rest w hh hf hn hs =
      let n = length (sys_ex payload) in
      let buffer = header ++ (section_header long flags n ++ (sys_ex payload ++ rest)) in
      let at : Holds buffer 12 (section_header long flags n ++ (sys_ex payload ++ rest)) =
        rw hh at (Holds-append header (section_header long flags n ++ (sys_ex payload ++ rest))) in
      let (p, q, h) = header_read long flags n buffer (sys_ex payload ++ rest) at hf hn in
      process_of_scan emit buffer rest len n long w _ p q (
        scan-sys_ex emit buffer (suc (length buffer)) (12 + (if long then 2 else 1)) payload rest w
          (omega (
            arith,
            hh,
            length-append header (section_header long flags n ++ (sys_ex payload ++ rest)),
          ))
          hs h)
