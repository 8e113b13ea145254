-- ===== src/Lsd/Fields.antt =====
-- The fields of a frame, as src/mw/lsd.c takes them in one by one.
use mega_drive_megawifi_appl.Base.{
  ℕ, zero, suc, ◌+◌, ◌*◌, ◌/◌, ◌%◌, ◌≤◌, ◌<◌, bit_and, ◌≡◌, refl, ◌≢◌, ◌∙◌, Bool, true, List, [],
  ◌∷◌, ◌++◌, length, drop, replicate, All, append_assoc, ◌==◌, if◌then◌else◌, done, arith, le→leb,
  gt→leb, lt→ltb, ne→==, length-append, set-append_at, low_nibble,
}
use mega_drive_megawifi_appl.Lsd.{
  Lsd, RecvState, recv_stx, recv_ch_lenh, recv_len, recv_data, recv_etx, recv_idle, lsd_stx_etx,
  report, received, complete, usable, process_recv, recv_byte, recv_add, recv_added, recv_channel,
  recv_length, recv_burst,
}
use mega_drive_megawifi_appl.Lsd.Frame.{header, joined}

-- While a frame comes in: `max` and `cb` are `lsd_recv`'s, the rest is `d.rx`.
abbrev pub receiving : RecvState → List ℕ → ℕ → ℕ → ℕ → ℕ → Bool → Lsd → Lsd
receiving stat buffer pos len ch max cb d = record d {
  rx = record {
    stat = stat;
    buf = buffer;
    pos = pos;
    frame_len = len;
    max = max;
    cb = cb;
    ch = ch;
  };
}

module _ (d : Lsd) (max : ℕ) (cb : Bool) where
  -- After a whole frame: its data stands at the start of the buffer, and the caller is told.
  abbrev pub frame_received : ℕ → List ℕ → List ℕ → Lsd
  frame_received ch bytes buffer = report cb (received complete ch bytes) (
      receiving recv_idle (bytes ++ drop (length bytes) buffer) (length bytes) (length bytes) ch max
        cb d)

  pub recv_burst-noise :
      (noise more buffer : List ℕ) (pos len ch : ℕ)
      → All (λ b. b ≢ lsd_stx_etx) noise
      → recv_burst (noise ++ more) (receiving recv_stx buffer pos len ch max cb d)
        ≡ recv_burst more (receiving recv_stx buffer pos len ch max cb d)
  unfolding recv_burst process_recv recv_byte
  recv_burst-noise [] more buffer pos len ch h = refl
  recv_burst-noise (b ∷ bs) more buffer pos len ch h =
      rw (ne→== b lsd_stx_etx (h.0), recv_burst-noise bs more buffer pos len ch (h.1))

  pub recv_burst-flags :
      (n pos len ch : ℕ) (more buffer : List ℕ)
      → recv_burst
          (replicate n lsd_stx_etx ++ more)
          (receiving recv_ch_lenh buffer pos len ch max cb d)
        ≡ recv_burst more (receiving recv_ch_lenh buffer pos len ch max cb d)
  unfolding recv_burst process_recv recv_byte recv_channel
  recv_burst-flags zero pos len ch more buffer = refl
  recv_burst-flags (suc n) pos len ch more buffer = recv_burst-flags n pos len ch more buffer

  header_ne_flag : (ch len : ℕ) → ch < 4 → len < 4096 → header ch len ≢ lsd_stx_etx
  header_ne_flag ch len hc hl = λ e. omega arith

  pub recv_channel-header :
      (ch len pos n c : ℕ) (buffer : List ℕ)
      → ch < 4
      → len < 4096
      → usable d ch ≡ true
      → recv_channel (header ch len) (receiving recv_ch_lenh buffer pos n c max cb d)
        ≡ receiving recv_len buffer pos (len / 256 * 256) ch max cb d
  unfolding recv_channel
  recv_channel-header ch len pos n c buffer hc hl u =
      let chan : header ch len / 16 ≡ ch = omega arith in
      let high : bit_and (header ch len) 0x0F ≡ len / 256 =
        low_nibble (header ch len) (omega arith) ∙ omega arith in
      rw (ne→== (header ch len) lsd_stx_etx (header_ne_flag ch len hc hl), chan, high, u)

  pub recv_length-low :
      (ch len pos : ℕ) (buffer : List ℕ)
      → len < 4096
      → recv_length (len % 256) (receiving recv_len buffer pos (len / 256 * 256) ch max cb d)
        ≡ receiving (if len == 0 then recv_etx else recv_data) buffer 0 len ch max cb d
  unfolding recv_length
  recv_length-low ch len pos buffer hl = rw (joined len hl) refl

  pub recv_add-byte :
      (front rest : List ℕ) (x y pos len ch : ℕ)
      → pos ≡ length front
      → recv_add x (receiving recv_data (front ++ (y ∷ rest)) pos len ch max cb d)
        ≡ done (recv_added (receiving recv_data (front ++ (x ∷ rest)) (pos + 1) len ch max cb d))
  unfolding recv_add
  recv_add-byte front rest x y pos len ch e = rw (
    lt→ltb pos (length (front ++ (y ∷ rest))) (omega (arith, length-append front (y ∷ rest))),
    set-append_at front y x rest pos e,
  )

  pub recv_burst-data :
      (front bs more rest : List ℕ) (b ch pos len : ℕ)
      → pos ≡ length front
      → len ≡ pos + length (b ∷ bs)
      → length (b ∷ bs) ≤ length rest
      → len ≤ max
      → recv_burst (b ∷ bs ++ more) (receiving recv_data (front ++ rest) pos len ch max cb d)
        ≡ recv_burst more (
            receiving recv_etx
              (front ++ (b ∷ bs ++ drop (length (b ∷ bs)) rest))
              len
              len
              ch
              max
              cb
              d)
  unfolding recv_burst process_recv recv_byte recv_added
  recv_burst-data front bs more [] b ch pos len p l room fits = absurd (omega arith)
  recv_burst-data front [] more (y ∷ rest) b ch pos len p l room fits =
      let end : pos + 1 ≡ len = omega arith in
      rw (recv_add-byte front rest b y pos len ch p, le→leb len (pos + 1) (omega arith), end)
  recv_burst-data front (c ∷ cs) more (y ∷ rest) b ch pos len p l room fits =
      rw
        (
          recv_add-byte front rest b y pos len ch p,
          gt→leb len (pos + 1) (omega arith),
          gt→leb max (pos + 1) (omega arith),
        )
        (rw
          (
            append_assoc front (b ∷ []) rest,
            append_assoc front (b ∷ []) (c ∷ cs ++ drop (length (c ∷ cs)) rest),
          )
          at
          (recv_burst-data (front ++ (b ∷ [])) cs more rest c ch (pos + 1) len
            (omega (arith, length-append front (b ∷ []))) (omega arith) (omega arith) fits))
