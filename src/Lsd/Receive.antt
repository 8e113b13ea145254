-- ===== src/Lsd/Receive.antt =====
-- What src/mw/lsd.c makes of the bytes that come in.
use mega_drive_megawifi_appl.Base.{
  ℕ, zero, suc, ◌*◌, ◌/◌, ◌%◌, ◌≤◌, ◌<◌, bit_and, ◌≡◌, refl, ◌≢◌, ◌∙◌, Bool, true, false, List, [],
  ◌∷◌, ◌++◌, length, drop, replicate, All, append_assoc, ◌==◌, if◌then◌else◌, done, arith, ne→==,
  take-append, Bool-cases, inl, inr,
}
use mega_drive_megawifi_appl.Lsd.{
  Lsd, Report, recv_stx, recv_ch_lenh, recv_data, recv_etx, recv_idle, lsd_stx_etx, report,
  received, complete, err_framing, err_invalid_ch, usable, process_recv, recv_byte, recv_channel,
  recv_end, recv_error, recv_complete, recv_burst,
}
use mega_drive_megawifi_appl.Lsd.Frame.{frame, header}
use mega_drive_megawifi_appl.Lsd.Fields.{
  receiving, frame_received, recv_burst-noise, recv_burst-flags, recv_channel-header,
  recv_length-low, recv_burst-data,
}

module _ (d : Lsd) (max : ℕ) (cb : Bool) where
  recv_end-flag :
      (ch : ℕ) (bytes buffer : List ℕ)
      → recv_end lsd_stx_etx (
          receiving recv_etx
            (bytes ++ drop (length bytes) buffer)
            (length bytes)
            (length bytes)
            ch
            max
            cb
            d)
        ≡ frame_received d max cb ch bytes buffer
  unfolding recv_end recv_complete
  recv_end-flag ch bytes buffer =
      rw (take-append bytes (drop (length bytes) buffer) (length bytes) refl)

  pub recv_burst-idle :
      (ch pos len : ℕ) (more buffer : List ℕ) (r : Report)
      → recv_burst more (report cb r (receiving recv_idle buffer pos len ch max cb d))
        ≡ done (more, report cb r (receiving recv_idle buffer pos len ch max cb d))
  unfolding recv_burst
  recv_burst-idle ch pos len [] buffer r = refl
  recv_burst-idle ch pos len (b ∷ bs) buffer r = elim (Bool-cases cb) [
    | inl t ↦ rw t refl
    | inr f ↦ rw f refl
  ]

  pub recv_burst-etx :
      (ch : ℕ) (more bytes buffer : List ℕ)
      → recv_burst (lsd_stx_etx ∷ more) (
          receiving recv_etx
            (bytes ++ drop (length bytes) buffer)
            (length bytes)
            (length bytes)
            ch
            max
            cb
            d)
        ≡ done (more, frame_received d max cb ch bytes buffer)
  unfolding recv_burst process_recv recv_byte
  recv_burst-etx ch more bytes buffer =
      rw (recv_end-flag ch bytes buffer)
        (recv_burst-idle ch _ _ more _ (received complete ch bytes))

  -- Where the data of a frame has come in: the next byte should be the flag.
  abbrev pub closing : ℕ → List ℕ → List ℕ → Lsd
  closing ch bytes buffer =
      receiving recv_etx (bytes ++ drop (length bytes) buffer) (length bytes) (length bytes) ch max
        cb d

  recv_burst-payload :
      (ch : ℕ) (bytes more buffer : List ℕ)
      → length bytes ≤ length buffer
      → length bytes ≤ max
      → recv_burst (bytes ++ more) (
          receiving
            (if length bytes == 0 then recv_etx else recv_data)
            buffer
            0
            (length bytes)
            ch
            max
            cb
            d)
        ≡ recv_burst more (closing ch bytes buffer)
  recv_burst-payload ch [] more buffer room fits = refl
  recv_burst-payload ch (b ∷ bs) more buffer room fits =
      rw (ne→== (suc (length bs)) 0 (λ e. omega arith)) (
        recv_burst-data d max cb [] bs more buffer b ch 0 (length (b ∷ bs)) refl (omega arith) room
          fits)

  recv_burst-header :
      (ch pos n c : ℕ) (bytes more buffer : List ℕ)
      → usable d ch ≡ true
      → length bytes < 4096
      → length bytes ≤ length buffer
      → length bytes ≤ max
      → recv_burst
          (header ch (length bytes) ∷ length bytes % 256 ∷ (bytes ++ more))
          (receiving recv_ch_lenh buffer pos n c max cb d)
        ≡ recv_burst more (closing ch bytes buffer)
  unfolding recv_burst process_recv recv_byte
  recv_burst-header ch pos n c bytes more buffer u short room fits =
      rw
        (
          recv_channel-header d max cb ch (length bytes) pos n c buffer (ground arith) short u,
          recv_length-low d max cb ch (length bytes) pos buffer short,
        )
        (recv_burst-payload ch bytes more buffer room fits)

  recv_burst-unclosed :
      (ch x : ℕ) (bytes more buffer : List ℕ)
      → x ≢ lsd_stx_etx
      → recv_burst (x ∷ more) (closing ch bytes buffer)
        ≡ done (
          more,
          report cb (received err_framing 0 []) (
              receiving recv_idle
                (bytes ++ drop (length bytes) buffer)
                (length bytes)
                (length bytes)
                ch
                max
                cb
                d),
        )
  unfolding recv_burst process_recv recv_byte recv_end recv_error
  recv_burst-unclosed ch x bytes more buffer nx =
      rw (ne→== x lsd_stx_etx nx) (recv_burst-idle ch _ _ more _ (received err_framing 0 []))

  pub recv_burst-stx :
      (n ch pos len c : ℕ) (rest buffer : List ℕ)
      → recv_burst
          (replicate n lsd_stx_etx ++ (lsd_stx_etx ∷ rest))
          (receiving recv_stx buffer pos len c max cb d)
        ≡ recv_burst rest (receiving recv_ch_lenh buffer pos len c max cb d)
  unfolding recv_burst process_recv recv_byte recv_channel
  recv_burst-stx zero ch pos len c rest buffer = refl
  recv_burst-stx (suc n) ch pos len c rest buffer =
      recv_burst-flags d max cb n pos len c (lsd_stx_etx ∷ rest) buffer

  -- A frame of at most 4095 bytes on a channel in use, that fits the buffer and the maximum given, is
  -- received whole by a module that waits for one, whatever noise without flags and however many flags
  -- stand before it: its data is at the start of the buffer, the caller is told, and what follows the
  -- frame is left on the line.
  pub recv_burst-frame :
      (ch n pos len c : ℕ) (noise bytes more buffer : List ℕ)
      → All (λ b. b ≢ lsd_stx_etx) noise
      → usable d ch ≡ true
      → length bytes < 4096
      → length bytes ≤ length buffer
      → length bytes ≤ max
      → recv_burst
          (noise ++ (replicate n lsd_stx_etx ++ (frame ch bytes ++ more)))
          (receiving recv_stx buffer pos len c max cb d)
        ≡ done (more, frame_received d max cb ch bytes buffer)
  recv_burst-frame ch n pos len c noise bytes more buffer quiet u short room fits =
      recv_burst-noise d max cb noise _ buffer pos len c quiet
      ∙ recv_burst-stx n ch pos len c (drop 1 (frame ch bytes ++ more)) buffer
      ∙ (rw (append_assoc bytes (lsd_stx_etx ∷ []) more) (
          recv_burst-header ch pos len c bytes (lsd_stx_etx ∷ more) buffer u short room fits
          ∙ recv_burst-etx ch more bytes buffer))

  recv_burst-refused :
      (b pos len c : ℕ) (more buffer : List ℕ)
      → b ≢ lsd_stx_etx
      → usable d (b / 16) ≡ false
      → recv_burst (b ∷ more) (receiving recv_ch_lenh buffer pos len c max cb d)
        ≡ done (
          more,
          report cb
              (received err_invalid_ch 0 [])
              (receiving recv_idle buffer pos (bit_and b 0x0F * 256) (b / 16) max cb d),
        )
  unfolding recv_burst process_recv recv_byte recv_channel recv_error
  recv_burst-refused b pos len c more buffer nb u =
      rw (ne→== b lsd_stx_etx nb, u)
        (recv_burst-idle (b / 16) pos _ more buffer (received err_invalid_ch 0 []))

  -- A frame on any other channel is refused at its second byte: the caller is told, reception stops,
  -- and the rest is left on the line.
  pub recv_burst-invalid_ch :
      (b n pos len c : ℕ) (noise more buffer : List ℕ)
      → All (λ b. b ≢ lsd_stx_etx) noise
      → b ≢ lsd_stx_etx
      → usable d (b / 16) ≡ false
      → recv_burst
          (noise ++ (replicate n lsd_stx_etx ++ (lsd_stx_etx ∷ b ∷ more)))
          (receiving recv_stx buffer pos len c max cb d)
        ≡ done (
          more,
          report cb
              (received err_invalid_ch 0 [])
              (receiving recv_idle buffer pos (bit_and b 0x0F * 256) (b / 16) max cb d),
        )
  recv_burst-invalid_ch b n pos len c noise more buffer quiet nb u =
      recv_burst-noise d max cb noise _ buffer pos len c quiet
      ∙ recv_burst-stx n 0 pos len c (b ∷ more) buffer
      ∙ recv_burst-refused b pos len c more buffer nb u

  -- A frame that is not closed by a flag where its length says that it ends is reported as a framing
  -- error, and reception stops.
  pub recv_burst-framing :
      (ch x n pos len c : ℕ) (noise bytes more buffer : List ℕ)
      → All (λ b. b ≢ lsd_stx_etx) noise
      → usable d ch ≡ true
      → length bytes < 4096
      → length bytes ≤ length buffer
      → length bytes ≤ max
      → x ≢ lsd_stx_etx
      → recv_burst
          (noise
            ++ (replicate n lsd_stx_etx
                ++ (lsd_stx_etx
                    ∷ header ch (length bytes)
                    ∷ length bytes % 256
                    ∷ (bytes ++ (x ∷ more)))))
          (receiving recv_stx buffer pos len c max cb d)
        ≡ done (
          more,
          report cb (received err_framing 0 []) (
              receiving recv_idle
                (bytes ++ drop (length bytes) buffer)
                (length bytes)
                (length bytes)
                ch
                max
                cb
                d),
        )
  recv_burst-framing ch x n pos len c noise bytes more buffer quiet u short room fits nx =
      recv_burst-noise d max cb noise _ buffer pos len c quiet
      ∙ recv_burst-stx n 0 pos len c _ buffer
      ∙ recv_burst-header ch pos len c bytes (x ∷ more) buffer u short room fits
      ∙ recv_burst-unclosed ch x bytes more buffer nx
