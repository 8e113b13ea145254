-- ===== src/Lsd/RecvSync.antt =====
-- `lsd_recv_sync` of src/mw/lsd.c.
use mega_drive_megawifi_appl.Base.{
  All, ◌/◌, ◌*◌, bit_and, ◌≢◌, ◌%◌, replicate, drop, if◌then◌else◌, ℕ, ◌≤◌, ◌<◌, ◌≡◌, refl, ◌∙◌, ap,
  true, false, Option, none, some, List, ◌∷◌, ◌++◌, length, done, arith, Bool-cases, inl, inr,
}
use mega_drive_megawifi_appl.Lsd.{
  Lsd, LsdStatus, complete, busy, send_idle, is_send_idle, is_receiving, usable, lsd_recv,
  recv_burst, recv_idle, recv_stx, general_error, lsd_stx_etx,
}
use mega_drive_megawifi_appl.Lsd.Frame.{frame, header}
use mega_drive_megawifi_appl.Lsd.Polling.{recv_wait, lsd_recv_sync, is_recv_idle}
use mega_drive_megawifi_appl.Lsd.Wire.{Wire, wire, heard}
use mega_drive_megawifi_appl.Lsd.Fields.{receiving, frame_received}
use mega_drive_megawifi_appl.Lsd.Receive.{
  recv_burst-frame, recv_burst-framing, recv_burst-invalid_ch,
}
use mega_drive_megawifi_appl.Lsd.Link.{lsd_recv-started}
use mega_drive_megawifi_appl.Lsd.Awaiting.{recv_wait-Coming}

-- What the caller of `lsd_recv_sync` is told where the reception ends in `e`.
abbrev told_of : Lsd → LsdStatus × Option (ℕ × ℕ)
told_of e =
    if is_recv_idle e.rx.stat then (complete, some (e.rx.pos, e.rx.ch)) else (general_error, none)

lsd_recv_sync-waits :
    (f len : ℕ) (buf : List ℕ) (d d' e : Lsd) (w w' : Wire)
    → lsd_recv buf len false d ≡ (busy, d')
    → recv_wait wire f d' w ≡ done (e, w')
    → lsd_recv_sync wire f buf len d w ≡ done ((told_of e).0, (told_of e).1, e, w')
unfolding lsd_recv_sync
lsd_recv_sync-waits f len buf d d' e w w' p q =
    rw (p, q) (elim (Bool-cases (is_recv_idle e.rx.stat)) [ inl t ↦ rw t refl | inr f ↦ rw f refl ])

-- The state in which `lsd_recv` leaves an idle module, with no callback.
abbrev awaiting : List ℕ → ℕ → Lsd → Lsd
awaiting buffer max d = receiving recv_stx buffer (d.rx.pos) (d.rx.frame_len) (d.rx.ch) max false d

module _ (f max : ℕ) (buffer : List ℕ) (d : Lsd) (w : Wire) where
  pub lsd_recv_sync-ends :
      (rest : List ℕ) (e : Lsd)
      → d.tx.stat ≡ send_idle
      → d.rx.stat ≡ recv_idle
      → max < 4096
      → length w.rx < f
      → recv_burst (heard w.rx) (awaiting buffer max d) ≡ done (rest, e)
      → is_receiving e.rx.stat ≡ false
      → (rx' : List (Option ℕ)) × (lsd_recv_sync wire f buffer max d w
          ≡ done ((told_of e).0, (told_of e).1, e, record w { rx = rx' }))
        × (heard rx' ≡ rest)
  lsd_recv_sync-ends rest e sidle ridle small more run over =
      let (rx', p, left) =
        recv_wait-Coming f (awaiting buffer max d) w w.rx rest e
          (record { run = run; over = over; quiet = ap is_send_idle sidle }) more in
      (
        rx',
        lsd_recv_sync-waits f max buffer d (awaiting buffer max d) e w (record w { rx = rx' })
            (lsd_recv-started buffer max false d small ridle) p,
        left,
      )

  -- A frame that fits the buffer is received whole, whatever polls find nothing and whatever noise and
  -- flags stand before it, if the fuel is more than the polls and the bytes that come: the caller gets
  -- the length and the channel, and what follows the frame is left on the line.
  pub lsd_recv_sync-frame :
      (ch n : ℕ) (noise bytes rest : List ℕ)
      → All (λ b. b ≢ lsd_stx_etx) noise
      → heard w.rx ≡ noise ++ (replicate n lsd_stx_etx ++ (frame ch bytes ++ rest))
      → d.tx.stat ≡ send_idle
      → d.rx.stat ≡ recv_idle
      → usable d ch ≡ true
      → length bytes ≤ max
      → max < 4096
      → max ≤ length buffer
      → length w.rx < f
      → (rx' : List (Option ℕ)) × (lsd_recv_sync wire f buffer max d w
          ≡ done (
            complete,
            some (length bytes, ch),
            frame_received d max false ch bytes buffer,
            record w { rx = rx' },
          ))
        × (heard rx' ≡ rest)
  lsd_recv_sync-frame ch n noise bytes rest quiet comes sidle ridle u fits small room more =
      lsd_recv_sync-ends rest (frame_received d max false ch bytes buffer) sidle ridle small more
        (ap (λ l. recv_burst l (awaiting buffer max d)) comes
          ∙ recv_burst-frame d max false ch n (d.rx.pos) (d.rx.frame_len) (d.rx.ch) noise bytes rest
              buffer quiet u (omega arith) (omega arith) fits)
        refl

  -- A frame that is not closed by a flag where its length says that it ends is reported complete, with
  -- its length, just as a good one: the error leaves the module idle, and that is all that is tested.
  pub lsd_recv_sync-framing :
      (ch x n : ℕ) (noise bytes rest : List ℕ)
      → All (λ b. b ≢ lsd_stx_etx) noise
      → x ≢ lsd_stx_etx
      → heard w.rx
        ≡ noise
          ++ (replicate n lsd_stx_etx
              ++ (lsd_stx_etx
                  ∷ header ch (length bytes)
                  ∷ length bytes % 256
                  ∷ (bytes ++ (x ∷ rest))))
      → d.tx.stat ≡ send_idle
      → d.rx.stat ≡ recv_idle
      → usable d ch ≡ true
      → length bytes ≤ max
      → max < 4096
      → max ≤ length buffer
      → length w.rx < f
      → (rx' : List (Option ℕ)) × (lsd_recv_sync wire f buffer max d w
          ≡ done (
            complete,
            some (length bytes, ch),
            receiving recv_idle
                (bytes ++ drop (length bytes) buffer)
                (length bytes)
                (length bytes)
                ch
                max
                false
                d,
            record w { rx = rx' },
          ))
        × (heard rx' ≡ rest)
  lsd_recv_sync-framing ch x n noise bytes rest quiet nx comes sidle ridle u fits small room more =
      lsd_recv_sync-ends rest _ sidle ridle small more
        (ap (λ l. recv_burst l (awaiting buffer max d)) comes
          ∙ recv_burst-framing d max false ch x n (d.rx.pos) (d.rx.frame_len) (d.rx.ch) noise bytes
              rest buffer quiet u (omega arith) (omega arith) fits nx)
        refl

  -- A frame on a channel not in use is reported complete too, on that channel, with whatever length the
  -- module had from before.
  pub lsd_recv_sync-refused :
      (b n : ℕ) (noise rest : List ℕ)
      → All (λ b. b ≢ lsd_stx_etx) noise
      → b ≢ lsd_stx_etx
      → heard w.rx ≡ noise ++ (replicate n lsd_stx_etx ++ (lsd_stx_etx ∷ b ∷ rest))
      → d.tx.stat ≡ send_idle
      → d.rx.stat ≡ recv_idle
      → usable d (b / 16) ≡ false
      → max < 4096
      → length w.rx < f
      → (rx' : List (Option ℕ)) × (lsd_recv_sync wire f buffer max d w
          ≡ done (
            complete,
            some (d.rx.pos, b / 16),
            receiving recv_idle buffer (d.rx.pos) (bit_and b 0x0F * 256) (b / 16) max false d,
            record w { rx = rx' },
          ))
        × (heard rx' ≡ rest)
  lsd_recv_sync-refused b n noise rest quiet nb comes sidle ridle u small more =
      lsd_recv_sync-ends rest _ sidle ridle small more
        (ap (λ l. recv_burst l (awaiting buffer max d)) comes
          ∙ recv_burst-invalid_ch d max false b n (d.rx.pos) (d.rx.frame_len) (d.rx.ch) noise rest
              buffer quiet nb u)
        refl
