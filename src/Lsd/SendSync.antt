-- ===== src/Lsd/SendSync.antt =====
-- `lsd_send_sync` of src/mw/lsd.c.
use mega_drive_megawifi_appl.Base.{
  ℕ, ◌+◌, ◌<◌, ◌≡◌, refl, true, false, List, ◌∷◌, ◌++◌, length, done, arith,
}
use mega_drive_megawifi_appl.Lsd.{
  Lsd, complete, busy, send_idle, send_stx, is_send_idle, is_receiving, usable, lsd_send,
}
use mega_drive_megawifi_appl.Lsd.Frame.{frame}
use mega_drive_megawifi_appl.Lsd.Send.{sending, frame_sent, send_burst-frame, lsd_send-taken}
use mega_drive_megawifi_appl.Lsd.Polling.{send_wait, lsd_send_sync}
use mega_drive_megawifi_appl.Lsd.Wire.{Wire, wire}
use mega_drive_megawifi_appl.Lsd.Sending.{UnderWay, Put, send_wait-sending}

lsd_send_sync-waits :
    (f ch len : ℕ) (bytes : List ℕ) (d d' e : Lsd) (w w' : Wire)
    → lsd_send ch bytes len false d ≡ (busy, d')
    → send_wait wire f d' w ≡ done (e, w')
    → is_send_idle e.tx.stat ≡ true
    → lsd_send_sync wire f ch bytes len d w ≡ done (complete, e, w')
unfolding lsd_send_sync
lsd_send_sync-waits f ch len bytes d d' e w w' p q idle = rw (p, q, idle) refl

-- A frame of 1 to 4095 bytes on a channel in use, with none sent and none received just then, is put
-- on the line whole and reported complete, however many polls find the UART busy, if the fuel is more
-- than those polls and the bytes of the frame; what comes in meanwhile stays on the line.
pub lsd_send_sync-frame :
    (f ch b : ℕ) (bs rest : List ℕ) (d : Lsd) (w : Wire)
    → d.tx.stat ≡ send_idle
    → usable d ch ≡ true
    → is_receiving d.rx.stat ≡ false
    → length (b ∷ bs) < 4096
    → length (b ∷ bs) + 4 + length w.tx < f
    → (w' : Wire) × (lsd_send_sync wire f ch (b ∷ bs ++ rest) (length (b ∷ bs)) d w
        ≡ done (complete, frame_sent ch (b ∷ bs ++ rest) (length (b ∷ bs)) false d, w'))
      × Put w (w.out ++ frame ch (b ∷ bs)) w'
lsd_send_sync-frame f ch b bs rest d w idle u quiet short more =
    let taken = lsd_send-taken ch (length (b ∷ bs)) (b ∷ bs ++ rest) false d idle u short in
    let (x, run) =
      rw taken at
        (send_burst-frame ch (length (b ∷ bs) + 4) b bs rest false d idle u short (omega arith)) in
    let under : UnderWay (length (b ∷ bs) + 4)
        (sending send_stx 0 ch (b ∷ bs ++ rest) (length (b ∷ bs)) false d) w
        (w.out ++ frame ch (b ∷ bs)) (frame_sent ch (b ∷ bs ++ rest) (length (b ∷ bs)) false d) =
      record {
        rest = frame ch (b ∷ bs);
        sends = record { run = run; idle = refl };
        put = refl;
        quiet = quiet;
      } in
    let (w', p, q) = send_wait-sending f (length (b ∷ bs) + 4) _ w _ _ under more in
    (w', lsd_send_sync-waits f ch (length (b ∷ bs)) (b ∷ bs ++ rest) d _ _ w w' taken p refl, q)
