-- ===== src/Lsd/SyncLink.antt =====
-- Two ends of the link that wait for each other's frame by src/mw/lsd.c.
use mega_drive_megawifi_appl.Base.{
  length-append, ℕ, ◌+◌, ◌≤◌, ◌<◌, ◌≡◌, ◌∙◌, ap, sym, true, false, Option, some, List, [], ◌∷◌,
  ◌++◌, length, append-nil, done, arith,
}
use mega_drive_megawifi_appl.Lsd.{
  Lsd, complete, send_idle, is_receiving, usable, recv_idle, lsd_stx_etx,
}
use mega_drive_megawifi_appl.Lsd.Frame.{frame}
use mega_drive_megawifi_appl.Lsd.Send.{frame_sent}
use mega_drive_megawifi_appl.Lsd.Polling.{lsd_send_sync, lsd_recv_sync}
use mega_drive_megawifi_appl.Lsd.Wire.{Wire, wire, heard, spread, heard-spread, length-spread, sum}
use mega_drive_megawifi_appl.Lsd.Fields.{frame_received}
use mega_drive_megawifi_appl.Lsd.SendSync.{lsd_send_sync-frame}
use mega_drive_megawifi_appl.Lsd.RecvSync.{lsd_recv_sync-frame}

pub length-frame : (ch : ℕ) (bytes : List ℕ) → length (frame ch bytes) ≡ length bytes + 4
length-frame ch bytes = omega (arith, length-append bytes (lsd_stx_etx ∷ []))

-- What `lsd_send_sync` puts on a silent line, `lsd_recv_sync` takes from it whole at the other end,
-- whatever polls find the sender's UART busy or the receiver's empty: both are told that it is complete,
-- the receiver gets the length and the channel, and nothing is left on the line. Both use the channel and are
-- idle, the data is 1 to 4095 bytes and fits the buffer, and the fuel is more than the polls and the
-- bytes.
pub lsd_send_sync-lsd_recv_sync :
    (f f' ch max b : ℕ) (bs spare buffer gaps : List ℕ) (a d : Lsd) (w v : Wire)
    → a.tx.stat ≡ send_idle
    → is_receiving a.rx.stat ≡ false
    → d.tx.stat ≡ send_idle
    → d.rx.stat ≡ recv_idle
    → usable a ch ≡ true
    → usable d ch ≡ true
    → w.out ≡ []
    → length (b ∷ bs) ≤ max
    → max < 4096
    → max ≤ length buffer
    → length (b ∷ bs) + 4 + length w.tx < f
    → length (b ∷ bs) + 4 + sum gaps < f'
    → (w' : Wire) × (rx' : List (Option ℕ)) × (lsd_send_sync wire f ch
          (b ∷ bs ++ spare)
          (length (b ∷ bs))
          a
          w
        ≡ done (complete, frame_sent ch (b ∷ bs ++ spare) (length (b ∷ bs)) false a, w'))
      × (lsd_recv_sync wire f' buffer max d (record v { rx = spread gaps w'.out })
          ≡ done (
            complete,
            some (length (b ∷ bs), ch),
            frame_received d max false ch (b ∷ bs) buffer,
            record v { rx = rx' },
          ))
      × (heard rx' ≡ [])
lsd_send_sync-lsd_recv_sync f f' ch max b bs spare buffer gaps a d w v aidle aquiet didle dridle ua
      ud silent fits small room more more' =
    let (w', p, q) = lsd_send_sync-frame f ch b bs spare a w aidle ua aquiet (omega arith) more in
    let line : w'.out ≡ frame ch (b ∷ bs) = q.whole ∙ ap (λ l. l ++ frame ch (b ∷ bs)) silent in
    let comes = heard-spread gaps w'.out ∙ line ∙ sym (append-nil (frame ch (b ∷ bs))) in
    let size = ap length line ∙ length-frame ch (b ∷ bs) in
    let (rx', r, left) =
      lsd_recv_sync-frame f' max buffer d (record v { rx = spread gaps w'.out }) ch 0 [] (b ∷ bs) []
        tt comes didle dridle ud fits small room (omega (arith, length-spread gaps w'.out)) in
    (w', rx', p, r, left)
