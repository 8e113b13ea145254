-- ===== src/Lsd/Link.antt =====
-- Two ends of the link of src/mw/lsd.c: what one sends, the other receives.
use mega_drive_megawifi_appl.Base.{
  ℕ, ◌+◌, ◌≤◌, ◌<◌, ◌≡◌, ◌≢◌, refl, Bool, true, List, [], ◌∷◌, ◌++◌, length, done, ◌>>=◌, arith,
  gt→leb, append-nil,
}
use mega_drive_megawifi_appl.Lsd.{
  Lsd, lsd_stx_etx, report, received, err_framing, send_idle, recv_idle, recv_stx, lsd_max_len,
  busy, usable, lsd_send, lsd_recv, send_burst, recv_burst,
}
use mega_drive_megawifi_appl.Lsd.Send.{
  send_burst-frame, lsd_send-taken, send_burst-empty, channel_below,
}
use mega_drive_megawifi_appl.Lsd.Fields.{receiving, frame_received}
use mega_drive_megawifi_appl.Lsd.Receive.{recv_burst-frame, recv_burst-framing}

pub lsd_recv-started :
    (buffer : List ℕ) (max : ℕ) (cb : Bool) (d : Lsd)
    → max < 4096
    → d.rx.stat ≡ recv_idle
    → lsd_recv buffer max cb d
      ≡ (busy, receiving recv_stx buffer (d.rx.pos) (d.rx.frame_len) (d.rx.ch) max cb d)
unfolding lsd_recv
lsd_recv-started buffer max cb d small idle =
    rw (gt→leb (lsd_max_len + 1) max (omega arith), idle) refl

-- What one end sends on a channel that both use, the other receives whole into a buffer that has room
-- for it, if the data is 1 to 4095 bytes, both ends are idle and enough steps are run.
pub lsd_send-lsd_recv :
    (ch n max b : ℕ) (bs rest buffer : List ℕ) (cb cb' : Bool) (a d : Lsd)
    → a.tx.stat ≡ send_idle
    → d.rx.stat ≡ recv_idle
    → usable a ch ≡ true
    → usable d ch ≡ true
    → length (b ∷ bs) ≤ max
    → max < 4096
    → max ≤ length buffer
    → length (b ∷ bs) + 4 ≤ n
    → (send_burst n ((lsd_send ch (b ∷ bs ++ rest) (length (b ∷ bs)) cb a).1) >>= λ line.
        recv_burst (line.0) ((lsd_recv buffer max cb' d).1))
      ≡ done ([], frame_received d max cb' ch (b ∷ bs) buffer)
lsd_send-lsd_recv ch n max b bs rest buffer cb cb' a d sidle ridle ua ud fits small room f =
    rw
      (
        (send_burst-frame ch n b bs rest cb a sidle ua (omega arith) f).1,
        lsd_recv-started buffer max cb' d small ridle,
      )
      (rw append-nil at (
        recv_burst-frame d max cb' ch 0 (d.rx.pos) (d.rx.frame_len) (d.rx.ch) [] (b ∷ bs) [] buffer
          tt ud (omega arith) (omega arith) fits))

-- Told to send 0 bytes, one end sends a frame that the other refuses with a framing error, unless the
-- first byte of the sender's buffer happens to be a flag.
pub lsd_send-empty :
    (ch max b : ℕ) (rest buffer : List ℕ) (cb cb' : Bool) (a d : Lsd)
    → a.tx.stat ≡ send_idle
    → d.rx.stat ≡ recv_idle
    → usable a ch ≡ true
    → usable d ch ≡ true
    → max < 4096
    → b ≢ lsd_stx_etx
    → (send_burst 5 ((lsd_send ch (b ∷ rest) 0 cb a).1) >>= λ line.
        recv_burst (line.0) ((lsd_recv buffer max cb' d).1))
      ≡ done (
        lsd_stx_etx ∷ [],
        report cb' (received err_framing 0 []) (receiving recv_idle buffer 0 0 ch max cb' d),
      )
lsd_send-empty ch max b rest buffer cb cb' a d sidle ridle ua ud small nb =
    rw
      (
        lsd_send-taken ch 0 (b ∷ rest) cb a sidle ua (omega arith),
        send_burst-empty ch b rest cb a (channel_below ch a ua),
        lsd_recv-started buffer max cb' d small ridle,
      )
      (recv_burst-framing d max cb' ch b 0 (d.rx.pos) (d.rx.frame_len) (d.rx.ch) [] []
        (lsd_stx_etx ∷ []) buffer tt ud (omega arith) (omega arith) (omega arith) nb)
