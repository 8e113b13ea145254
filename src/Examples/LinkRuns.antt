-- ===== src/Examples/LinkRuns.antt =====
-- src/mw/lsd.c between two ends that use channel 2.
use mega_drive_megawifi_appl.Base.{
  ℕ, ◌≡◌, refl, true, List, [], ◌∷◌, ◌++◌, replicate, done, fault, ◌>>=◌, arith,
}
use mega_drive_megawifi_appl.Lsd.{
  Lsd, LsdStatus, busy, lsd_stx_etx, process_send, process_recv, send_step, recv_byte,
  send_data_byte, send_complete, recv_add, recv_added, recv_channel, recv_length, recv_end,
  recv_complete, lsd_init, lsd_ch_enable, lsd_send, lsd_recv, send_burst, recv_burst, report,
  received, complete, err_framing, recv_idle, recv_stx,
}
use mega_drive_megawifi_appl.Lsd.Frame.{frame}
use mega_drive_megawifi_appl.Lsd.Fields.{receiving, frame_received}
use mega_drive_megawifi_appl.Lsd.Receive.{recv_burst-frame}
use mega_drive_megawifi_appl.Lsd.Partial.{recv_burst-two_parts}
use mega_drive_megawifi_appl.MegaWifi.Direct.{mw_cmd_recv, mw_cmd_recv-overrun}
use mega_drive_megawifi_appl.Lsd.Link.{lsd_send-lsd_recv, lsd_send-empty}

-- Just set up, with channel 2 enabled.
abbrev start : Lsd
start = (lsd_ch_enable 2 lsd_init).1

abbrev note_on : List ℕ
note_on = 0x90 ∷ 0x7E ∷ 100 ∷ []

abbrev room : List ℕ
room = replicate 8 0

frame_bytes : frame 2 note_on ≡ 0x7E ∷ 0x20 ∷ 3 ∷ 0x90 ∷ 0x7E ∷ 100 ∷ 0x7E ∷ []
frame_bytes = refl

lsd_send-lsd_recv_example :
    (send_burst 16 ((lsd_send 2 (note_on ++ (5 ∷ [])) 3 true start).1) >>= λ line.
    recv_burst (line.0) ((lsd_recv room 8 true start).1))
    ≡ done ([], frame_received start 8 true 2 note_on room)
unfolding lsd_init lsd_ch_enable
lsd_send-lsd_recv_example =
    lsd_send-lsd_recv 2 16 8 0x90 (0x7E ∷ 100 ∷ []) (5 ∷ []) room true true start start refl refl
      refl refl (omega arith) (omega arith) (omega arith) (omega arith)

lsd_send-empty_example :
    (send_burst 5 ((lsd_send 2 (7 ∷ []) 0 true start).1) >>= λ line.
    recv_burst (line.0) ((lsd_recv room 8 true start).1))
    ≡ done (
      lsd_stx_etx ∷ [],
      report true (received err_framing 0 []) (receiving recv_idle room 0 0 2 8 true start),
    )
unfolding lsd_init lsd_ch_enable
lsd_send-empty_example =
    lsd_send-empty 2 8 7 [] room true true start start refl refl refl refl (omega arith)
      (λ e. absurd (omega arith))

-- Noise, two flags more than the frame has, and the first byte of what follows it.
recv_burst-frame_example :
    recv_burst
      ((1 ∷ 2 ∷ []) ++ (replicate 2 lsd_stx_etx ++ (frame 2 note_on ++ (9 ∷ []))))
      (receiving recv_stx room 0 0 0 8 true start)
    ≡ done (9 ∷ [], frame_received start 8 true 2 note_on room)
unfolding lsd_init lsd_ch_enable
recv_burst-frame_example =
    recv_burst-frame start 8 true 2 2 0 0 0 (1 ∷ 2 ∷ []) note_on (9 ∷ []) room
      ((λ e. absurd (omega arith)), ((λ e. absurd (omega arith)), tt)) refl (omega arith)
      (omega arith) (omega arith)

recv_burst-two_parts_example :
    (recv_burst (frame 2 note_on) (receiving recv_stx (0 ∷ 0 ∷ []) 0 0 0 2 true start) >>= λ first.
    recv_burst (first.0) ((lsd_recv room 8 true (first.1)).1))
    ≡ done (
      [],
      frame_received
          (report true (received complete 2 (0x90 ∷ 0x7E ∷ [])) start)
          8
          true
          2
          (100 ∷ [])
          room,
    )
unfolding lsd_init lsd_ch_enable
recv_burst-two_parts_example =
    recv_burst-two_parts start 2 true 2 0 0 0 8 0x90 100 (0x7E ∷ []) [] (0 ∷ 0 ∷ []) room refl
      (omega arith) refl (omega arith) (omega arith) (omega arith) (omega arith)

link_runs :
    (send_burst 16 ((lsd_send 2 note_on 3 true start).1) >>= λ line.
    recv_burst (line.0) ((lsd_recv room 8 true start).1))
    ≡ done ([], frame_received start 8 true 2 note_on room)
unfolding lsd_init lsd_ch_enable lsd_send lsd_recv send_burst recv_burst process_send process_recv
    send_step recv_byte send_data_byte send_complete recv_add recv_added recv_channel recv_length
    recv_end recv_complete
link_runs = refl

mw_cmd_recv-overrun_example :
    let started : LsdStatus × Lsd = mw_cmd_recv (0 ∷ 0 ∷ []) true start in
    (started.0 ≡ busy) × (recv_burst (frame 2 note_on) (started.1) ≡ fault)
unfolding lsd_init lsd_ch_enable
mw_cmd_recv-overrun_example =
    mw_cmd_recv-overrun 2 0x90 (0x7E ∷ 100 ∷ []) (0 ∷ 0 ∷ []) true start refl refl (omega arith)
      (omega arith)
