-- ===== src/Examples/SyncRuns.antt =====
-- The waiting calls of src/mw/lsd.c on lines with gaps and busy polls, between two ends that use channel 2.
use mega_drive_megawifi_appl.Base.{
  ℕ, ◌≡◌, refl, true, false, Option, none, some, List, [], ◌∷◌, ◌++◌, drop, replicate, done, arith,
}
use mega_drive_megawifi_appl.Lsd.{Lsd, lsd_init, lsd_ch_enable, complete, recv_idle}
use mega_drive_megawifi_appl.Lsd.Send.{frame_sent}
use mega_drive_megawifi_appl.Lsd.Fields.{receiving, frame_received}
use mega_drive_megawifi_appl.Lsd.Polling.{
  lsd_send_sync, lsd_recv_sync, lsd_line_sync, line_sync_rounds,
}
use mega_drive_megawifi_appl.Lsd.Wire.{Wire, wire, heard, spread}
use mega_drive_megawifi_appl.Lsd.RecvSync.{lsd_recv_sync-framing}
use mega_drive_megawifi_appl.Lsd.SyncLink.{lsd_send_sync-lsd_recv_sync}

abbrev start : Lsd
start = (lsd_ch_enable 2 lsd_init).1

abbrev note_on : List ℕ
note_on = 0x90 ∷ 0x7E ∷ 100 ∷ []

abbrev room : List ℕ
room = replicate 8 0

-- A line on which two of the first three polls find the UART busy.
abbrev busy_line : Wire
busy_line = record { rx = []; tx = false ∷ true ∷ false ∷ []; out = [] }

abbrev line_of : List (Option ℕ) → Wire
line_of rx = record { rx = rx; tx = []; out = [] }

lsd_send_sync-lsd_recv_sync_example :
    (w' : Wire) × (rx' : List (Option ℕ)) × (lsd_send_sync wire 16 2
        (note_on ++ (5 ∷ []))
        3
        start
        busy_line
      ≡ done (complete, frame_sent 2 (note_on ++ (5 ∷ [])) 3 false start, w'))
    × (lsd_recv_sync wire 16 room 8 start (record busy_line { rx = spread (1 ∷ 0 ∷ 2 ∷ []) w'.out })
        ≡ done (
          complete,
          some (3, 2),
          frame_received start 8 false 2 note_on room,
          record busy_line { rx = rx' },
        ))
    × (heard rx' ≡ [])
unfolding lsd_init lsd_ch_enable
lsd_send_sync-lsd_recv_sync_example =
    lsd_send_sync-lsd_recv_sync 16 16 2 8 0x90 (0x7E ∷ 100 ∷ []) (5 ∷ []) room (1 ∷ 0 ∷ 2 ∷ [])
      start start busy_line busy_line refl refl refl refl refl refl refl (omega arith) (omega arith)
      (omega arith) (omega arith) (omega arith)

abbrev broken : List (Option ℕ)
broken = some 5 ∷ none ∷ some 0x7E ∷ some 0x20 ∷ some 1 ∷ none ∷ some 9 ∷ some 8 ∷ some 7 ∷ []

lsd_recv_sync-framing_example :
    (rx' : List (Option ℕ)) × (lsd_recv_sync wire 16 room 8 start (line_of broken)
      ≡ done (
        complete,
        some (1, 2),
        receiving recv_idle (9 ∷ drop 1 room) 1 1 2 8 false start,
        line_of rx',
      ))
    × (heard rx' ≡ 7 ∷ [])
unfolding lsd_init lsd_ch_enable
lsd_recv_sync-framing_example =
    lsd_recv_sync-framing 16 8 room start (line_of broken) 2 8 0 (5 ∷ []) (9 ∷ []) (7 ∷ [])
      ((λ e. omega arith), tt) (λ e. omega arith) refl refl refl refl (omega arith) (omega arith)
      (omega arith) (omega arith)

abbrev foreign : List (Option ℕ)
foreign = some 0x7E ∷ some 0x7E ∷ some 0x30 ∷ some 1 ∷ []

-- The sync bytes are skipped where the UART is busy.
line_sync_run : (lsd_line_sync wire busy_line).out ≡ replicate 254 0x55
unfolding lsd_line_sync line_sync_rounds
line_sync_run = refl
