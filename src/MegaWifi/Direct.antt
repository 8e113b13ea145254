-- ===== src/MegaWifi/Direct.antt =====
-- The inline functions of src/mw/megawifi.h, which hand data straight to the link of src/mw/lsd.c. `buf` is
-- the memory that the caller's pointer refers to.
use mega_drive_megawifi_appl.Base.{
  ℕ, ◌≤◌, ◌<◌, ◌≡◌, refl, Bool, true, List, ◌∷◌, length, Outcome, fault, arith,
}
use mega_drive_megawifi_appl.Lsd.{
  Lsd, LsdStatus, busy, recv_idle, usable, lsd_send, lsd_recv, recv_burst,
}
use mega_drive_megawifi_appl.Lsd.Frame.{frame}
use mega_drive_megawifi_appl.Lsd.Polling.{Serial, lsd_process}
use mega_drive_megawifi_appl.Lsd.Link.{lsd_recv-started}
use mega_drive_megawifi_appl.Lsd.Overrun.{recv_burst-frame_overrun}
use mega_drive_megawifi_appl.MegaWifi.{mw_cmd_size}

unfoldable pub mw_process : {S : Type 0} → Serial S → ℕ → Lsd → S → Outcome (Lsd × S)
mw_process uart = lsd_process uart

unfoldable pub mw_recv : List ℕ → ℕ → Bool → Lsd → LsdStatus × Lsd
mw_recv buf len cb d = lsd_recv buf len cb d

unfoldable pub mw_udp_reuse_recv : List ℕ → ℕ → Bool → Lsd → LsdStatus × Lsd
mw_udp_reuse_recv payload len cb d = lsd_recv payload len cb d

unfoldable pub mw_udp_reuse_send : ℕ → List ℕ → ℕ → Bool → Lsd → LsdStatus × Lsd
mw_udp_reuse_send ch payload len cb d = lsd_send ch payload len cb d

unfoldable pub mw_send : ℕ → List ℕ → ℕ → Bool → Lsd → LsdStatus × Lsd
mw_send ch buf len cb d = lsd_send ch buf len cb d

unfoldable pub mw_cmd_recv : List ℕ → Bool → Lsd → LsdStatus × Lsd
mw_cmd_recv rep cb d = lsd_recv rep mw_cmd_size cb d

-- A frame on a channel in use that is longer than the command buffer, but not than the 972 bytes of
-- the largest message, is written past the end of the buffer that `mw_cmd_recv` was given.
pub mw_cmd_recv-overrun :
    (ch b : ℕ) (bs rep : List ℕ) (cb : Bool) (d : Lsd)
    → d.rx.stat ≡ recv_idle
    → usable d ch ≡ true
    → length (b ∷ bs) ≤ 972
    → length rep < length (b ∷ bs)
    → let started : LsdStatus × Lsd = mw_cmd_recv rep cb d in
      (started.0 ≡ busy) × (recv_burst (frame ch (b ∷ bs)) (started.1) ≡ fault)
unfolding mw_cmd_recv
mw_cmd_recv-overrun ch b bs rep cb d idle u fits short =
    rw (lsd_recv-started rep mw_cmd_size cb d (omega arith) idle) (
      refl,
      recv_burst-frame_overrun d mw_cmd_size cb ch (d.rx.pos) (d.rx.frame_len) (d.rx.ch) b bs rep u
          (omega arith) fits short,
    )
