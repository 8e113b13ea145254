-- ===== src/Lsd/Overrun.antt =====
-- Frames longer than the buffer that src/mw/lsd.c was told is long enough for them.
use mega_drive_megawifi_appl.Base.{
  ℕ, ◌+◌, ◌≤◌, ◌<◌, ◌≡◌, refl, Bool, true, List, [], ◌∷◌, ◌++◌, length, append_assoc, fault, arith,
  ge→ltb, gt→leb, ne→==, length-append, append-nil,
}
use mega_drive_megawifi_appl.Lsd.{
  Lsd, recv_stx, recv_data, lsd_stx_etx, usable, process_recv, recv_byte, recv_add, recv_added,
  recv_burst,
}
use mega_drive_megawifi_appl.Lsd.Frame.{frame}
use mega_drive_megawifi_appl.Lsd.Fields.{
  receiving, recv_add-byte, recv_channel-header, recv_length-low,
}

module _ (d : Lsd) (max : ℕ) (cb : Bool) where
  recv_add-fault :
      (front : List ℕ) (b pos len ch : ℕ)
      → pos ≡ length front
      → recv_add b (receiving recv_data (front ++ []) pos len ch max cb d) ≡ fault
  unfolding recv_add
  recv_add-fault front b pos len ch p =
      rw (append-nil front, ge→ltb pos (length front) (omega arith)) refl

  recv_burst-overrun :
      (front bs more rest : List ℕ) (b ch pos len : ℕ)
      → pos ≡ length front
      → len ≡ pos + length (b ∷ bs)
      → len ≤ max
      → length rest < length (b ∷ bs)
      → recv_burst (b ∷ bs ++ more) (receiving recv_data (front ++ rest) pos len ch max cb d)
        ≡ fault
  unfolding recv_burst process_recv recv_byte recv_added
  recv_burst-overrun front bs more [] b ch pos len p n fits short =
      rw (recv_add-fault front b pos len ch p) refl
  recv_burst-overrun front [] more (y ∷ rest) b ch pos len p n fits short = absurd (omega arith)
  recv_burst-overrun front (c ∷ cs) more (y ∷ rest) b ch pos len p n fits short =
      rw
        (
          recv_add-byte d max cb front rest b y pos len ch p,
          gt→leb len (pos + 1) (omega arith),
          gt→leb max (pos + 1) (omega arith),
        )
        (rw (append_assoc front (b ∷ []) rest) at (
          recv_burst-overrun (front ++ (b ∷ [])) cs more rest c ch (pos + 1) len
            (omega (arith, length-append front (b ∷ []))) (omega arith) fits (omega arith)))

  -- A frame longer than the buffer, but not than `max`, writes past it.
  pub recv_burst-frame_overrun :
      (ch pos n c b : ℕ) (bs buffer : List ℕ)
      → usable d ch ≡ true
      → length (b ∷ bs) < 4096
      → length (b ∷ bs) ≤ max
      → length buffer < length (b ∷ bs)
      → recv_burst (frame ch (b ∷ bs)) (receiving recv_stx buffer pos n c max cb d) ≡ fault
  unfolding recv_burst process_recv recv_byte
  recv_burst-frame_overrun ch pos n c b bs buffer u small fits short =
      rw
        (
          recv_channel-header d max cb ch (length (b ∷ bs)) pos n c buffer (ground arith) small u,
          recv_length-low d max cb ch (length (b ∷ bs)) pos buffer small,
          ne→== (length (b ∷ bs)) 0 (λ e. omega arith),
        )
        (recv_burst-overrun [] bs (lsd_stx_etx ∷ []) buffer b ch 0 (length (b ∷ bs)) refl
          (omega arith) fits short)
