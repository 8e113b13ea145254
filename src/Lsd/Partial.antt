-- ===== src/Lsd/Partial.antt =====
-- Frames longer than the buffer that src/mw/lsd.c was given.
use mega_drive_megawifi_appl.Base.{
  ℕ, ◌+◌, ◌-◌, ◌≤◌, ◌<◌, ◌≡◌, refl, ◌∙◌, sym, Bool, true, List, [], ◌∷◌, ◌++◌, length, drop,
  append_assoc, done, ◌>>=◌, arith, le→leb, gt→leb, ne→==, length-append, take-append, Bool-cases,
  inl, inr,
}
use mega_drive_megawifi_appl.Lsd.{
  Lsd, recv_stx, recv_data, recv_partial, lsd_stx_etx, lsd_max_len, report, received, complete,
  busy, usable, process_recv, recv_byte, recv_added, recv_complete, recv_burst, lsd_recv,
}
use mega_drive_megawifi_appl.Lsd.Frame.{frame}
use mega_drive_megawifi_appl.Lsd.Fields.{
  receiving, frame_received, recv_add-byte, recv_burst-data, recv_channel-header, recv_length-low,
}
use mega_drive_megawifi_appl.Lsd.Receive.{recv_burst-etx}

module _ (d : Lsd) (max : ℕ) (cb : Bool) where
  -- The buffer is full: the caller is told of its contents, and `left` bytes of the frame are to come.
  abbrev pub part_received : ℕ → List ℕ → List ℕ → ℕ → Lsd
  part_received ch part spare left =
      report cb (received complete ch part)
        (receiving recv_partial (part ++ spare) max left ch max cb d)

  recv_burst-full :
      (ch : ℕ) (part spare more : List ℕ) (left : ℕ)
      → recv_burst more (part_received ch part spare left)
        ≡ done (more, part_received ch part spare left)
  unfolding recv_burst
  recv_burst-full ch part spare [] left = refl
  recv_burst-full ch part spare (b ∷ bs) left = elim (Bool-cases cb) [
    | inl t ↦ rw t refl
    | inr f ↦ rw f refl
  ]

  recv_burst-part :
      (front bs more rest : List ℕ) (b ch pos len : ℕ)
      → pos ≡ length front
      → pos + length (b ∷ bs) ≡ max
      → max < len
      → length (b ∷ bs) ≤ length rest
      → recv_burst (b ∷ bs ++ more) (receiving recv_data (front ++ rest) pos len ch max cb d)
        ≡ done
            (more, part_received ch (front ++ (b ∷ bs)) (drop (length (b ∷ bs)) rest) (len - max))
  unfolding recv_burst process_recv recv_byte recv_added recv_complete
  recv_burst-part front bs more [] b ch pos len p m long room = absurd (omega arith)
  recv_burst-part front [] more (y ∷ rest) b ch pos len p m long room =
      let end : pos + 1 ≡ max = omega arith in
      rw
        (
          recv_add-byte d max cb front rest b y pos len ch p,
          gt→leb len (pos + 1) (omega arith),
          le→leb max (pos + 1) (omega arith),
          end,
          sym (append_assoc front (b ∷ []) rest),
          take-append (front ++ (b ∷ [])) rest max (omega (arith, length-append front (b ∷ []))),
        )
        (recv_burst-full ch (front ++ (b ∷ [])) rest more (len - max))
  recv_burst-part front (c ∷ cs) more (y ∷ rest) b ch pos len p m long room =
      rw
        (
          recv_add-byte d max cb front rest b y pos len ch p,
          gt→leb len (pos + 1) (omega arith),
          gt→leb max (pos + 1) (omega arith),
        )
        (rw (append_assoc front (b ∷ []) rest, append_assoc front (b ∷ []) (c ∷ cs)) at
          (recv_burst-part (front ++ (b ∷ [])) cs more rest c ch (pos + 1) len
            (omega (arith, length-append front (b ∷ []))) (omega arith) long (omega arith)))

  recv_burst-first_part :
      (ch pos n c b : ℕ) (bs others buffer : List ℕ)
      → usable d ch ≡ true
      → length (b ∷ bs ++ others) < 4096
      → length (b ∷ bs) ≡ max
      → max < length (b ∷ bs ++ others)
      → length (b ∷ bs) ≤ length buffer
      → recv_burst (frame ch (b ∷ bs ++ others)) (receiving recv_stx buffer pos n c max cb d)
        ≡ done (
          others ++ (lsd_stx_etx ∷ []),
          part_received ch
              (b ∷ bs)
              (drop (length (b ∷ bs)) buffer)
              (length (b ∷ bs ++ others) - max),
        )
  unfolding recv_burst process_recv recv_byte
  recv_burst-first_part ch pos n c b bs others buffer u short m long room =
      rw
        (
          recv_channel-header d max cb ch (length (b ∷ bs ++ others)) pos n c buffer (ground arith)
              short u,
          recv_length-low d max cb ch (length (b ∷ bs ++ others)) pos buffer short,
          ne→== (length (b ∷ bs ++ others)) 0 (λ e. omega arith),
          append_assoc bs others (lsd_stx_etx ∷ []),
        )
        (recv_burst-part [] bs (others ++ (lsd_stx_etx ∷ [])) buffer b ch 0
          (length (b ∷ bs ++ others)) refl (omega arith) long room)

  -- A buffer given while a frame is cut short takes the frame's next bytes.
  lsd_recv-next :
      (ch max' left : ℕ) (part spare buffer : List ℕ)
      → max' < 4096
      → lsd_recv buffer max' cb (part_received ch part spare left) ≡ (
        busy,
        receiving recv_data buffer 0 left ch max' cb (report cb (received complete ch part) d),
      )
  unfolding lsd_recv
  lsd_recv-next ch max' left part spare buffer small =
      rw (gt→leb (lsd_max_len + 1) max' (omega arith))
        (elim (Bool-cases cb) [ inl t ↦ rw t refl | inr f ↦ rw f refl ])

  -- A frame longer than the buffer is received in two calls of `lsd_recv`, if the second buffer has
  -- room for what the first has not: the first buffer is filled and reported, the second gets the
  -- rest, and nothing of the frame is lost or left on the line.
  pub recv_burst-two_parts :
      (ch pos n c max' a b : ℕ) (xs bs buffer buffer' : List ℕ)
      → usable d ch ≡ true
      → length (a ∷ xs ++ (b ∷ bs)) < 4096
      → length (a ∷ xs) ≡ max
      → max ≤ length buffer
      → max' < 4096
      → length (b ∷ bs) ≤ max'
      → length (b ∷ bs) ≤ length buffer'
      → (recv_burst (frame ch (a ∷ xs ++ (b ∷ bs))) (receiving recv_stx buffer pos n c max cb d)
          >>= λ first. recv_burst (first.0) ((lsd_recv buffer' max' cb (first.1)).1))
        ≡ done (
          [],
          frame_received (report cb (received complete ch (a ∷ xs)) d) max' cb ch (b ∷ bs) buffer',
        )
  recv_burst-two_parts ch pos n c max' a b xs bs buffer buffer' u short m room small fits room' =
      rw
        (
          recv_burst-first_part ch pos n c a xs (b ∷ bs) buffer u short m
              (omega (arith, length-append xs (b ∷ bs))) (omega arith),
          lsd_recv-next ch max' (length (a ∷ xs ++ (b ∷ bs)) - max) (a ∷ xs)
              (drop (length (a ∷ xs)) buffer) buffer' small,
          left,
        )
        (recv_burst-data told max' cb [] bs (lsd_stx_etx ∷ []) buffer' b ch 0 (length (b ∷ bs)) refl
            (omega arith) room' fits
          ∙ recv_burst-etx told max' cb ch [] (b ∷ bs) buffer')
    where
      told : Lsd
      told = report cb (received complete ch (a ∷ xs)) d

      left : length (a ∷ xs ++ (b ∷ bs)) - max ≡ length (b ∷ bs)
      left = omega (arith, length-append xs (b ∷ bs))
