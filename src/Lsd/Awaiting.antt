-- ===== src/Lsd/Awaiting.antt =====
-- `lsd_process` of src/mw/lsd.c while a frame is received and none is sent, and the wait for it.
use mega_drive_megawifi_appl.Base.{
  ℕ, zero, suc, ◌-◌, ◌<◌, ◌≡◌, refl, ◌∙◌, ap, true, false, Option, none, some, List, [], ◌∷◌,
  length, done, Bool-cases, inl, inr, arith,
}
use mega_drive_megawifi_appl.Lsd.{Lsd, is_send_idle, is_receiving}
use mega_drive_megawifi_appl.Lsd.Polling.{recv_loop, recv_phase, send_phase, lsd_process, recv_wait}
use mega_drive_megawifi_appl.Lsd.Wire.{Wire, wire, suc-minus_one, heard}
use mega_drive_megawifi_appl.Lsd.Hearing.{
  Coming, Coming-stop, Coming-some, Coming-next, Taken, Taken-all, Taken-gap, Taken-after, at_rx,
  recv_loop-byte, recv_loop-Coming,
}

module _ (d : Lsd) (w : Wire) where
  recv_phase-stop :
      (n : ℕ) → is_receiving d.rx.stat ≡ false → recv_phase wire n d w ≡ done (false, d, w)
  unfolding recv_phase
  recv_phase-stop n off = rw off refl

  recv_phase-gap :
      (n : ℕ) (rx : List (Option ℕ))
      → is_receiving d.rx.stat ≡ true
      → recv_phase wire n d (at_rx (none ∷ rx) w) ≡ done (false, d, at_rx rx w)
  unfolding recv_phase
  recv_phase-gap n rx on = rw on refl

  recv_phase-bytes :
      (n b : ℕ) (rx rx' : List (Option ℕ)) (d' : Lsd)
      → is_receiving d.rx.stat ≡ true
      → recv_loop wire n d (at_rx (some b ∷ rx) w) ≡ done (d', at_rx rx' w)
      → recv_phase wire n d (at_rx (some b ∷ rx) w) ≡ done (true, d', at_rx rx' w)
  unfolding recv_phase
  recv_phase-bytes n b rx rx' d' on p = rw (on, p) refl

send_phase-none :
    (d : Lsd) (w : Wire) → is_send_idle d.tx.stat ≡ true → send_phase wire d w ≡ done (false, d, w)
unfolding send_phase
send_phase-none d w idle = rw idle refl

-- A round of `lsd_process` while nothing is sent.
lsd_process-stop :
    (f : ℕ) (d : Lsd) (w : Wire) (d' : Lsd) (w' : Wire)
    → is_send_idle d'.tx.stat ≡ true
    → recv_phase wire (suc f) d w ≡ done (false, d', w')
    → lsd_process wire (suc f) d w ≡ done (d', w')
unfolding lsd_process
lsd_process-stop f d w d' w' idle p = rw (p, send_phase-none d' w' idle) refl

lsd_process-more :
    (f : ℕ) (d : Lsd) (w : Wire) (d' : Lsd) (w' : Wire)
    → is_send_idle d'.tx.stat ≡ true
    → recv_phase wire (suc f) d w ≡ done (true, d', w')
    → lsd_process wire (suc f) d w ≡ lsd_process wire f d' w'
unfolding lsd_process
lsd_process-more f d w d' w' idle p = rw (p, send_phase-none d' w' idle) refl

lsd_process-Coming :
    (f : ℕ) (d : Lsd) (w : Wire) (rx : List (Option ℕ)) (rest : List ℕ) (e : Lsd)
    → Coming d rx rest e
    → length rx < f
    → (d' : Lsd) × (rx' : List (Option ℕ)) × (lsd_process wire f d (at_rx rx w)
        ≡ done (d', at_rx rx' w))
      × Taken rx rest e d' rx'
lsd_process-Coming zero d w rx rest e c more = absurd (omega arith)
lsd_process-Coming (suc f) d w [] rest e c more = elim (Bool-cases (is_receiving d.rx.stat)) [
  | inl on ↦ let some_left = Coming-some d [] rest e c on in absurd (omega arith)
  | inr off ↦ (
    d,
    [],
    lsd_process-stop f d (at_rx [] w) d (at_rx [] w) c.quiet
        (recv_phase-stop d (at_rx [] w) (suc f) off),
    Taken-all d [] rest e c off,
  )
]
lsd_process-Coming (suc f) d w (none ∷ rx) rest e c more =
    elim (Bool-cases (is_receiving d.rx.stat)) [
      | inl on ↦ (
        d,
        rx,
        lsd_process-stop f d (at_rx (none ∷ rx) w) d (at_rx rx w) c.quiet
            (recv_phase-gap d w (suc f) rx on),
        Taken-gap d rx rest e c,
      )
      | inr off ↦
          let now : Wire = at_rx (none ∷ rx) w in
          (
            d,
            none ∷ rx,
            lsd_process-stop f d now d now c.quiet (recv_phase-stop d now (suc f) off),
            Taken-all d (none ∷ rx) rest e c off,
          )
    ]
lsd_process-Coming (suc f) d w (some b ∷ rx) rest e c more =
    elim (Bool-cases (is_receiving d.rx.stat)) [
      | inr off ↦
          let now : Wire = at_rx (some b ∷ rx) w in
          (
            d,
            some b ∷ rx,
            lsd_process-stop f d now d now c.quiet (recv_phase-stop d now (suc f) off),
            Taken-all d (some b ∷ rx) rest e c off,
          )
      | inl on ↦
          let (d1, p, c1) = Coming-next b d rx rest e c on in
          let (d2, rx2, q, t2) = recv_loop-Coming f d1 w rx rest e c1 (omega arith) in
          let all = recv_loop-byte d w f b rx d1 on p ∙ q in
          let (d', rx', r, t) =
            lsd_process-Coming f d2 w rx2 rest e t2.still (omega (arith, t2.no_more)) in
          (
            d',
            rx',
            lsd_process-more f d (at_rx (some b ∷ rx) w) d2 (at_rx rx2 w) (t2.still).quiet
                  (recv_phase-bytes d w (suc f) b rx rx2 d2 on all)
                ∙ r,
            Taken-after (some b ∷ rx) rx2 rest e d' rx' (omega (arith, t2.no_more)) t,
          )
    ]

recv_wait-stop :
    (f : ℕ) (d : Lsd) (w : Wire)
    → is_receiving d.rx.stat ≡ false
    → recv_wait wire (suc f) d w ≡ done (d, w)
unfolding recv_wait
recv_wait-stop f d w off = rw off refl

recv_wait-more :
    (f : ℕ) (d : Lsd) (w : Wire) (d' : Lsd) (w' : Wire)
    → is_receiving d.rx.stat ≡ true
    → lsd_process wire (suc f) d w ≡ done (d', w')
    → recv_wait wire (suc f) d w ≡ recv_wait wire f d' w'
unfolding recv_wait
recv_wait-more f d w d' w' on p = rw (on, p) refl

-- Where a wait for a frame ends: the bytes behind the frame are still on the line.
abbrev pub Awaited : ℕ → Lsd → Wire → List (Option ℕ) → List ℕ → Lsd → Type 0
Awaited f d w rx rest e =
    (rx' : List (Option ℕ)) × (recv_wait wire f d (at_rx rx w) ≡ done (e, at_rx rx' w))
    × (heard rx' ≡ rest)

pub recv_wait-Coming :
    (f : ℕ) (d : Lsd) (w : Wire) (rx : List (Option ℕ)) (rest : List ℕ) (e : Lsd)
    → Coming d rx rest e
    → length rx < f
    → Awaited f d w rx rest e
recv_wait-Coming zero d w rx rest e c more = absurd (omega arith)
recv_wait-Coming (suc f) d w rx rest e c more = elim (Bool-cases (is_receiving d.rx.stat)) [
  | inr off ↦
      let (same, left) = Coming-stop d rx rest e c off in
      (rx, recv_wait-stop f d (at_rx rx w) off ∙ ap (λ x. done (x, at_rx rx w)) same, left)
  | inl on ↦
      let (d', rx', p, t) = lsd_process-Coming (suc f) d w rx rest e c more in
      let some_left = Coming-some d rx rest e c on in
      elim t.progress [
        | inl off ↦
            let (same, left) = Coming-stop d' rx' rest e t.still off in
            (
              rx',
              recv_wait-more f d (at_rx rx w) d' (at_rx rx' w) on p
                  ∙ ap (λ k. recv_wait wire k d' (at_rx rx' w)) (suc-minus_one f (omega arith))
                  ∙ recv_wait-stop (f - 1) d' (at_rx rx' w) off
                  ∙ ap (λ x. done (x, at_rx rx' w)) same,
              left,
            )
        | inr less ↦
            let (rx2, q, left) = recv_wait-Coming f d' w rx' rest e t.still (omega arith) in
            (rx2, recv_wait-more f d (at_rx rx w) d' (at_rx rx' w) on p ∙ q, left)
      ]
]
