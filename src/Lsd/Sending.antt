-- ===== src/Lsd/Sending.antt =====
-- `lsd_process` of src/mw/lsd.c while a frame is sent and none is received.
use mega_drive_megawifi_appl.Base.{
  ℕ, zero, suc, ◌+◌, ◌-◌, ◌≤◌, ◌<◌, ◌≡◌, refl, ◌∙◌, ap, sym, Bool, true, false, List, [], ◌∷◌, ◌++◌,
  length, append_assoc, append-nil, done, Bool-cases, ◌⊎◌, inl, inr, arith,
}
use mega_drive_megawifi_appl.Lsd.{Lsd, is_send_idle, is_receiving, send_burst}
use mega_drive_megawifi_appl.Lsd.Polling.{send_loop, recv_phase, send_phase, lsd_process, send_wait}
use mega_drive_megawifi_appl.Lsd.Bursts.{
  Sends, Sends-Cut, send_burst-idle, send_burst-none, send_burst-inv, send_burst-rx,
}
use mega_drive_megawifi_appl.Lsd.Wire.{Wire, wire, suc-minus_one, puts-wire, tx_poll}

send_loop-idle :
    (k : ℕ) (d : Lsd) (w : Wire)
    → is_send_idle d.tx.stat ≡ true
    → send_loop wire k d w ≡ done (d, w)
unfolding send_loop
send_loop-idle zero d w h = refl
send_loop-idle (suc k) d w h = rw h refl

send_loop-burst :
    (k : ℕ) (d : Lsd) (w : Wire) (bytes : List ℕ) (e : Lsd)
    → send_burst k d ≡ done (bytes, e)
    → send_loop wire k d w ≡ done (e, record w { out = w.out ++ bytes })
unfolding send_loop
send_loop-burst zero d w bytes e h =
    let all = sym (send_burst-none d) ∙ h in
    let nothing : [] ≡ bytes = cc in
    let same : d ≡ e = cc in
    ap (λ x. done (x, w)) same
    ∙ ap (λ l. done (e, record w { out = l }))
        (sym (append-nil w.out) ∙ ap (λ l. w.out ++ l) nothing)
send_loop-burst (suc k) d w bytes e h = elim (Bool-cases (is_send_idle d.tx.stat)) [
  | inl idle ↦
      let all = sym (send_burst-idle (suc k) d idle) ∙ h in
      let nothing : [] ≡ bytes = cc in
      let same : d ≡ e = cc in
      send_loop-idle (suc k) d w idle
      ∙ ap (λ x. done (x, w)) same
      ∙ ap (λ l. done (e, record w { out = l }))
          (sym (append-nil w.out) ∙ ap (λ l. w.out ++ l) nothing)
  | inr busy ↦
      let (first, rest, d1, p, r, whole) = send_burst-inv k d bytes e busy h in
      rw (busy, p)
        (ap (λ v. send_loop wire k d1 v) (puts-wire first w)
          ∙ send_loop-burst k d1 (record w { out = w.out ++ first }) rest e r
          ∙ ap (λ l. done (e, record w { out = l }))
              (append_assoc w.out first rest ∙ ap (λ l. w.out ++ l) (sym whole)))
]

-- So many steps away from `e`, when `line` will stand on the line, with no reception under way.
pub record UnderWay (n : ℕ) (d : Lsd) (w : Wire) (line : List ℕ) (e : Lsd) : Type 0 where
  pub rest : List ℕ
  pub sends : Sends n d rest e
  pub put : w.out ++ rest ≡ line
  pub quiet : is_receiving d.rx.stat ≡ false

UnderWay-idle :
    (n : ℕ) (d : Lsd) (w : Wire) (line : List ℕ) (e : Lsd)
    → UnderWay n d w line e
    → is_send_idle d.tx.stat ≡ true
    → (d ≡ e) × (w.out ≡ line)
UnderWay-idle n d w line e u idle =
    let all = sym (send_burst-idle n d idle) ∙ (u.sends).run in
    let nothing : [] ≡ u.rest = cc in
    (cc, sym (append-nil w.out) ∙ ap (λ l. w.out ++ l) nothing ∙ u.put)

UnderWay-busy :
    (n : ℕ) (d : Lsd) (w : Wire) (line : List ℕ) (e : Lsd)
    → UnderWay n d w line e
    → is_send_idle d.tx.stat ≡ false
    → 1 ≤ n
UnderWay-busy zero d w line e u busy =
    let all = sym (send_burst-none d) ∙ (u.sends).run in
    let same : d ≡ e = cc in
    let idle = ap (λ (x : Lsd). is_send_idle x.tx.stat) same ∙ (u.sends).idle in absurd (cc)
UnderWay-busy (suc n) d w line e u busy = omega arith

-- What a call of `lsd_process` leaves: it has ended, or used up a poll that found the UART busy.
pub record Advanced (n : ℕ) (w : Wire) (line : List ℕ) (e : Lsd) (d' : Lsd) (w' : Wire)
    : Type 0 where
  pub left : ℕ
  pub still : UnderWay left d' w' line e
  pub fewer : left ≤ n
  pub same_rx : w'.rx ≡ w.rx
  pub progress : (is_send_idle d'.tx.stat ≡ true) ⊎ (suc (length w'.tx) ≤ length w.tx)

Advanced-after :
    (n m : ℕ) (w w1 : Wire) (line : List ℕ) (e d' : Lsd) (w' : Wire)
    → m ≤ n
    → w1.rx ≡ w.rx
    → length w1.tx ≤ length w.tx
    → Advanced m w1 line e d' w'
    → Advanced n w line e d' w'
Advanced-after n m w w1 line e d' w' le rx tx a = record {
  left = a.left;
  still = a.still;
  fewer = omega (arith, a.fewer);
  same_rx = a.same_rx ∙ rx;
  progress = elim a.progress [ inl i ↦ inl i | inr p ↦ inr (omega arith) ];
}

tx_poll-shorter : (tx : List Bool) → length ((tx_poll tx).1) ≤ length tx
tx_poll-shorter [] = omega arith
tx_poll-shorter (b ∷ tx) = omega arith

tx_poll-busy : (tx : List Bool) → (tx_poll tx).0 ≡ false → suc (length ((tx_poll tx).1)) ≤ length tx
tx_poll-busy [] h = absurd (cc)
tx_poll-busy (b ∷ tx) h = omega arith

abbrev polled_tx : Wire → Wire
polled_tx w = record w { tx = (tx_poll w.tx).1 }

module _ (d : Lsd) (w : Wire) where
  recv_phase-quiet :
      (n : ℕ) → is_receiving d.rx.stat ≡ false → recv_phase wire n d w ≡ done (false, d, w)
  unfolding recv_phase
  recv_phase-quiet n h = rw h refl

  send_phase-idle : is_send_idle d.tx.stat ≡ true → send_phase wire d w ≡ done (false, d, w)
  unfolding send_phase
  send_phase-idle h = rw h refl

  send_phase-not_ready :
      is_send_idle d.tx.stat ≡ false
      → (tx_poll w.tx).0 ≡ false
      → send_phase wire d w ≡ done (false, d, polled_tx w)
  unfolding send_phase
  send_phase-not_ready h r = rw (h, r) refl

  send_phase-burst :
      (bytes : List ℕ) (e : Lsd)
      → is_send_idle d.tx.stat ≡ false
      → (tx_poll w.tx).0 ≡ true
      → send_burst 16 d ≡ done (bytes, e)
      → send_phase wire d w ≡ done (true, e, record (polled_tx w) { out = w.out ++ bytes })
  unfolding send_phase
  send_phase-burst bytes e h r run =
      rw (h, r, send_loop-burst 16 d (record w { tx = (tx_poll w.tx).1 }) bytes e run) refl

-- A round of `lsd_process` while nothing is received.
lsd_process-last :
    (f : ℕ) (d : Lsd) (w : Wire) (d' : Lsd) (w' : Wire)
    → is_receiving d.rx.stat ≡ false
    → send_phase wire d w ≡ done (false, d', w')
    → lsd_process wire (suc f) d w ≡ done (d', w')
unfolding lsd_process
lsd_process-last f d w d' w' quiet h = rw (recv_phase-quiet d w (suc f) quiet, h) refl

lsd_process-again :
    (f : ℕ) (d : Lsd) (w : Wire) (d' : Lsd) (w' : Wire)
    → is_receiving d.rx.stat ≡ false
    → send_phase wire d w ≡ done (true, d', w')
    → lsd_process wire (suc f) d w ≡ lsd_process wire f d' w'
unfolding lsd_process
lsd_process-again f d w d' w' quiet h = rw (recv_phase-quiet d w (suc f) quiet, h) refl

lsd_process-sending :
    (f n : ℕ) (d : Lsd) (w : Wire) (line : List ℕ) (e : Lsd)
    → UnderWay n d w line e
    → n < f
    → (d' : Lsd) × (w' : Wire) × (lsd_process wire f d w ≡ done (d', w'))
      × Advanced n w line e d' w'
lsd_process-sending zero n d w line e u more = absurd (omega arith)
lsd_process-sending (suc f) n d w line e u more = elim (Bool-cases (is_send_idle d.tx.stat)) [
  | inl idle ↦ (
    d,
    w,
    lsd_process-last f d w d w u.quiet (send_phase-idle d w idle),
    record { left = n; still = u; fewer = omega arith; same_rx = refl; progress = inl idle },
  )
  | inr busy ↦ elim (Bool-cases ((tx_poll w.tx).0)) [
    | inr not_ready ↦ (
      d,
      polled_tx w,
      lsd_process-last f d w d (polled_tx w) u.quiet (send_phase-not_ready d w busy not_ready),
      record {
        left = n;
        still = record { rest = u.rest; sends = u.sends; put = u.put; quiet = u.quiet };
        fewer = omega arith;
        same_rx = refl;
        progress = inr (tx_poll-busy w.tx not_ready);
      },
    )
    | inl ready ↦
        let (first, rest, d1, p, s, whole) = Sends-Cut 16 n d u.rest e u.sends in
        let w1 : Wire = record (polled_tx w) { out = w.out ++ first } in
        let u1 : UnderWay (n - 16) d1 w1 line e = record {
          rest = rest;
          sends = s;
          put = append_assoc w.out first rest ∙ ap (λ l. w.out ++ l) (sym whole) ∙ u.put;
          quiet = ap (λ r. is_receiving r.stat) (send_burst-rx 16 d first d1 p) ∙ u.quiet;
        } in
        let some_left = UnderWay-busy n d w line e u busy in
        let (d', w', q, a) = lsd_process-sending f (n - 16) d1 w1 line e u1 (omega arith) in
        (
          d',
          w',
          lsd_process-again f d w d1 w1 u.quiet (send_phase-burst d w first d1 busy ready p) ∙ q,
          Advanced-after n (n - 16) w w1 line e d' w' (omega arith) refl (tx_poll-shorter w.tx) a,
        )
  ]
]

send_wait-idle :
    (f : ℕ) (d : Lsd) (w : Wire)
    → is_send_idle d.tx.stat ≡ true
    → send_wait wire (suc f) d w ≡ done (d, w)
unfolding send_wait
send_wait-idle f d w h = rw h refl

send_wait-busy :
    (f : ℕ) (d : Lsd) (w : Wire) (d' : Lsd) (w' : Wire)
    → is_send_idle d.tx.stat ≡ false
    → lsd_process wire (suc f) d w ≡ done (d', w')
    → send_wait wire (suc f) d w ≡ send_wait wire f d' w'
unfolding send_wait
send_wait-busy f d w d' w' h p = rw (h, p) refl

-- What a wait for the end of a frame leaves: all of it on the line, and what comes in untouched.
pub record Put (w : Wire) (line : List ℕ) (w' : Wire) : Type 0 where
  pub whole : w'.out ≡ line
  pub kept : w'.rx ≡ w.rx

pub send_wait-sending :
    (f n : ℕ) (d : Lsd) (w : Wire) (line : List ℕ) (e : Lsd)
    → UnderWay n d w line e
    → n + length w.tx < f
    → (w' : Wire) × (send_wait wire f d w ≡ done (e, w')) × Put w line w'
send_wait-sending zero n d w line e u more = absurd (omega arith)
send_wait-sending (suc f) n d w line e u more = elim (Bool-cases (is_send_idle d.tx.stat)) [
  | inl idle ↦
      let (same, all) = UnderWay-idle n d w line e u idle in
      (
        w,
        send_wait-idle f d w idle ∙ ap (λ x. done (x, w)) same,
        record { whole = all; kept = refl },
      )
  | inr busy ↦
      let (d', w', p, a) = lsd_process-sending (suc f) n d w line e u (omega arith) in
      elim a.progress [
        | inl idle ↦
            let (same, all) = UnderWay-idle a.left d' w' line e a.still idle in
            let some_left = UnderWay-busy n d w line e u busy in
            (
              w',
              send_wait-busy f d w d' w' busy p
                  ∙ ap (λ k. send_wait wire k d' w') (suc-minus_one f (omega arith))
                  ∙ send_wait-idle (f - 1) d' w' idle
                  ∙ ap (λ x. done (x, w')) same,
              record { whole = all; kept = a.same_rx },
            )
        | inr shorter ↦
            let (w2, q, r) =
              send_wait-sending f a.left d' w' line e a.still (omega (arith, a.fewer)) in
            (
              w2,
              send_wait-busy f d w d' w' busy p ∙ q,
              record { whole = r.whole; kept = r.kept ∙ a.same_rx },
            )
      ]
]
