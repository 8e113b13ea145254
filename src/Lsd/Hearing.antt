-- ===== src/Lsd/Hearing.antt =====
-- The loop of `lsd_process` of src/mw/lsd.c over `process_recv`, on the bytes and the gaps of a line.
use mega_drive_megawifi_appl.Base.{
  ℕ, zero, suc, ◌≤◌, ◌<◌, ◌≡◌, refl, ◌∙◌, ap, sym, true, false, Option, none, some, List, [], ◌∷◌,
  length, done, >>=-eq-done, Bool-cases, ◌⊎◌, inl, inr, arith,
}
use mega_drive_megawifi_appl.Lsd.{
  Lsd, RecvState, recv_idle, recv_partial, recv_stx, recv_ch_lenh, recv_len, recv_data, recv_etx,
  is_send_idle, is_receiving, process_recv, recv_byte, recv_channel, recv_length, recv_add,
  recv_added, recv_end, recv_error, recv_complete, recv_burst,
}
use mega_drive_megawifi_appl.Lsd.Polling.{recv_loop}
use mega_drive_megawifi_appl.Lsd.Wire.{Wire, wire, heard}

recv_byte-tx : (stat : RecvState) (b : ℕ) (d d' : Lsd) → recv_byte stat b d ≡ done d' → d'.tx ≡ d.tx
unfolding recv_byte recv_channel recv_length recv_add recv_added recv_end recv_error recv_complete
recv_byte-tx recv_stx b d d' h = ground arith
recv_byte-tx recv_ch_lenh b d d' h = ground arith
recv_byte-tx recv_len b d d' h = ground arith
recv_byte-tx recv_data b d d' h = ground arith
recv_byte-tx recv_etx b d d' h = ground arith
recv_byte-tx recv_partial b d d' h = ground arith
recv_byte-tx recv_idle b d d' h = ground arith

process_recv-tx : (b : ℕ) (d d' : Lsd) → process_recv b d ≡ done d' → d'.tx ≡ d.tx
unfolding process_recv
process_recv-tx b d d' h = recv_byte-tx d.rx.stat b d d' h

recv_burst-stop :
    (bytes : List ℕ) (d : Lsd)
    → is_receiving d.rx.stat ≡ false
    → recv_burst bytes d ≡ done (bytes, d)
unfolding recv_burst
recv_burst-stop [] d h = refl
recv_burst-stop (b ∷ bytes) d h = rw h refl

recv_burst-none : (d : Lsd) → recv_burst [] d ≡ done ([], d)
unfolding recv_burst
recv_burst-none d = refl

recv_burst-inv :
    (b : ℕ) (bytes rest : List ℕ) (d e : Lsd)
    → is_receiving d.rx.stat ≡ true
    → recv_burst (b ∷ bytes) d ≡ done (rest, e)
    → (d1 : Lsd) × (process_recv b d ≡ done d1) × (recv_burst bytes d1 ≡ done (rest, e))
unfolding recv_burst
recv_burst-inv b bytes rest d e on h =
    let all = rw on at h in >>=-eq-done (process_recv b d) (recv_burst bytes) all

-- With these bytes and gaps to come, the reception will end in `e` and leave `rest`, and nothing is
-- sent.
pub record Coming (d : Lsd) (rx : List (Option ℕ)) (rest : List ℕ) (e : Lsd) : Type 0 where
  pub run : recv_burst (heard rx) d ≡ done (rest, e)
  pub over : is_receiving e.rx.stat ≡ false
  pub quiet : is_send_idle d.tx.stat ≡ true

pub Coming-stop :
    (d : Lsd) (rx : List (Option ℕ)) (rest : List ℕ) (e : Lsd)
    → Coming d rx rest e
    → is_receiving d.rx.stat ≡ false
    → (d ≡ e) × (heard rx ≡ rest)
Coming-stop d rx rest e c off = let all = sym (recv_burst-stop (heard rx) d off) ∙ c.run in (cc, cc)

pub Coming-some :
    (d : Lsd) (rx : List (Option ℕ)) (rest : List ℕ) (e : Lsd)
    → Coming d rx rest e
    → is_receiving d.rx.stat ≡ true
    → 1 ≤ length rx
Coming-some d [] rest e c on =
    let all = sym (recv_burst-none d) ∙ c.run in
    let same : d ≡ e = cc in
    let off = ap (λ (x : Lsd). is_receiving x.rx.stat) same ∙ c.over in absurd (cc)
Coming-some d (x ∷ rx) rest e c on = omega arith

pub Coming-next :
    (b : ℕ) (d : Lsd) (rx : List (Option ℕ)) (rest : List ℕ) (e : Lsd)
    → Coming d (some b ∷ rx) rest e
    → is_receiving d.rx.stat ≡ true
    → (d1 : Lsd) × (process_recv b d ≡ done d1) × Coming d1 rx rest e
Coming-next b d rx rest e c on =
    let (d1, p, q) = recv_burst-inv b (heard rx) rest d e on c.run in
    (
      d1,
      p,
      record {
        run = q;
        over = c.over;
        quiet = ap (λ t. is_send_idle t.stat) (process_recv-tx b d d1 p) ∙ c.quiet;
      },
    )

abbrev pub at_rx : List (Option ℕ) → Wire → Wire
at_rx rx w = record w { rx = rx }

-- What is left to come: no more than before, and less unless the reception has ended.
pub record Taken (rx : List (Option ℕ)) (rest : List ℕ) (e d' : Lsd) (rx' : List (Option ℕ))
    : Type 0 where
  pub still : Coming d' rx' rest e
  pub no_more : length rx' ≤ length rx
  pub progress : (is_receiving d'.rx.stat ≡ false) ⊎ (suc (length rx') ≤ length rx)

pub Taken-all :
    (d : Lsd) (rx : List (Option ℕ)) (rest : List ℕ) (e : Lsd)
    → Coming d rx rest e
    → is_receiving d.rx.stat ≡ false
    → Taken rx rest e d rx
Taken-all d rx rest e c off = record { still = c; no_more = omega arith; progress = inl off }

pub Taken-gap :
    (d : Lsd) (rx : List (Option ℕ)) (rest : List ℕ) (e : Lsd)
    → Coming d (none ∷ rx) rest e
    → Taken (none ∷ rx) rest e d rx
Taken-gap d rx rest e c = record {
  still = record { run = c.run; over = c.over; quiet = c.quiet };
  no_more = omega arith;
  progress = inr (omega arith);
}

pub Taken-after :
    (rx0 rx : List (Option ℕ)) (rest : List ℕ) (e d' : Lsd) (rx' : List (Option ℕ))
    → suc (length rx) ≤ length rx0
    → Taken rx rest e d' rx'
    → Taken rx0 rest e d' rx'
Taken-after rx0 rx rest e d' rx' less t = record {
  still = t.still;
  no_more = omega (arith, t.no_more);
  progress = inr (omega (arith, t.no_more));
}

module _ (d : Lsd) (w : Wire) where
  recv_loop-stop :
      (n : ℕ) → is_receiving d.rx.stat ≡ false → recv_loop wire (suc n) d w ≡ done (d, w)
  unfolding recv_loop
  recv_loop-stop n off = rw off refl

  recv_loop-gap :
      (n : ℕ) (rx : List (Option ℕ))
      → is_receiving d.rx.stat ≡ true
      → recv_loop wire (suc n) d (at_rx (none ∷ rx) w) ≡ done (d, at_rx rx w)
  unfolding recv_loop
  recv_loop-gap n rx on = rw on refl

  pub recv_loop-byte :
      (n b : ℕ) (rx : List (Option ℕ)) (d1 : Lsd)
      → is_receiving d.rx.stat ≡ true
      → process_recv b d ≡ done d1
      → recv_loop wire (suc n) d (at_rx (some b ∷ rx) w) ≡ recv_loop wire n d1 (at_rx rx w)
  unfolding recv_loop
  recv_loop-byte n b rx d1 on p = rw (on, p) refl

pub recv_loop-Coming :
    (n : ℕ) (d : Lsd) (w : Wire) (rx : List (Option ℕ)) (rest : List ℕ) (e : Lsd)
    → Coming d rx rest e
    → length rx < n
    → (d' : Lsd) × (rx' : List (Option ℕ)) × (recv_loop wire n d (at_rx rx w)
        ≡ done (d', at_rx rx' w))
      × Taken rx rest e d' rx'
recv_loop-Coming zero d w rx rest e c more = absurd (omega arith)
recv_loop-Coming (suc n) d w [] rest e c more = elim (Bool-cases (is_receiving d.rx.stat)) [
  | inl on ↦ let some_left = Coming-some d [] rest e c on in absurd (omega arith)
  | inr off ↦ (d, [], recv_loop-stop d (at_rx [] w) n off, Taken-all d [] rest e c off)
]
recv_loop-Coming (suc n) d w (none ∷ rx) rest e c more =
    elim (Bool-cases (is_receiving d.rx.stat)) [
      | inl on ↦ (d, rx, recv_loop-gap d w n rx on, Taken-gap d rx rest e c)
      | inr off ↦ (
        d,
        none ∷ rx,
        recv_loop-stop d (at_rx (none ∷ rx) w) n off,
        Taken-all d (none ∷ rx) rest e c off,
      )
    ]
recv_loop-Coming (suc n) d w (some b ∷ rx) rest e c more =
    elim (Bool-cases (is_receiving d.rx.stat)) [
      | inr off ↦ (
        d,
        some b ∷ rx,
        recv_loop-stop d (at_rx (some b ∷ rx) w) n off,
        Taken-all d (some b ∷ rx) rest e c off,
      )
      | inl on ↦
          let (d1, p, c1) = Coming-next b d rx rest e c on in
          let (d', rx', q, t) = recv_loop-Coming n d1 w rx rest e c1 (omega arith) in
          (
            d',
            rx',
            recv_loop-byte d w n b rx d1 on p ∙ q,
            Taken-after (some b ∷ rx) rx rest e d' rx' (omega arith) t,
          )
    ]
