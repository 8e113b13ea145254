-- ===== src/Lsd/Bursts.antt =====
-- The bursts of src/mw/lsd.c cut into shorter ones.
use mega_drive_megawifi_appl.Base.{
  ℕ, zero, suc, ◌+◌, ◌-◌, ◌≡◌, refl, ◌∙◌, ap, sym, true, false, List, [], ◌++◌, append_assoc,
  append-nil, leb, Outcome, done, ◌>>=◌, >>=-eq-done, Bool-cases, inl, inr, arith,
}
use mega_drive_megawifi_appl.Lsd.{
  Lsd, SendState, send_idle, send_stx, send_ch_lenh, send_len, send_data, send_etx, is_send_idle,
  process_send, send_step, send_data_byte, send_complete, send_burst, Step,
}

-- A burst that puts these bytes on the line in at most so many steps, after which nothing is left.
pub record Sends (n : ℕ) (d : Lsd) (bytes : List ℕ) (e : Lsd) : Type 0 where
  pub run : send_burst n d ≡ done (bytes, e)
  pub idle : is_send_idle e.tx.stat ≡ true

pub send_burst-idle :
    (n : ℕ) (d : Lsd) → is_send_idle d.tx.stat ≡ true → send_burst n d ≡ done ([], d)
unfolding send_burst
send_burst-idle zero d h = refl
send_burst-idle (suc n) d h = rw h refl

pub send_burst-none : (d : Lsd) → send_burst 0 d ≡ done ([], d)
unfolding send_burst
send_burst-none d = refl

abbrev joined_to : List ℕ → Outcome (List ℕ × Lsd) → Outcome (List ℕ × Lsd)
joined_to first o = o >>= λ rest. done (first ++ rest.0, rest.1)

pub send_burst-again :
    (n : ℕ) (d : Lsd) (first : List ℕ) (d1 : Lsd)
    → is_send_idle d.tx.stat ≡ false
    → process_send d ≡ done (first, d1)
    → send_burst (suc n) d ≡ joined_to first (send_burst n d1)
unfolding send_burst
send_burst-again n d first d1 h e = rw (h, e) refl

abbrev pub FirstStep : Lsd → List ℕ → ℕ → Lsd → Type 0
FirstStep d bytes n e =
    (first rest : List ℕ) × (d1 : Lsd) × (process_send d ≡ done (first, d1))
    × (send_burst n d1 ≡ done (rest, e))
    × (bytes ≡ first ++ rest)

pub send_burst-inv :
    (n : ℕ) (d : Lsd) (bytes : List ℕ) (e : Lsd)
    → is_send_idle d.tx.stat ≡ false
    → send_burst (suc n) d ≡ done (bytes, e)
    → FirstStep d bytes n e
unfolding send_burst
send_burst-inv n d bytes e busy h =
    let all = rw busy at h in
    let ((first, d1), p, q) =
      >>=-eq-done (process_send d)
        (λ step. send_burst n (step.1) >>= λ rest. done (step.0 ++ rest.0, rest.1)) all in
    let ((rest, e'), r, t) =
      >>=-eq-done (send_burst n d1) (λ rest. done (first ++ rest.0, rest.1)) q in
    let same : e' ≡ e = cc in
    let whole : first ++ rest ≡ bytes = cc in
    (first, rest, d1, p, r ∙ ap (λ x. done (rest, x)) same, sym whole)

abbrev pub Cut : ℕ → ℕ → Lsd → List ℕ → Lsd → Type 0
Cut k n d bytes e =
    (first rest : List ℕ) × (d1 : Lsd) × (send_burst k d ≡ done (first, d1))
    × (send_burst n d1 ≡ done (rest, e))
    × (bytes ≡ first ++ rest)

Cut-idle :
    (k n : ℕ) (d : Lsd) (bytes : List ℕ) (e : Lsd)
    → is_send_idle d.tx.stat ≡ true
    → ◌≡◌ {A = Outcome Step} (done (bytes, e)) (done ([], d))
    → Cut k n d bytes e
Cut-idle k n d bytes e idle h =
    let nothing : bytes ≡ [] = cc in
    let same : d ≡ e = cc in
    (
      [],
      [],
      d,
      send_burst-idle k d idle,
      send_burst-idle n d idle ∙ ap (λ x. done ([], x)) same,
      nothing,
    )

-- The first steps of a burst are a burst too, and the rest is left.
pub send_burst-add :
    (k n : ℕ) (d : Lsd) (bytes : List ℕ) (e : Lsd)
    → send_burst (k + n) d ≡ done (bytes, e)
    → Cut k n d bytes e
unfolding send_burst
send_burst-add zero n d bytes e h =
    let z : 0 + n ≡ n = omega arith in ([], bytes, d, refl, rw z at h, refl)
send_burst-add (suc k) n d bytes e h =
    let one : suc k + n ≡ suc (k + n) = omega arith in
    let h' = rw one at h in
    elim (Bool-cases (is_send_idle d.tx.stat)) [
      | inl idle ↦ Cut-idle (suc k) n d bytes e idle (sym h' ∙ send_burst-idle (suc (k + n)) d idle)
      | inr busy ↦
          let (first, rest, d1, p, r, whole) = send_burst-inv (k + n) d bytes e busy h' in
          let (mid, last, d2, q, t, rest_of) = send_burst-add k n d1 rest e r in
          (
            first ++ mid,
            last,
            d2,
            send_burst-again k d first d1 busy p ∙ rw q refl,
            t,
            rw (append_assoc first mid last) (whole ∙ ap (λ l. first ++ l) rest_of),
          )
    ]

-- More steps change nothing.
Sends-long :
    (n k : ℕ) (d : Lsd) (bytes : List ℕ) (e : Lsd)
    → Sends n d bytes e
    → send_burst (n + k) d ≡ done (bytes, e)
unfolding send_burst
Sends-long zero k d bytes e h =
    let same : d ≡ e = cc (h.run) in
    let nothing : bytes ≡ [] = cc (h.run) in
    let idle : is_send_idle d.tx.stat ≡ true = ap (λ x. is_send_idle x.tx.stat) same ∙ h.idle in
    send_burst-idle (0 + k) d idle ∙ h.run
Sends-long (suc n) k d bytes e h =
    let one : suc n + k ≡ suc (n + k) = omega arith in
    elim (Bool-cases (is_send_idle d.tx.stat)) [
      | inl idle ↦ send_burst-idle (suc n + k) d idle ∙ sym (send_burst-idle (suc n) d idle) ∙ h.run
      | inr busy ↦
          let (first, rest, d1, p, r, whole) = send_burst-inv n d bytes e busy h.run in
          let tail = Sends-long n k d1 rest e (record { run = r; idle = h.idle }) in
          ap (λ j. send_burst j d) one
          ∙ send_burst-again (n + k) d first d1 busy p
          ∙ rw tail (ap (λ l. done (l, e)) (sym whole))
    ]

-- A burst that comes to its end, cut after so many steps.
pub Sends-Cut :
    (k n : ℕ) (d : Lsd) (bytes : List ℕ) (e : Lsd)
    → Sends n d bytes e
    → (first rest : List ℕ) × (d1 : Lsd) × (send_burst k d ≡ done (first, d1))
      × Sends (n - k) d1 rest e
      × (bytes ≡ first ++ rest)
Sends-Cut k n d bytes e h = elim (Bool-cases (leb k n)) [
  | inl t ↦
      let sum : n ≡ k + (n - k) = ground arith in
      let (first, rest, d1, p, q, whole) =
        send_burst-add k (n - k) d bytes e (ap (λ j. send_burst j d) (sym sum) ∙ h.run) in
      (first, rest, d1, p, record { run = q; idle = h.idle }, whole)
  | inr f ↦
      let sum : k ≡ n + (k - n) = ground arith in
      let none_left : n - k ≡ 0 = ground arith in
      (
        bytes,
        [],
        e,
        ap (λ j. send_burst j d) sum ∙ Sends-long n (k - n) d bytes e h,
        record {
          run = ap (λ j. send_burst j e) none_left ∙ send_burst-idle 0 e h.idle;
          idle = h.idle;
        },
        sym (append-nil bytes),
      )
]

send_step-rx :
    (stat : SendState) (d : Lsd) (first : List ℕ) (d1 : Lsd)
    → send_step stat d ≡ done (first, d1)
    → d1.rx ≡ d.rx
unfolding send_step send_data_byte send_complete
send_step-rx send_idle d first d1 h = ground arith
send_step-rx send_stx d first d1 h = ground arith
send_step-rx send_ch_lenh d first d1 h = ground arith
send_step-rx send_len d first d1 h = ground arith
send_step-rx send_data d first d1 h = ground arith
send_step-rx send_etx d first d1 h = ground arith

-- A step leaves the reception alone.
process_send-rx :
    (d : Lsd) (first : List ℕ) (d1 : Lsd) → process_send d ≡ done (first, d1) → d1.rx ≡ d.rx
unfolding process_send
process_send-rx d first d1 h = send_step-rx d.tx.stat d first d1 h

pub send_burst-rx :
    (n : ℕ) (d : Lsd) (bytes : List ℕ) (e : Lsd) → send_burst n d ≡ done (bytes, e) → e.rx ≡ d.rx
unfolding send_burst
send_burst-rx zero d bytes e h = ground arith
send_burst-rx (suc n) d bytes e h = elim (Bool-cases (is_send_idle d.tx.stat)) [
  | inl idle ↦
      let all = sym h ∙ send_burst-idle (suc n) d idle in
      let same : e ≡ d = cc in ap (λ (x : Lsd). x.rx) same
  | inr busy ↦
      let (first, rest, d1, p, r, whole) = send_burst-inv n d bytes e busy h in
      send_burst-rx n d1 rest e r ∙ process_send-rx d first d1 p
]
