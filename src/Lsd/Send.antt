-- ===== src/Lsd/Send.antt =====
-- What src/mw/lsd.c sends.
use mega_drive_megawifi_appl.Base.{
  ℕ, zero, suc, ◌+◌, ◌≤◌, ◌<◌, ◌≡◌, refl, Bool, true, false, List, [], ◌∷◌, ◌++◌, length, leb, done,
  arith, Holds, read-Holds, Holds-tail, le→leb, gt→leb, Bool-cases, inl, inr, if◌then◌else◌, ge→ltb,
}
use mega_drive_megawifi_appl.Lsd.{
  Lsd, LsdStatus, lsd_max_len, SendState, send_stx, send_data, send_etx, send_idle, lsd_stx_etx,
  report, sent, complete, busy, usable, lsd_send, process_send, send_step, send_data_byte,
  send_complete, send_burst,
}
use mega_drive_megawifi_appl.Lsd.Frame.{frame, header, sent_header, low_byte}

-- While a frame is sent: `buffer` and `len` are `lsd_send`'s.
abbrev pub sending : SendState → ℕ → ℕ → List ℕ → ℕ → Bool → Lsd → Lsd
sending stat pos ch buffer len cb d = record d {
  tx = record { stat = stat; buf = buffer; pos = pos; total = len; cb = cb; ch = ch };
}

-- After it: the caller is told.
abbrev pub frame_sent : ℕ → List ℕ → ℕ → Bool → Lsd → Lsd
frame_sent ch buffer len cb d = report cb (sent complete) (sending send_idle len ch buffer len cb d)

send_burst-idle :
    (n pos ch len : ℕ) (buffer : List ℕ) (cb : Bool) (d : Lsd)
    → send_burst n (frame_sent ch buffer len cb d) ≡ done ([], frame_sent ch buffer len cb d)
unfolding send_burst
send_burst-idle zero pos ch len buffer cb d = refl
send_burst-idle (suc n) pos ch len buffer true d = refl
send_burst-idle (suc n) pos ch len buffer false d = refl

module _ (ch len : ℕ) (buffer : List ℕ) (cb : Bool) (d : Lsd) where
  send_burst-etx :
      (n : ℕ)
      → send_burst (suc n) (sending send_etx len ch buffer len cb d)
        ≡ done (lsd_stx_etx ∷ [], frame_sent ch buffer len cb d)
  unfolding send_burst process_send send_step send_complete
  send_burst-etx n = rw (send_burst-idle n 0 ch len buffer cb d)

  process_send-data :
      (pos x : ℕ) (xs : List ℕ)
      → Holds buffer pos (x ∷ xs)
      → process_send (sending send_data pos ch buffer len cb d) ≡ (
          if leb len (pos + 1)
          then done (x ∷ [], sending send_etx (pos + 1) ch buffer len cb d)
          else done (x ∷ [], sending send_data (pos + 1) ch buffer len cb d))
  unfolding process_send send_step send_data_byte
  process_send-data pos x xs h =
      rw (read-Holds buffer pos x xs h)
        (elim (Bool-cases (leb len (pos + 1))) [ inl t ↦ rw t refl | inr f ↦ rw f refl ])

  send_burst-data :
      (n pos x : ℕ) (xs rest : List ℕ)
      → Holds buffer pos (x ∷ xs ++ rest)
      → len ≡ pos + suc (length xs)
      → suc (suc (length xs)) ≤ n
      → send_burst n (sending send_data pos ch buffer len cb d)
        ≡ done (x ∷ (xs ++ (lsd_stx_etx ∷ [])), frame_sent ch buffer len cb d)
  unfolding send_burst
  send_burst-data zero pos x xs rest h e f = absurd (omega arith)
  send_burst-data (suc zero) pos x xs rest h e f = absurd (omega arith)
  send_burst-data (suc (suc n)) pos x [] rest h e f =
      let end : pos + 1 ≡ len = omega arith in
      rw (process_send-data pos x rest h, le→leb len (pos + 1) (omega arith), end, send_burst-etx n)
  send_burst-data (suc (suc n)) pos x (y ∷ ys) rest h e f = rw (
    process_send-data pos x (y ∷ ys ++ rest) h,
    gt→leb len (pos + 1) (omega arith),
    send_burst-data (suc n) (pos + 1) y ys rest (Holds-tail buffer pos x _ h) (omega arith)
        (omega arith),
  )

pub lsd_send-taken :
    (ch len : ℕ) (buffer : List ℕ) (cb : Bool) (d : Lsd)
    → d.tx.stat ≡ send_idle
    → usable d ch ≡ true
    → len < 4096
    → lsd_send ch buffer len cb d ≡ (busy, sending send_stx 0 ch buffer len cb d)
unfolding lsd_send
lsd_send-taken ch len buffer cb d idle u short =
    rw (idle, u, ge→ltb lsd_max_len len (omega arith)) refl

pub channel_below : (ch : ℕ) (d : Lsd) → usable d ch ≡ true → ch < 4
channel_below ch d u = ground arith

send_burst-stx :
    (ch n b : ℕ) (bs rest : List ℕ) (cb : Bool) (d : Lsd)
    → ch < 4
    → length (b ∷ bs) < 4096
    → length (b ∷ bs) + 4 ≤ n
    → send_burst n (sending send_stx 0 ch (b ∷ bs ++ rest) (length (b ∷ bs)) cb d)
      ≡ done (frame ch (b ∷ bs), frame_sent ch (b ∷ bs ++ rest) (length (b ∷ bs)) cb d)
unfolding send_burst process_send send_step
send_burst-stx ch zero b bs rest cb d hc short f = absurd (omega arith)
send_burst-stx ch (suc zero) b bs rest cb d hc short f = absurd (omega arith)
send_burst-stx ch (suc (suc zero)) b bs rest cb d hc short f = absurd (omega arith)
send_burst-stx ch (suc (suc (suc n))) b bs rest cb d hc short f = rw (
  sent_header ch (length (b ∷ bs)) hc short,
  low_byte (length (b ∷ bs)) short,
  send_burst-data ch (length (b ∷ bs)) (b ∷ bs ++ rest) cb d n 0 b bs rest refl (omega arith)
      (omega arith),
)

-- A frame that `lsd_send` takes, of at least one byte, is put on the line whole, and the caller told,
-- within four steps more than it has bytes; what follows it in the caller's buffer is not sent.
pub send_burst-frame :
    (ch n b : ℕ) (bs rest : List ℕ) (cb : Bool) (d : Lsd)
    → d.tx.stat ≡ send_idle
    → usable d ch ≡ true
    → length (b ∷ bs) < 4096
    → length (b ∷ bs) + 4 ≤ n
    → let taken : LsdStatus × Lsd = lsd_send ch (b ∷ bs ++ rest) (length (b ∷ bs)) cb d in
      (taken.0 ≡ busy)
      × (send_burst n (taken.1)
          ≡ done (frame ch (b ∷ bs), frame_sent ch (b ∷ bs ++ rest) (length (b ∷ bs)) cb d))
send_burst-frame ch n b bs rest cb d idle u short f =
    rw (lsd_send-taken ch (length (b ∷ bs)) (b ∷ bs ++ rest) cb d idle u short)
      (refl, send_burst-stx ch n b bs rest cb d (channel_below ch d u) short f)

-- Told to send nothing, the module still sends a byte of the buffer after a length of 0.
pub send_burst-empty :
    (ch b : ℕ) (rest : List ℕ) (cb : Bool) (d : Lsd)
    → ch < 4
    → send_burst 5 (sending send_stx 0 ch (b ∷ rest) 0 cb d)
      ≡ done (
        lsd_stx_etx ∷ header ch 0 ∷ 0 ∷ b ∷ lsd_stx_etx ∷ [],
        report cb (sent complete) (sending send_idle 1 ch (b ∷ rest) 0 cb d),
      )
unfolding send_burst process_send send_step send_data_byte send_complete
send_burst-empty ch b rest cb d hc = rw (sent_header ch 0 hc (omega arith)) refl
