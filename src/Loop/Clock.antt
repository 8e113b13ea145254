-- ===== src/Loop/Clock.antt =====
-- When the timers of src/mw/loop.c run out.
use mega_drive_megawifi_appl.Base.{
  ℕ, zero, suc, ◌+◌, ◌%◌, ◌^◌, ◌<◌, ◌≡◌, refl, ◌∙◌, ap, Bool, false, ◌==◌, if◌then◌else◌, arith,
  Bool-cases, inl, inr, lt→ltb, ge→ltb, ne→==,
}
use mega_drive_megawifi_appl.Loop.{Timer, count_frame}

-- A timer after a number of frames.
abbrev pub after : ℕ → Timer → Timer
after zero t = t
after (suc k) t = (count_frame (after k t)).1

-- A timer that was just started and is not blocked.
abbrev pub started : ℕ → Bool → Bool → Timer
started frames auto_reload to_delete = record {
  frames = frames;
  count = 0;
  auto_reload = auto_reload;
  to_delete = to_delete;
  blocked = false;
}

counted :
    (n k : ℕ) (auto deleted : Bool)
    → n < 65536
    → suc k < n
    → (count_frame (record (started n auto deleted) { count = k })).1
      ≡ record (started n auto deleted) { count = suc k }
unfolding count_frame
counted n k auto deleted small h =
    let c : (k + 1) % 2 ^ 16 ≡ suc k = omega arith in
    rw (ne→== n 0 (λ e. omega arith), c, lt→ltb (suc k) n h) refl

before_end :
    (n k : ℕ) (auto deleted : Bool)
    → n < 65536
    → k < n
    → after k (started n auto deleted) ≡ record (started n auto deleted) { count = k }
before_end n zero auto deleted small h = refl
before_end n (suc k) auto deleted small h =
    ap (λ t. (count_frame t).1) (before_end n k auto deleted small (omega arith))
    ∙ counted n k auto deleted small h

at_end :
    (n k : ℕ) (auto deleted : Bool)
    → n < 65536
    → n ≡ suc k
    → (count_frame (record (started n auto deleted) { count = k })).1 ≡ (
        if auto
        then started n auto deleted
        else record (started n auto deleted) { frames = 0; count = n })
unfolding count_frame
at_end n k auto deleted small e =
    let c : (k + 1) % 2 ^ 16 ≡ n = omega arith in
    rw (ne→== n 0 (λ z. omega arith), c, ge→ltb n n (omega arith))
      (elim (Bool-cases auto) [ inl t ↦ rw t refl | inr f ↦ rw f refl ])

due :
    (n k : ℕ) (auto deleted : Bool)
    → n < 65536
    → k < n
    → (count_frame (record (started n auto deleted) { count = k })).0 ≡ (k + 1 == n)
unfolding count_frame
due n k auto deleted small h = elim (Bool-cases auto) [
  | inl t ↦ rw t (ground arith)
  | inr f ↦ rw f (ground arith)
]

quiet : (t : Timer) → t.frames ≡ 0 → count_frame t ≡ (false, t)
unfolding count_frame
quiet t e = rw e refl

stopped : (m : ℕ) (t : Timer) → t.frames ≡ 0 → after m t ≡ t
stopped zero t e = refl
stopped (suc m) t e = ap (λ u. (count_frame u).1) (stopped m t e) ∙ ap (λ r. r.1) (quiet t e)

reached :
    (n : ℕ) (auto deleted : Bool)
    → n < 65536
    → 0 < n
    → after n (started n auto deleted) ≡ (
        if auto
        then started n auto deleted
        else record (started n auto deleted) { frames = 0; count = n })
reached zero auto deleted small h = absurd (omega arith)
reached (suc k) auto deleted small h =
    ap (λ t. (count_frame t).1) (before_end (suc k) k auto deleted small (omega arith))
    ∙ at_end (suc k) k auto deleted small refl

-- A timer started with `n` frames, 1 to 65535, and not blocked runs out at the update number `n` and at
-- none before; with automatic reload it then stands as just started, else it is stopped with its count
-- at `n` and does not run out again, however many updates follow.
pub count_frame-after :
    (n k m : ℕ) (auto deleted : Bool)
    → n < 65536
    → k < n
    → ((count_frame (after k (started n auto deleted))).0 ≡ (k + 1 == n))
      × (after n (started n auto deleted) ≡ (
          if auto
          then started n auto deleted
          else record (started n auto deleted) { frames = 0; count = n }))
      × ((count_frame (after m (record (started n auto deleted) { frames = 0; count = n }))).0
          ≡ false)
count_frame-after n k m auto deleted small h = (
  ap (λ t. (count_frame t).0) (before_end n k auto deleted small h) ∙ due n k auto deleted small h,
  reached n auto deleted small (omega arith),
  ap (λ t. (count_frame t).0) (stopped m _ refl) ∙ ap (λ r. r.0) (quiet _ refl),
)
