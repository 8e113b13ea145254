-- ===== src/Loop/Passes.antt =====
-- The passes of src/mw/loop.c over its tables come to an end.
use mega_drive_megawifi_appl.Base.{
  ℕ, zero, suc, ◌+◌, ◌≤◌, ◌<◌, ◌≡◌, refl, ap, Bool, true, false, if◌then◌else◌, Outcome, none, some,
  [], ◌∷◌, length, get_or, done, fault, Ends, returns, faults, Ends-cases, ◌⊎◌, arith, Bool-cases,
  inl, inr, Option-cases,
}
use mega_drive_megawifi_appl.Loop.{
  Slots, Loop, func_at, timer_at, put_func, put_timer, close_up, delete_at, count_frame, spare,
  rounds, call_func, func_rounds, run_funcs, update_timer, timer_rounds, check_timers,
}

-- The slots in use.
abbrev used : Slots → ℕ
used [] = 0
used (none ∷ slots) = used slots
used (some id ∷ slots) = suc (used slots)

used-length : (slots : Slots) → used slots ≤ length slots
used-length [] = omega arith
used-length (none ∷ slots) = omega (arith, used-length slots)
used-length (some id ∷ slots) = omega (arith, used-length slots)

record Shrunk (slots later : Slots) : Type 0 where
  fewer : suc (used later) ≡ used slots
  same : length later ≡ length slots

-- A slot in use that is deleted leaves one less, or the table ends with it.
close_up-Shrunk :
    (id : ℕ) (slots : Slots)
    → (close_up (some id ∷ slots) ≡ fault)
      ⊎ ((s : Slots) × (close_up (some id ∷ slots) ≡ done s) × Shrunk (some id ∷ slots) s)
unfolding close_up
close_up-Shrunk id [] = inl refl
close_up-Shrunk id (none ∷ slots) =
    inr (none ∷ none ∷ slots, refl, record { fewer = refl; same = refl })
close_up-Shrunk id (some j ∷ slots) = elim (close_up-Shrunk j slots) [
  | inl e ↦ inl (rw e refl)
  | inr (s, e, k) ↦
      inr (some j ∷ s, rw e refl, record { fewer = ap suc k.fewer; same = ap suc k.same })
]

delete_at-Shrunk :
    (i id : ℕ) (slots : Slots)
    → get_or slots i none ≡ some id
    → (delete_at i slots ≡ fault) ⊎ ((s : Slots) × (delete_at i slots ≡ done s) × Shrunk slots s)
unfolding delete_at
delete_at-Shrunk i id [] e = absurd (cc)
delete_at-Shrunk zero id (none ∷ slots) e = absurd (cc)
delete_at-Shrunk zero id (some j ∷ slots) e = close_up-Shrunk j slots
delete_at-Shrunk (suc i) id (none ∷ slots) e = elim (delete_at-Shrunk i id slots e) [
  | inl f ↦ inl (rw f refl)
  | inr (s, f, k) ↦ inr (none ∷ s, rw f refl, record { fewer = k.fewer; same = ap suc k.same })
]
delete_at-Shrunk (suc i) id (some j ∷ slots) e = elim (delete_at-Shrunk i id slots e) [
  | inl f ↦ inl (rw f refl)
  | inr (s, f, k) ↦
      inr (some j ∷ s, rw f refl, record { fewer = ap suc k.fewer; same = ap suc k.same })
]

get_or-below : (slots : Slots) (i id : ℕ) → get_or slots i none ≡ some id → i < length slots
get_or-below [] i id e = absurd (cc)
get_or-below (slot ∷ slots) zero id e = omega arith
get_or-below (slot ∷ slots) (suc i) id e = omega (arith, get_or-below slots i id e)

-- A callback that keeps the sizes of the tables and the place of the pass.
pub record Steady (cb : ℕ → Loop → Loop) : Type 0 where
  pub f_size : (id : ℕ) (d : Loop) → length ((cb id d).f) ≡ length d.f
  pub t_size : (id : ℕ) (d : Loop) → length ((cb id d).t) ≡ length d.t
  pub place : (id : ℕ) (d : Loop) → (cb id d).idx ≡ d.idx

one_step :
    (max idx steps : ℕ)
    → idx < max
    → max ≤ idx + steps
    → (steps' : ℕ) × (steps ≡ suc steps') × (max ≤ idx + 1 + steps')
one_step max idx zero below h = absurd (omega arith)
one_step max idx (suc steps) below h = (steps, refl, omega arith)

budget :
    (now before max steps' steps n : ℕ)
    → now ≤ max
    → steps ≡ suc steps'
    → before + spare steps max < suc n
    → now + spare steps' max < n
budget now before max steps' steps n h e b = let b' = rw e at b in omega arith

module _ (func_cb timer_cb : ℕ → Loop → Loop) (fs : Steady func_cb) (ts : Steady timer_cb) where
  call_func-place : (id : ℕ) (d : Loop) → (call_func func_cb timer_cb id d).idx ≡ d.idx
  call_func-place id d = ground (arith, fs.place id d)

  call_func-size : (id : ℕ) (d : Loop) → length ((call_func func_cb timer_cb id d).f) ≡ length d.f
  call_func-size id d = ground (arith, fs.f_size id d)

  func_rounds-Ends :
      (n steps : ℕ) (d : Loop)
      → length d.f ≤ d.idx + steps
      → used d.f + spare steps (length d.f) < n
      → Ends (func_rounds func_cb timer_cb n d)
  unfolding func_rounds
  func_rounds-Ends zero steps d h b = absurd (omega arith)
  func_rounds-Ends (suc n) steps d h b = elim (Option-cases (get_or d.f d.idx none)) [
    | inl e ↦ rw (func_rounds, e) (returns d)
    | inr (id, e) ↦ elim (Bool-cases ((func_at d id).to_delete)) [
      | inl t ↦ elim (delete_at-Shrunk d.idx id d.f e) [
        | inl f ↦ rw (func_rounds, e, t, f) faults
        | inr (s, f, k) ↦
            let d' : Loop =
              put_func id (record (func_at d id) { to_delete = false }) (record d { f = s }) in
            rw (func_rounds, e, t, f)
              (func_rounds-Ends n steps d' (omega (arith, k.same))
                (rw k.same (omega (arith, k.fewer))))
      ]
      | inr t ↦
          let d' : Loop = call_func func_cb timer_cb id (record d { idx = d.idx + 1 }) in
          let size : length d'.f ≡ length d.f = call_func-size id (record d { idx = d.idx + 1 }) in
          let place : d'.idx ≡ d.idx + 1 = call_func-place id (record d { idx = d.idx + 1 }) in
          let (steps', s, h') = one_step (length d.f) d.idx steps (get_or-below d.f d.idx id e) h in
          rw (func_rounds, e, t)
            (func_rounds-Ends n steps' d' (rw (size, place) h') (
              rw size (
                budget (used d'.f) (used d.f) (length d.f) steps' steps n
                  (omega (arith, used-length d'.f, size)) s b)))
    ]
  ]

  update_timer-place : (id : ℕ) (d : Loop) → (update_timer func_cb timer_cb id d).idx ≡ d.idx
  unfolding update_timer
  update_timer-place id d = elim (Bool-cases ((count_frame (timer_at d id)).0)) [
    | inl t ↦ rw t (ts.place id (put_timer id ((count_frame (timer_at d id)).1) d))
    | inr t ↦ rw t refl
  ]

  update_timer-size :
      (id : ℕ) (d : Loop) → length ((update_timer func_cb timer_cb id d).t) ≡ length d.t
  unfolding update_timer
  update_timer-size id d = elim (Bool-cases ((count_frame (timer_at d id)).0)) [
    | inl t ↦ rw t (ts.t_size id (put_timer id ((count_frame (timer_at d id)).1) d))
    | inr t ↦ rw t refl
  ]

  timer_rounds-Ends :
      (n steps : ℕ) (d : Loop)
      → length d.t ≤ d.idx + steps
      → used d.t + spare steps (length d.t) < n
      → Ends (timer_rounds func_cb timer_cb n d)
  unfolding timer_rounds
  timer_rounds-Ends zero steps d h b = absurd (omega arith)
  timer_rounds-Ends (suc n) steps d h b = elim (Option-cases (get_or d.t d.idx none)) [
    | inl e ↦ rw (timer_rounds, e) (returns d)
    | inr (id, e) ↦ elim (Bool-cases ((timer_at d id).to_delete)) [
      | inl t ↦ elim (delete_at-Shrunk d.idx id d.t e) [
        | inl f ↦ rw (timer_rounds, e, t, f) faults
        | inr (s, f, k) ↦
            let d' : Loop =
              put_timer id (record (timer_at d id) { to_delete = false }) (record d { t = s }) in
            rw (timer_rounds, e, t, f)
              (timer_rounds-Ends n steps d' (omega (arith, k.same))
                (rw k.same (omega (arith, k.fewer))))
      ]
      | inr t ↦
          let d' : Loop = update_timer func_cb timer_cb id (record d { idx = d.idx + 1 }) in
          let size : length d'.t ≡ length d.t =
            update_timer-size id (record d { idx = d.idx + 1 }) in
          let place : d'.idx ≡ d.idx + 1 = update_timer-place id (record d { idx = d.idx + 1 }) in
          let (steps', s, h') = one_step (length d.t) d.idx steps (get_or-below d.t d.idx id e) h in
          rw (timer_rounds, e, t)
            (timer_rounds-Ends n steps' d' (rw (size, place) h') (
              rw size (
                budget (used d'.t) (used d.t) (length d.t) steps' steps n
                  (omega (arith, used-length d'.t, size)) s b)))
    ]
  ]

-- A pass over a table whose maximum is negative is left out.
skipped :
    (b : Bool) (d : Loop) (o : Outcome Loop)
    → ((e : Loop) × (o ≡ done e)) ⊎ (o ≡ fault)
    → ((e : Loop) × ((if b then done d else o) ≡ done e)) ⊎ ((if b then done d else o) ≡ fault)
skipped true d o h = inl (d, refl)
skipped false d o h = h

-- If the callbacks keep the sizes of the tables and the place of a pass, both passes come to an end,
-- from any place and whatever functions and timers the callbacks add, mark to be deleted or change: they
-- return, or read past the end of a table.
pub passes_end :
    (func_cb timer_cb : ℕ → Loop → Loop) (d : Loop)
    → Steady func_cb
    → Steady timer_cb
    → (((e : Loop) × (run_funcs func_cb timer_cb d ≡ done e))
        ⊎ (run_funcs func_cb timer_cb d ≡ fault))
      × (((e : Loop) × (check_timers func_cb timer_cb d ≡ done e))
          ⊎ (check_timers func_cb timer_cb d ≡ fault))
unfolding run_funcs check_timers
passes_end func_cb timer_cb d fs ts = (
  skipped d.f_negative d _ (
      Ends-cases _ (
        func_rounds-Ends func_cb timer_cb fs ts (rounds (length d.f)) (length d.f) d (omega arith)
          (omega (arith, used-length d.f)))),
  skipped d.t_negative d _ (
      Ends-cases _ (
        timer_rounds-Ends func_cb timer_cb fs ts (rounds (length d.t)) (length d.t) d (omega arith)
          (omega (arith, used-length d.t)))),
)
