-- ===== src/Loop/Slots.antt =====
-- The tables of src/mw/loop.c as lists of what stands in them.
use mega_drive_megawifi_appl.Base.{
  ℕ, zero, suc, ◌+◌, ◌-◌, ◌<◌, ◌≡◌, refl, ◌∙◌, ap, Bool, true, false, ◌&&◌, ◌||◌, none, some, List,
  [], ◌∷◌, ◌++◌, length, set, ◌==◌, if◌then◌else◌, Outcome, done, fault, replicate, arith,
  Bool-cases, inl, inr,
}
use mega_drive_megawifi_appl.Loop.{
  Slots, unmarked, full, added, add_to, find_in, close_up, delete_at, Loop, func_at, timer_at,
  put_func, put_timer, add_func, add_timer, loop_func_add, loop_timer_add, loop_func_del,
  loop_timer_del,
}

-- A table that holds the given objects from its front on, and a number of free slots behind them.
abbrev pub table : List ℕ → ℕ → Slots
table [] free = replicate free none
table (id ∷ ids) free = some id ∷ table ids free

abbrev pub is_in : ℕ → List ℕ → Bool
is_in id [] = false
is_in id (j ∷ ids) = j == id || is_in id ids

abbrev pub without : ℕ → List ℕ → List ℕ
without i [] = []
without zero (id ∷ ids) = ids
without (suc i) (id ∷ ids) = id ∷ without i ids

add_to-table :
    (marked : Bool) (id : ℕ) (ids : List ℕ) (free : ℕ)
    → add_to marked id (table ids free) ≡ (
        if marked && is_in id ids
        then unmarked
        else if free == 0
        then full
        else added (table (ids ++ (id ∷ [])) (free - 1)))
unfolding add_to
add_to-table false id [] zero = refl
add_to-table true id [] zero = refl
add_to-table false id [] (suc free) = ground arith
add_to-table true id [] (suc free) = ground arith
add_to-table marked id (j ∷ ids) free = elim (Bool-cases (j == id && marked)) [
  | inl t ↦ ground arith
  | inr f ↦ rw (f, add_to-table marked id ids free) (ground arith)
]

find_in-table :
    (id : ℕ) (ids : List ℕ) (free : ℕ)
    → find_in id (table ids free)
      ≡ (if is_in id ids then done true else if free == 0 then fault else done false)
unfolding find_in
find_in-table id [] zero = refl
find_in-table id [] (suc free) = ground arith
find_in-table id (j ∷ ids) free = ground (arith, find_in-table id ids free)

close_up-table :
    (id : ℕ) (ids : List ℕ) (free : ℕ)
    → close_up (table (id ∷ ids) free) ≡ (if free == 0 then fault else done (table ids (free + 1)))
unfolding close_up
close_up-table id [] zero = refl
close_up-table id [] (suc free) = ground arith
close_up-table id (j ∷ ids) free = elim (Bool-cases (free == 0)) [
  | inl t ↦ rw (close_up-table j ids free, t) refl
  | inr f ↦ rw (close_up-table j ids free, f) refl
]

-- The deletion of a slot in use closes the gap and frees a slot at the end, where one was free before; in
-- a full table it reads past the end.
pub delete_at-table :
    (i : ℕ) (ids : List ℕ) (free : ℕ)
    → i < length ids
    → delete_at i (table ids free)
      ≡ (if free == 0 then fault else done (table (without i ids) (free + 1)))
unfolding delete_at
delete_at-table i [] free h = absurd (omega arith)
delete_at-table zero (id ∷ ids) free h = close_up-table id ids free
delete_at-table (suc i) (id ∷ ids) free h = elim (Bool-cases (free == 0)) [
  | inl t ↦ rw (delete_at-table i ids free (omega arith), t) refl
  | inr f ↦ rw (delete_at-table i ids free (omega arith), f) refl
]

abbrev pub table_add : {A : Type 0} → Bool → ℕ → List ℕ → ℕ → A → A → (Slots → A) → A
table_add marked id ids free taken_back refused put_in =
    if marked && is_in id ids
    then taken_back
    else if free == 0
    then refused
    else put_in (table (ids ++ (id ∷ [])) (free - 1))

add_func-table :
    (id : ℕ) (ids : List ℕ) (free : ℕ) (d : Loop)
    → d.f ≡ table ids free
    → add_func id d
      ≡ table_add
          ((func_at d id).to_delete)
          id
          ids
          free
          (0, put_func id (record (func_at d id) { to_delete = false }) d)
          (1, d)
          (λ slots. (0, record d { f = slots }))
unfolding add_func
add_func-table id ids free d e =
    let q =
      ap (add_to ((func_at d id).to_delete) id) e
      ∙ add_to-table ((func_at d id).to_delete) id ids free in
    elim (Bool-cases ((func_at d id).to_delete && is_in id ids)) [
      | inl t ↦ rw (add_func, q, t) refl
      | inr f ↦ elim (Bool-cases (free == 0)) [
        | inl z ↦ rw (add_func, q, f, z) refl
        | inr z ↦ rw (add_func, q, f, z) refl
      ]
    ]

loop_func_add-table :
    (id : ℕ) (ids : List ℕ) (free : ℕ) (d : Loop)
    → d.f_negative ≡ false
    → d.f ≡ table ids free
    → loop_func_add id d
      ≡ table_add
          ((func_at d id).to_delete)
          id
          ids
          free
          (0, put_func id (record (func_at d id) { to_delete = false }) d)
          (1, d)
          (λ slots. (0, record d { f = slots }))
unfolding loop_func_add
loop_func_add-table id ids free d small e =
    ap (λ b. if b then (0, record d { f = set d.f 0 (some id) }) else add_func id d) small
    ∙ add_func-table id ids free d e

add_timer-table :
    (id : ℕ) (ids : List ℕ) (free : ℕ) (d : Loop)
    → d.t ≡ table ids free
    → add_timer id d
      ≡ table_add
          ((timer_at d id).to_delete)
          id
          ids
          free
          (0, put_timer id (record (timer_at d id) { to_delete = false }) d)
          (1, d)
          (λ slots. (0, record d { t = slots }))
unfolding add_timer
add_timer-table id ids free d e =
    let q =
      ap (add_to ((timer_at d id).to_delete) id) e
      ∙ add_to-table ((timer_at d id).to_delete) id ids free in
    elim (Bool-cases ((timer_at d id).to_delete && is_in id ids)) [
      | inl t ↦ rw (add_timer, q, t) refl
      | inr f ↦ elim (Bool-cases (free == 0)) [
        | inl z ↦ rw (add_timer, q, f, z) refl
        | inr z ↦ rw (add_timer, q, f, z) refl
      ]
    ]

loop_timer_add-table :
    (id : ℕ) (ids : List ℕ) (free : ℕ) (d : Loop)
    → d.t_negative ≡ false
    → d.t ≡ table ids free
    → loop_timer_add id d
      ≡ table_add
          ((timer_at d id).to_delete)
          id
          ids
          free
          (0, put_timer id (record (timer_at d id) { to_delete = false }) d)
          (1, d)
          (λ slots. (0, record d { t = slots }))
unfolding loop_timer_add
loop_timer_add-table id ids free d small e =
    ap (λ b. if b then (0, record d { t = set d.t 0 (some id) }) else add_timer id d) small
    ∙ add_timer-table id ids free d e

abbrev pub table_del : {A : Type 0} → ℕ → List ℕ → ℕ → A → A → Outcome A
table_del id ids free marked absent =
    if is_in id ids then done marked else if free == 0 then fault else done absent

loop_func_del-table :
    (id : ℕ) (ids : List ℕ) (free : ℕ) (d : Loop)
    → d.f ≡ table ids free
    → loop_func_del id d
      ≡ table_del id ids free (0, put_func id (record (func_at d id) { to_delete = true }) d) (1, d)
unfolding loop_func_del
loop_func_del-table id ids free d e = elim (Bool-cases (is_in id ids)) [
  | inl t ↦ rw (e, find_in-table id ids free, t) refl
  | inr f ↦ elim (Bool-cases (free == 0)) [
    | inl z ↦ rw (e, find_in-table id ids free, f, z) refl
    | inr z ↦ rw (e, find_in-table id ids free, f, z) refl
  ]
]

loop_timer_del-table :
    (id : ℕ) (ids : List ℕ) (free : ℕ) (d : Loop)
    → d.t ≡ table ids free
    → loop_timer_del id d
      ≡ table_del id ids free
          (0, put_timer id (record (timer_at d id) { to_delete = true }) d)
          (1, d)
unfolding loop_timer_del
loop_timer_del-table id ids free d e = elim (Bool-cases (is_in id ids)) [
  | inl t ↦ rw (e, find_in-table id ids free, t) refl
  | inr f ↦ elim (Bool-cases (free == 0)) [
    | inl z ↦ rw (e, find_in-table id ids free, f, z) refl
    | inr z ↦ rw (e, find_in-table id ids free, f, z) refl
  ]
]

-- Where the tables have at most 127 slots, so that their maxima are not negative, and a table holds
-- objects from its front on and free slots behind them, an addition takes the mark back from an object in
-- the table that is marked to be deleted, fails without a free slot, and else puts the object behind the
-- others, also if it is in the table unmarked, and leaves it disabled if it is; a deletion marks an object
-- in the table, fails for another, and for that reads past the end if no slot is free.
pub tables_refine :
    (id : ℕ) (fs : List ℕ) (f_free : ℕ) (ts : List ℕ) (t_free : ℕ) (d : Loop)
    → d.f_negative ≡ false
    → d.t_negative ≡ false
    → d.f ≡ table fs f_free
    → d.t ≡ table ts t_free
    → (loop_func_add id d
        ≡ table_add
            ((func_at d id).to_delete)
            id
            fs
            f_free
            (0, put_func id (record (func_at d id) { to_delete = false }) d)
            (1, d)
            (λ slots. (0, record d { f = slots })))
      × (loop_timer_add id d
          ≡ table_add
              ((timer_at d id).to_delete)
              id
              ts
              t_free
              (0, put_timer id (record (timer_at d id) { to_delete = false }) d)
              (1, d)
              (λ slots. (0, record d { t = slots })))
      × (loop_func_del id d
          ≡ table_del id fs f_free
              (0, put_func id (record (func_at d id) { to_delete = true }) d)
              (1, d))
      × (loop_timer_del id d
          ≡ table_del id ts t_free
              (0, put_timer id (record (timer_at d id) { to_delete = true }) d)
              (1, d))
tables_refine id fs f_free ts t_free d small small' e h = (
  loop_func_add-table id fs f_free d small e,
  loop_timer_add-table id ts t_free d small' h,
  loop_func_del-table id fs f_free d e,
  loop_timer_del-table id ts t_free d h,
)
