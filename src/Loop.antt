-- ===== src/Loop.antt =====
-- src/mw/loop.c: the tables of functions and timers, and the passes of the main loop over them.
-- A pointer to a function or timer is its number in a store; a table is its slots, `none` a null pointer.
-- Reads past a table fault. The callbacks are parameters.
pub mod Slots
pub mod Clock
pub mod Passes
pub mod Pend
use mega_drive_megawifi_appl.Base.{
  ℕ, zero, suc, ◌+◌, ◌*◌, ◌%◌, ◌^◌, Bool, true, false, not, ◌&&◌, ◌||◌, Option, none, some, List,
  [], ◌∷◌, length, ltb, leb, ◌==◌, get_or, set, if◌then◌else◌, Outcome, done, fault, spent, ◌>>=◌,
  replicate,
}

pub record Func : Type 0 where
  pub to_delete : Bool
  pub blocked : Bool
  pub disabled : Bool

pub record Timer : Type 0 where
  pub frames : ℕ
  pub count : ℕ
  pub auto_reload : Bool
  pub to_delete : Bool
  pub blocked : Bool

-- `*d->env`: the function or the timer whose callback waits in `loop_pend`.
pub record PendEnv : Type 0 where
  pub func_waiting : Option ℕ
  pub timer_waiting : Option ℕ

abbrev pub empty_env : PendEnv
empty_env = record { func_waiting = none; timer_waiting = none }

abbrev pub Slots : Type 0
Slots = List (Option ℕ)

-- `check`: whether it is LOOP_CHECK_TIMERS. `f` and `t` are as long as they were allocated; `f_negative`
-- and `t_negative` tell that `func_max` and `timer_max`, which are `int8_t`, came out negative of that. `env`
-- is that of the loop that runs.
pub record Loop : Type 0 where
  pub f : Slots
  pub t : Slots
  pub func : List Func
  pub timer : List Timer
  pub f_negative : Bool
  pub t_negative : Bool
  pub env : PendEnv
  pub check : Bool
  pub idx : ℕ
  pub vblank : Bool
  pub frame : ℕ
  pub exit : ℕ

-- Stores have a default for numbers that stand for no object.
abbrev pub func_at : Loop → ℕ → Func
func_at d id = get_or d.func id (record { to_delete = false; blocked = false; disabled = true })

abbrev pub timer_at : Loop → ℕ → Timer
timer_at d id =
    get_or d.timer id
      (record { frames = 0; count = 0; auto_reload = false; to_delete = false; blocked = false })

abbrev pub put_func : ℕ → Func → Loop → Loop
put_func id x d = record d { func = set d.func id x }

abbrev pub put_timer : ℕ → Timer → Loop → Loop
put_timer id x d = record d { timer = set d.timer id x }

-- `loop_init` after its memory is allocated, both tables empty. A size is a `uint8_t`.
unfoldable pub loop_init : ℕ → ℕ → Bool → List Func → List Timer → Loop
loop_init max_func max_timer vblank func timer = record {
  f = replicate max_func none;
  t = replicate max_timer none;
  func = func;
  timer = timer;
  f_negative = leb (2 ^ 7) max_func;
  t_negative = leb (2 ^ 7) max_timer;
  env = empty_env;
  check = false;
  idx = 0;
  vblank = vblank;
  frame = 0;
  exit = 0;
}

-- What comes of an addition: a mark that is taken back, no room, or the table with it.
pub data Added : Type 0 where
  unmarked full : Added
  added : Slots → Added

abbrev pub behind : Option ℕ → Added → Added
behind slot unmarked = unmarked
behind slot full = full
behind slot (added slots) = added (slot ∷ slots)

-- The loop of `loop_func_add` and `loop_timer_add`; `marked` is the object's `to_delete`.
unfoldable pub add_to : Bool → ℕ → Slots → Added
add_to marked id [] = full
add_to marked id (none ∷ slots) = added (some id ∷ slots)
add_to marked id (some j ∷ slots) =
    let rest = add_to marked id slots in
    if j == id && marked then unmarked else behind (some j) rest

unfoldable pub add_func : ℕ → Loop → ℕ × Loop
add_func id d =
    let x : Func = func_at d id in
    elim (add_to x.to_delete id d.f) [
      | unmarked ↦ (0, put_func id (record x { to_delete = false }) d)
      | full ↦ (1, d)
      | added slots ↦ (0, record d { f = slots })
    ]

-- With a negative maximum the loop ends at once, and is taken to have found a free slot.
unfoldable pub loop_func_add : ℕ → Loop → ℕ × Loop
loop_func_add id d =
    if d.f_negative then (0, record d { f = set d.f 0 (some id) }) else add_func id d

unfoldable pub add_timer : ℕ → Loop → ℕ × Loop
add_timer id d =
    let x : Timer = timer_at d id in
    elim (add_to x.to_delete id d.t) [
      | unmarked ↦ (0, put_timer id (record x { to_delete = false }) d)
      | full ↦ (1, d)
      | added slots ↦ (0, record d { t = slots })
    ]

-- With a negative maximum the loop ends at once, and is taken to have found a free slot.
unfoldable pub loop_timer_add : ℕ → Loop → ℕ × Loop
loop_timer_add id d =
    if d.t_negative then (0, record d { t = set d.t 0 (some id) }) else add_timer id d

-- The loop of `loop_func_del` and `loop_timer_del`, which has no test of the table's end.
unfoldable pub find_in : ℕ → Slots → Outcome Bool
find_in id [] = fault
find_in id (none ∷ slots) = done false
find_in id (some j ∷ slots) = let rest = find_in id slots in if j == id then done true else rest

unfoldable pub loop_func_del : ℕ → Loop → Outcome (ℕ × Loop)
loop_func_del id d = find_in id d.f >>= λ found.
    done (if found then (0, put_func id (record (func_at d id) { to_delete = true }) d) else (1, d))

unfoldable pub loop_timer_del : ℕ → Loop → Outcome (ℕ × Loop)
loop_timer_del id d = find_in id d.t >>= λ found.
    done
      (if found then (0, put_timer id (record (timer_at d id) { to_delete = true }) d) else (1, d))

-- `loop_timer_start` and `loop_timer_stop`.
unfoldable pub loop_timer_start : ℕ → ℕ → Loop → Loop
loop_timer_start id frames d =
    put_timer id (record (timer_at d id) { frames = frames % 2 ^ 16; count = 0 }) d

unfoldable pub loop_timer_stop : ℕ → Loop → Loop
loop_timer_stop id d = put_timer id (record (timer_at d id) { frames = 0 }) d

-- `delete_func` and `delete_timer`, from the slot on that is deleted.
unfoldable pub close_up : Slots → Outcome Slots
close_up [] = fault
close_up (slot ∷ []) = fault
close_up (slot ∷ none ∷ slots) = done (none ∷ none ∷ slots)
close_up (slot ∷ some j ∷ slots) = close_up (some j ∷ slots) >>= λ rest. done (some j ∷ rest)

unfoldable pub delete_at : ℕ → Slots → Outcome Slots
delete_at zero slots = close_up slots
delete_at (suc i) [] = fault
delete_at (suc i) (slot ∷ slots) = delete_at i slots >>= λ rest. done (slot ∷ rest)

-- The timer after an update, and whether its callback is called.
unfoldable pub count_frame : Timer → Bool × Timer
count_frame t =
    let count : ℕ = (t.count + 1) % 2 ^ 16 in
    if t.frames == 0 || t.blocked
    then (false, t)
    else if ltb count t.frames
    then (false, record t { count = count })
    else if t.auto_reload
    then (true, record t { count = 0 })
    else (true, record t { count = count; frames = 0 })

unfoldable pub frame_update : Bool → Loop → Bool × Loop
frame_update vblank d =
    if not d.vblank && vblank
    then (true, record d { vblank = vblank; frame = (d.frame + 1) % 2 ^ 16 })
    else (false, record d { vblank = vblank })

-- The rounds of a pass over so many slots are at most these: before each step to the next slot there are
-- at most as many deletions as there are slots.
abbrev pub spare : ℕ → ℕ → ℕ
spare zero max = 0
spare (suc steps) max = suc max + spare steps max

abbrev pub rounds : ℕ → ℕ
rounds max = suc (max + spare max max)

module _ (func_cb timer_cb : ℕ → Loop → Loop) where
  abbrev pub call_func : ℕ → Loop → Loop
  call_func id d =
      if not ((func_at d id).disabled) && not ((func_at d id).blocked)
      then (let d' : Loop = func_cb id d in
          record d' { env = record (d'.env) { func_waiting = none } })
      else d

  -- The loop of `run_funcs`.
  unfoldable pub func_rounds : ℕ → Loop → Outcome Loop
  func_rounds zero d = spent
  func_rounds (suc n) d = elim (get_or d.f d.idx none) [
    | none ↦ done d
    | some id ↦
        if (func_at d id).to_delete
        then (delete_at d.idx d.f >>= λ slots.
            func_rounds n
              (put_func id (record (func_at d id) { to_delete = false }) (record d { f = slots })))
        else func_rounds n (call_func id (record d { idx = d.idx + 1 }))
  ]

  unfoldable pub run_funcs : Loop → Outcome Loop
  run_funcs d =
      let all = func_rounds (rounds (length d.f)) d in if d.f_negative then done d else all

  unfoldable pub update_timer : ℕ → Loop → Loop
  update_timer id d =
      let (due, x) = count_frame (timer_at d id) in
      if due
      then (let d' : Loop = timer_cb id (put_timer id x d) in
          record d' { env = record (d'.env) { timer_waiting = none } })
      else put_timer id x d

  -- The loop of `check_timers`.
  unfoldable pub timer_rounds : ℕ → Loop → Outcome Loop
  timer_rounds zero d = spent
  timer_rounds (suc n) d = elim (get_or d.t d.idx none) [
    | none ↦ done d
    | some id ↦
        if (timer_at d id).to_delete
        then (delete_at d.idx d.t >>= λ slots.
            timer_rounds n (
              put_timer id (record (timer_at d id) { to_delete = false }) (record d { t = slots })))
        else timer_rounds n (update_timer id (record d { idx = d.idx + 1 }))
  ]

  unfoldable pub check_timers : Loop → Outcome Loop
  check_timers d =
      let all = timer_rounds (rounds (length d.t)) d in if d.t_negative then done d else all

  -- The body of `loop`, with the state of the vertical blank that it reads.
  unfoldable pub loop_pass : Bool → Loop → Outcome Loop
  loop_pass vblank d =
      let (new, d') = if d.check then (true, d) else frame_update vblank d in
      if new
      then (check_timers (record d' { check = true }) >>= λ e.
          done (record e { idx = 0; check = false }))
      else (run_funcs d' >>= λ e. done (record e { idx = 0 }))

  -- `loop`, as far as the readings go: whether it has ended.
  unfoldable pub loop : List Bool → Loop → Outcome (Bool × Loop)
  loop [] d = done (not (d.exit == 0), d)
  loop (vblank ∷ later) d =
      if not (d.exit == 0) then done (true, d) else (loop_pass vblank d >>= λ e. loop later e)
