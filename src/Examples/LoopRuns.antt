-- ===== src/Examples/LoopRuns.antt =====
-- src/mw/loop.c with two slots for functions and three for timers.
use mega_drive_megawifi_appl.Base.{
  ℕ, ◌≡◌, refl, true, false, none, some, [], ◌∷◌, done, fault, ◌⊎◌, arith,
}
use mega_drive_megawifi_appl.Loop.{
  Func, Timer, Loop, empty_env, loop_func_add, loop_timer_add, loop_func_del, loop_timer_del,
  delete_at, count_frame, func_at, put_func, run_funcs, check_timers,
}
use mega_drive_megawifi_appl.Loop.Slots.{tables_refine, delete_at-table}
use mega_drive_megawifi_appl.Loop.Clock.{after, started, count_frame-after}
use mega_drive_megawifi_appl.Loop.Passes.{Steady, passes_end}

abbrev idle : Func
idle = record { to_delete = false; blocked = false; disabled = false }

abbrev frame_timer : Timer
frame_timer = started 1 false false

-- The table of functions is full; a timer is to be deleted.
abbrev busy_loop : Loop
busy_loop = record {
  f = some 0 ∷ some 1 ∷ [];
  t = some 0 ∷ some 1 ∷ none ∷ [];
  func = idle ∷ idle ∷ idle ∷ [];
  timer = frame_timer ∷ record frame_timer { to_delete = true } ∷ [];
  f_negative = false;
  t_negative = false;
  env = empty_env;
  check = false;
  idx = 0;
  vblank = false;
  frame = 0;
  exit = 0;
}

tables_refine_example :
    (loop_func_add 2 busy_loop ≡ (1, busy_loop))
    × (loop_timer_add 2 busy_loop ≡ (0, record busy_loop { t = some 0 ∷ some 1 ∷ some 2 ∷ [] }))
    × (loop_func_del 2 busy_loop ≡ fault)
    × (loop_timer_del 2 busy_loop ≡ done (1, busy_loop))
tables_refine_example = tables_refine 2 (0 ∷ 1 ∷ []) 0 (0 ∷ 1 ∷ []) 1 busy_loop refl refl refl refl

delete_at-table_example :
    delete_at 0 (some 7 ∷ some 8 ∷ none ∷ []) ≡ done (some 8 ∷ none ∷ none ∷ [])
delete_at-table_example = delete_at-table 0 (7 ∷ 8 ∷ []) 1 (omega arith)

count_frame-after_example :
    ((count_frame (after 2 (started 3 true false))).0 ≡ true)
    × (after 3 (started 3 true false) ≡ started 3 true false)
    × ((count_frame (after 5 (record (started 3 true false) { frames = 0; count = 3 }))).0 ≡ false)
count_frame-after_example = count_frame-after 3 2 5 true false (omega arith) (omega arith)

-- A callback that marks its function to be deleted.
abbrev mark : ℕ → Loop → Loop
mark id d = put_func id (record (func_at d id) { to_delete = true }) d

abbrev mark-Steady : Steady mark
mark-Steady = record { f_size = λ id d. refl; t_size = λ id d. refl; place = λ id d. refl }

passes_end_example :
    (((e : Loop) × (run_funcs mark mark busy_loop ≡ done e))
      ⊎ (run_funcs mark mark busy_loop ≡ fault))
    × (((e : Loop) × (check_timers mark mark busy_loop ≡ done e))
        ⊎ (check_timers mark mark busy_loop ≡ fault))
passes_end_example = passes_end mark mark busy_loop mark-Steady mark-Steady
