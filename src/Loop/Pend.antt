-- ===== src/Loop/Pend.antt =====
-- `loop_pend`, `loop_post` and `loop_end` of src/mw/loop.c. The run of the loop inside `loop_pend` is the
-- parameter `nested`: it ends by a jump out of `loop_post`, or because the loop is told to end.
use mega_drive_megawifi_appl.Base.{
  ℕ, zero, suc, Bool, true, false, not, Option, none, some, if◌then◌else◌, Outcome, done, fault,
  ◌>>=◌, get_elem?,
}
use mega_drive_megawifi_appl.Loop.{
  Loop, Slots, PendEnv, empty_env, func_at, timer_at, put_func, put_timer,
}

-- The loop, `has_env` telling whether `env` points to one at all, as it does while a loop runs, and `jmp`,
-- `none` for NULL; a jump buffer is known by how deep `loop_pend` is nested.
pub record Pending : Type 0 where
  pub run : Loop
  pub has_env : Bool
  pub jmp : Option ℕ

pub data Ending : Type 0 where
  posted : ℕ → Ending
  ended : Ending

-- What `setjmp` gives the second time: `longjmp` makes 1 of 0. The loop that ends leaves 0.
abbrev pub returned_by : Ending → ℕ
returned_by (posted zero) = 1
returned_by (posted (suc v)) = suc v
returned_by ended = 0

abbrev pub deeper : Option ℕ → ℕ
deeper none = 0
deeper (some n) = suc n

-- A slot before the place of a pass.
abbrev slot_before : ℕ → Slots → Outcome (Option ℕ)
slot_before zero slots = fault
slot_before (suc i) slots = elim (get_elem? slots i) [ none ↦ fault | some slot ↦ done slot ]

-- The test of `loop_pend` that nothing waits yet, and the choice it then makes.
unfoldable pub choose : Loop → Outcome PendEnv
choose d = elim d.env.func_waiting [
  | some id ↦ done d.env
  | none ↦ elim d.env.timer_waiting [
    | some id ↦ done d.env
    | none ↦
        if not d.check
        then (slot_before d.idx d.f >>= λ slot. done (record (d.env) { func_waiting = slot }))
        else (slot_before d.idx d.t >>= λ slot. done (record (d.env) { timer_waiting = slot }))
  ]
]

abbrev pub block_func : Bool → ℕ → Pending → Pending
block_func b id p = record p { run = put_func id (record (func_at p.run id) { blocked = b }) p.run }

abbrev pub block_timer : Bool → ℕ → Pending → Pending
block_timer b id p = record p {
  run = put_timer id (record (timer_at p.run id) { blocked = b }) p.run;
}

-- `loop_post`: what it jumps with, or nothing where no loop runs. There may be nothing to jump to.
unfoldable pub loop_post : ℕ → Pending → Outcome (Option Ending)
loop_post v p =
    if p.has_env then elim p.jmp [ none ↦ fault | some j ↦ done (some (posted v)) ] else done none

unfoldable pub loop_end : ℕ → Loop → Loop
loop_end v d = record d { exit = v }

module _ (nested : Pending → Outcome (Ending × Pending)) where
  -- `loop` starts with an empty `pend_env` of its own.
  unfoldable pub jmp_set : Pending → Outcome (ℕ × Pending)
  jmp_set p =
      nested (record {
        run = record (p.run) { env = empty_env };
        has_env = true;
        jmp = some (deeper p.jmp);
      })
      >>= λ r. done (
        returned_by (r.0),
        record { run = record ((r.1).run) { env = p.run.env }; has_env = p.has_env; jmp = p.jmp },
      )

  unfoldable pub wait_in : Pending → Outcome (ℕ × Pending)
  wait_in p = elim p.run.env.func_waiting [
    | some id ↦ jmp_set (block_func true id p) >>= λ r. done (r.0, block_func false id (r.1))
    | none ↦ elim p.run.env.timer_waiting [
      | some id ↦ jmp_set (block_timer true id p) >>= λ r. done (r.0, block_timer false id (r.1))
      | none ↦ done (0, p)
    ]
  ]

  unfoldable pub loop_pend : Pending → Outcome (ℕ × Pending)
  loop_pend p =
      if p.has_env
      then (choose p.run >>= λ chosen. wait_in (record p { run = record (p.run) { env = chosen } }))
      else fault
