-- ===== src/App/Start.antt =====
-- `main` of src/main.c up to its loop.
use mega_drive_megawifi_appl.Base.{ℕ, Bool, false, some, List, [], ◌∷◌, Outcome}
use mega_drive_megawifi_appl.Lsd.{Lsd}
use mega_drive_megawifi_appl.Lsd.Polling.{Serial}
use mega_drive_megawifi_appl.Loop.{Loop, Func, Timer, loop_init, loop_func_add, loop_timer_add}
use mega_drive_megawifi_appl.MegaWifi.{Mw}
use mega_drive_megawifi_appl.MegaWifi.Setup.{mw_init}
use mega_drive_megawifi_appl.MegaWifi.Direct.{mw_process}

abbrev pub mw_buflen : ℕ
mw_buflen = 1460

abbrev pub mw_max_loop_funcs : ℕ
mw_max_loop_funcs = 2

abbrev pub mw_max_loop_timers : ℕ
mw_max_loop_timers = 4

-- `idle_cb` over the link: nothing but `mw_process`.
unfoldable pub idle_cb : {S : Type 0} → Serial S → ℕ → Lsd → S → Outcome (Lsd × S)
idle_cb uart = mw_process uart

-- Timer 0, whose callback is `megawifi_init_cb`, and function 0, whose callback is `idle_cb`.
abbrev pub frame_timer : Timer
frame_timer = record {
  frames = 1;
  count = 0;
  auto_reload = false;
  to_delete = false;
  blocked = false;
}

abbrev pub megawifi_loop : Func
megawifi_loop = record { to_delete = false; blocked = false; disabled = false }

-- Timer 1 is `d.timer` of src/mw/megawifi.c, as `mw_init` clears it.
abbrev pub mw_timer : Timer
mw_timer = record { frames = 0; count = 0; auto_reload = false; to_delete = false; blocked = false }

unfoldable pub main_loop_init : Bool → Loop
main_loop_init vblank =
    let d0 : Loop =
      loop_init mw_max_loop_funcs mw_max_loop_timers vblank (megawifi_loop ∷ [])
        (frame_timer ∷ mw_timer ∷ []) in
    let d1 : Loop = (loop_timer_add 0 d0).1 in (loop_func_add 0 d1).1

-- `main` before `loop()`; `mw_init` adds its timer to the loop.
unfoldable pub main_start : Bool → Bool → List ℕ → Mw → Loop × Mw
main_start vblank installed cmd_buf mw =
    let d : Loop = main_loop_init vblank in
    let (err, mw') = mw_init (some cmd_buf) mw_buflen installed mw in ((loop_timer_add 1 d).1, mw')
