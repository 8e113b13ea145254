-- ===== src/MegaWifi/Poll.antt =====
-- Waiting for an access point or a socket in src/mw/megawifi.c: `mw_ap_assoc_wait` and
-- `mw_sock_conn_wait`, which poll a status with the module's timer until a callback posts a value.
use mega_drive_megawifi_appl.Base.{
  ℕ, ◌+◌, ◌-◌, ◌%◌, ◌^◌, ◌||◌, Bool, true, false, ◌&&◌, Option, none, some, List, [], ◌∷◌, ◌++◌,
  leb, ◌==◌, if◌then◌else◌,
}
use mega_drive_megawifi_appl.AppleMidi.{mw_err_none}
use mega_drive_megawifi_appl.MegaWifi.{ms_to_frames, mw_ctrl_ch, err_not_ready, be16}
use mega_drive_megawifi_appl.MegaWifi.Codes.{code, cmd_sys_stat, cmd_sock_stat}

abbrev pub stat_poll_tout : ℕ
stat_poll_tout = ms_to_frames 250

-- What is polled: the status that ends the wait, the query that is sent first, and that of the callback.
pub record Target : Type 0 where
  pub ready_stat : ℕ
  pub first_query : List ℕ
  pub query : List ℕ

-- MW_ST_READY, and `d.cmd->sys_stat.sys_stat`.
abbrev pub assoc_target : Target
assoc_target = record {
  ready_stat = 4;
  first_query = be16 (code cmd_sys_stat) ++ be16 0;
  query = be16 (code cmd_sys_stat) ++ be16 0;
}

-- MW_SOCK_TCP_EST, and `d.cmd->data[0]`. `d.monitor_ch` has four bits.
abbrev pub sock_target : ℕ → Target
sock_target ch = record {
  ready_stat = 2;
  first_query = be16 (code cmd_sock_stat) ++ (be16 1 ++ (ch ∷ []));
  query = be16 (code cmd_sock_stat) ++ (be16 1 ++ (ch % 2 ^ 4 ∷ []));
}

-- The fields of `d` that the callbacks use. `tout_frames` is the bit pattern of an `int16_t`, `posted` is what `loop_post` was called with, 1 or -1, and
-- `queries` and `receptions` count the calls of `mw_cmd_send` and `mw_cmd_recv`.
pub record Poll : Type 0 where
  pub tout_frames : ℕ
  pub stat_poll : Bool
  pub timer_on : Bool
  pub posted : Option Bool
  pub queries : List (List ℕ)
  pub receptions : ℕ

-- The timer runs out, or a reception ends: whether without an error, on which channel, and the status
-- that then stands in the command buffer.
pub data Event : Type 0 where
  tick : Event
  reply : Bool → ℕ → ℕ → Event

-- `assoc_poll_timer_cb` and `sock_poll_timer_cb`, but for the reception at their end.
unfoldable pub poll_timer_cb : Poll → Poll
poll_timer_cb d =
    let left : ℕ = (d.tout_frames + 2 ^ 16 - stat_poll_tout) % 2 ^ 16 in
    if d.tout_frames == 0
    then record d { receptions = d.receptions + 1 }
    else if left == 0 || leb (2 ^ 15) left
    then record d { tout_frames = left; stat_poll = false; timer_on = false; posted = some false }
    else record d { tout_frames = left; receptions = d.receptions + 1 }

-- `stat_reply_cb` and `sock_stat_reply_cb`.
unfoldable pub stat_reply_cb : Target → Bool → ℕ → ℕ → Poll → Poll
stat_reply_cb target complete ch stat d =
    if complete && (ch == mw_ctrl_ch && (d.stat_poll && leb target.ready_stat stat))
    then record d { timer_on = false; stat_poll = false; posted = some true }
    else record d { queries = target.query ∷ d.queries }

unfoldable pub step : Target → Event → Poll → Poll
step target tick d = poll_timer_cb d
step target (reply complete ch stat) d = stat_reply_cb target complete ch stat d

-- What is set before `loop_pend`.
unfoldable pub start_poll : Target → ℕ → Poll
start_poll target tout_frames = record {
  tout_frames = tout_frames % 2 ^ 16;
  stat_poll = true;
  timer_on = true;
  posted = none;
  queries = target.first_query ∷ [];
  receptions = 0;
}

-- The events until `loop_pend` returns, which it does with the first value posted; `none` if the wait
-- goes on.
unfoldable pub wait_posted : Target → List Event → Poll → Option Bool
wait_posted target [] d = d.posted
wait_posted target (e ∷ es) d = elim d.posted [
  | none ↦ wait_posted target es (step target e d)
  | some v ↦ some v
]

-- `ret < 0 ? MW_ERR_NOT_READY : MW_ERR_NONE`.
abbrev pub wait_verdict : Option Bool → Option ℕ
wait_verdict none = none
wait_verdict (some true) = some mw_err_none
wait_verdict (some false) = some err_not_ready

unfoldable pub wait_result : Target → ℕ → List Event → Option ℕ
wait_result target tout_frames events =
    wait_verdict (wait_posted target events (start_poll target tout_frames))

unfoldable pub mw_ap_assoc_wait : ℕ → List Event → Option ℕ
mw_ap_assoc_wait = wait_result assoc_target

unfoldable pub mw_sock_conn_wait : ℕ → ℕ → List Event → Option ℕ
mw_sock_conn_wait ch = wait_result (sock_target ch)
