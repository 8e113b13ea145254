-- ===== src/MegaWifi/Waiting.antt =====
-- How long the waits of src/mw/megawifi.c last: against a count of polls.
use mega_drive_megawifi_appl.Base.{
  ℕ, suc, ◌+◌, ◌-◌, ◌/◌, ◌≤◌, ◌<◌, ◌≡◌, refl, ◌∙◌, Bool, true, false, ◌&&◌, ◌||◌, ◌^◌, ◌%◌, Option,
  none, some, List, [], ◌∷◌, leb, ◌==◌, if◌then◌else◌, arith, Bool-cases, inl, inr, ==→eq, sym,
  ne→==, eq→==,
}
use mega_drive_megawifi_appl.AppleMidi.{mw_err_none}
use mega_drive_megawifi_appl.MegaWifi.{err_not_ready}
use mega_drive_megawifi_appl.MegaWifi.Poll.{
  wait_verdict, Target, Poll, Event, tick, reply, step, poll_timer_cb, stat_reply_cb, start_poll,
  wait_posted, wait_result, assoc_target, sock_target, mw_ap_assoc_wait, mw_sock_conn_wait,
}

-- A reply that ends the wait: complete, on the control channel, and far enough.
abbrev pub answers : Target → Bool → ℕ → ℕ → Bool
answers target complete ch stat = complete && (ch == 0 && leb target.ready_stat stat)

-- The wait as it is meant: it ends with the first answer, or with poll number `polls`, counted from 1;
-- for `polls` 0 it only ends with an answer.
unfoldable pub awaited : Target → ℕ → List Event → Option ℕ
awaited target polls [] = none
awaited target polls (tick ∷ es) =
    let more = awaited target (polls - 1) es in if polls == 1 then some err_not_ready else more
awaited target polls (reply complete ch stat ∷ es) =
    let more = awaited target polls es in
    if answers target complete ch stat then some mw_err_none else more

-- A poll every 15 frames.
abbrev pub polls_of : ℕ → ℕ
polls_of tout_frames = (tout_frames + 14) / 15

wait_posted-posted :
    (target : Target) (events : List Event) (d : Poll) (v : Bool)
    → d.posted ≡ some v
    → wait_posted target events d ≡ some v
unfolding wait_posted
wait_posted-posted target [] d v e = e
wait_posted-posted target (ev ∷ es) d v e = rw e refl

-- While the wait goes on.
abbrev waiting : ℕ → Bool → List (List ℕ) → ℕ → Poll
waiting tout_frames timer_on queries receptions = record {
  tout_frames = tout_frames;
  stat_poll = true;
  timer_on = timer_on;
  posted = none;
  queries = queries;
  receptions = receptions;
}

-- What is left of a time below 2 ^ 15 frames.
left_after : (tout : ℕ) → 15 < tout → tout < 32768 → (tout + 2 ^ 16 - 15) % 2 ^ 16 ≡ tout - 15
left_after tout lo hi = omega arith

over :
    (tout : ℕ)
    → 0 < tout
    → tout ≤ 15
    → let left : ℕ = (tout + 2 ^ 16 - 15) % 2 ^ 16 in (left == 0 || leb (2 ^ 15) left) ≡ true
over tout lo hi = ground arith

going_on :
    (tout : ℕ) → 15 < tout → tout < 32768 → (tout - 15 == 0 || leb (2 ^ 15) (tout - 15)) ≡ false
going_on tout lo hi = ground arith

wait_posted-awaited :
    (target : Target) (events : List Event) (tout_frames : ℕ) (on : Bool) (queries : List (List ℕ))
    (n : ℕ)
    → tout_frames < 32768
    → wait_verdict (wait_posted target events (waiting tout_frames on queries n))
      ≡ awaited target (polls_of tout_frames) events
unfolding wait_posted awaited step poll_timer_cb stat_reply_cb
wait_posted-awaited target [] tout on qs n b = refl
wait_posted-awaited target (tick ∷ es) tout on qs n b = elim (Bool-cases (tout == 0)) [
  | inl z ↦
      let never : polls_of tout - 1 ≡ polls_of tout = omega (arith, ==→eq tout 0 z) in
      rw (z, ne→== (polls_of tout) 1 (λ h. omega (arith, ==→eq tout 0 z)), never)
        (wait_posted-awaited target es tout on qs (n + 1) b)
  | inr f ↦ elim (Bool-cases (leb tout 15)) [
    | inl t ↦
        rw
          (
            f,
            over tout (ground arith) (ground arith),
            eq→== (polls_of tout) 1 (ground arith),
            wait_posted-posted target es
                (record (waiting ((tout + 2 ^ 16 - 15) % 2 ^ 16) false qs n) {
                  stat_poll = false;
                  posted = some false;
                })
                false refl,
          )
          refl
    | inr g ↦
        let fewer : polls_of (tout - 15) ≡ polls_of tout - 1 = ground arith in
        let many : 15 < tout = ground arith in
        rw
          (
            f,
            left_after tout many b,
            going_on tout many b,
            ne→== (polls_of tout) 1 (λ h. omega arith),
            sym fewer,
          )
          (wait_posted-awaited target es (tout - 15) on qs (n + 1) (omega arith))
  ]
]
wait_posted-awaited target (reply complete ch stat ∷ es) tout on qs n b =
    elim (Bool-cases (answers target complete ch stat)) [
      | inl t ↦
          rw
            (
              t,
              wait_posted-posted target es
                  (record (waiting tout false qs n) { stat_poll = false; posted = some true }) true
                  refl,
            )
            refl
      | inr f ↦ rw f (wait_posted-awaited target es tout on (target.query ∷ qs) n b)
    ]

-- The waits end as they are meant to: with MW_ERR_NONE at the first complete reply on the control
-- channel whose status is far enough, or with MW_ERR_NOT_READY at the poll, one every 15 frames, at
-- which the given time, below 32768 frames, is over; for a time of 0 there is no such poll.
pub wait_refines :
    (ch tout_frames : ℕ) (events : List Event)
    → tout_frames < 32768
    → (mw_ap_assoc_wait tout_frames events ≡ awaited assoc_target (polls_of tout_frames) events)
      × (mw_sock_conn_wait ch tout_frames events
          ≡ awaited (sock_target ch) (polls_of tout_frames) events)
unfolding mw_ap_assoc_wait mw_sock_conn_wait wait_result start_poll
wait_refines ch tout events b =
    let whole : tout % 2 ^ 16 ≡ tout = omega arith in
    (
      rw whole
          (wait_posted-awaited assoc_target events tout true (assoc_target.first_query ∷ []) 0 b),
      rw whole (
          wait_posted-awaited (sock_target ch) events tout true ((sock_target ch).first_query ∷ [])
            0 b),
    )

-- The number of polls among the events.
abbrev pub ticks : List Event → ℕ
ticks [] = 0
ticks (tick ∷ es) = suc (ticks es)
ticks (reply complete ch stat ∷ es) = ticks es

awaited_ends :
    (target : Target) (events : List Event) (polls : ℕ)
    → 0 < polls
    → polls ≤ ticks events
    → (v : ℕ) × (awaited target polls events ≡ some v)
unfolding awaited
awaited_ends target [] polls lo hi = absurd (omega arith)
awaited_ends target (tick ∷ es) polls lo hi = elim (Bool-cases (polls == 1)) [
  | inl t ↦ (err_not_ready, rw t refl)
  | inr f ↦
      let (v, e) = awaited_ends target es (polls - 1) (ground arith) (omega arith) in (v, rw f e)
]
awaited_ends target (reply complete ch stat ∷ es) polls lo hi =
    elim (Bool-cases (answers target complete ch stat)) [
      | inl t ↦ (mw_err_none, rw t refl)
      | inr f ↦ let (v, e) = awaited_ends target es polls lo hi in (v, rw f e)
    ]

-- A wait with a time limit below 32768 frames comes to an end, whatever is received and in whatever order, as soon as the
-- timer has run out once for each 15 frames of the limit.
pub wait_ends :
    (ch tout_frames : ℕ) (events : List Event)
    → 0 < tout_frames
    → tout_frames < 32768
    → polls_of tout_frames ≤ ticks events
    → ((v : ℕ) × (mw_ap_assoc_wait tout_frames events ≡ some v))
      × ((v : ℕ) × (mw_sock_conn_wait ch tout_frames events ≡ some v))
wait_ends ch tout events lo b hi =
    let (assoc, sock) = wait_refines ch tout events b in
    let (v, e) = awaited_ends assoc_target events (polls_of tout) (omega arith) hi in
    let (v', e') = awaited_ends (sock_target ch) events (polls_of tout) (omega arith) hi in
    ((v, assoc ∙ e), (v', sock ∙ e'))
