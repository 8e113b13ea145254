-- ===== src/App.antt =====
-- src/main.c: the application's way from the start to its sockets, over the calls of the MegaWiFi API
-- that it makes. `S` is the state of the driver and the network.
pub mod Connect
pub mod Start
use Prim.Native.String.{String}
use mega_drive_megawifi_appl.Base.{
  ℕ, zero, suc, ◌+◌, ◌*◌, Bool, true, false, List, [], ◌∷◌, ◌==◌, if◌then◌else◌, Outcome, done,
  ◌>>=◌,
}
use mega_drive_megawifi_appl.AppleMidi.{mw_err_none, ch_control_port, ch_midi_port}
use mega_drive_megawifi_appl.Machine.{Machine, draw}
use mega_drive_megawifi_appl.Driver.{Driver}
use mega_drive_megawifi_appl.Mediator.{mediator_receive}
use mega_drive_megawifi_appl.MegaWifi.{ms_to_frames}
use mega_drive_megawifi_appl.Util.{uint32_to_ip_str}

-- Error codes come first; `detect` gives the version and `ip_current` the bytes of the address.
pub record Api (S : Type 0) : Type 0 where
  pub detect : S → ℕ × (ℕ × ℕ) × S
  pub ap_assoc : ℕ → S → ℕ × S
  pub ap_assoc_wait : ℕ → S → ℕ × S
  pub ip_current : S → ℕ × (ℕ × ℕ × ℕ × ℕ) × S
  pub udp_set : ℕ → String → String → String → S → ℕ × S
  pub sock_conn_wait : ℕ → ℕ → S → ℕ × S

abbrev pub associate_tout : ℕ
associate_tout = ms_to_frames 30000

abbrev pub Step : Type 0 → Type 0
Step S = Machine S → ℕ × Machine S

module _ {S : Type 0} where
  abbrev pub ask : (S → ℕ × S) → Step S
  ask call m = let (err, s) = call m.driver in (err, record m { driver = s })

  -- `if (err != MW_ERR_NONE) { … return err; }`, with what is drawn before the return or else.
  abbrev pub checked : (Machine S → Machine S) → (Machine S → Machine S) → Step S → Step S
  checked failing going step m =
      let (err, m') = step m in
      if err == mw_err_none then (mw_err_none, going m') else (err, failing m')

  abbrev pub as_is : Machine S → Machine S
  as_is m = m

  -- A step, and where it succeeds the next.
  abbrev pub and_then : Step S → Step S → Step S
  and_then p q m = let (err, m') = p m in if err == mw_err_none then q m' else (err, m')

  abbrev pub print_error : ℕ → Machine S → Machine S
  print_error err = draw "Error: %d" (err ∷ []) 1 5

module _ {S : Type 0} (api : Api S) where
  unfoldable pub associate_ap : Step S
  associate_ap m =
      and_then (checked as_is as_is (ask (api.ap_assoc 0)))
        (checked as_is (draw "Done!" [] 22 1) (ask (api.ap_assoc_wait associate_tout)))
        (draw "Associating to AP..." [] 1 1 m)

  unfoldable pub open_udp_socket : ℕ → String → String → Step S
  open_udp_socket ch dst_port src_port =
      checked (draw "UDP bind error" [] 1 2) as_is
        (ask (api.udp_set ch "127.0.0.1" dst_port src_port))

  unfoldable pub wait_for_socket_open : ℕ → Step S
  wait_for_socket_open ch =
      checked (draw "Failed to receive data" [] 1 3) (draw "Socket open" [] 15 2)
        (ask (api.sock_conn_wait ch (60 * 60)))

  unfoldable pub display_ip_addr : Step S
  display_ip_addr m =
      let (err, (a, b, c, d), s) = api.ip_current m.driver in
      let m' : Machine S = record m { driver = s } in
      if err == mw_err_none
      then (mw_err_none, draw "%s" (uint32_to_ip_str a b c d) 1 2 m')
      else (err, draw "ERROR GETTING IP" [] 1 2 m')

  -- `udp_test` up to its endless loop.
  unfoldable pub connect : Step S
  connect = and_then associate_ap (
      and_then display_ip_addr (
        and_then (open_udp_socket ch_control_port "5004" "5006") (
          and_then (open_udp_socket ch_midi_port "5005" "5007")
            (and_then (wait_for_socket_open ch_control_port) (wait_for_socket_open ch_midi_port)))))

  -- Whether the module was found, after which the timer goes on with `udp_test`, a frame later.
  unfoldable pub megawifi_init_cb : Machine S → Bool × Machine S
  megawifi_init_cb m =
      let (err, (major, minor), s) = api.detect m.driver in
      let m' : Machine S = record m { driver = s } in
      if err == mw_err_none
      then (true, draw "MegaWiFi version %c.%c" ((major + 48) ∷ (minor + 48) ∷ []) 1 0 m')
      else (false, draw "MegaWiFi not found!" [] 1 0 m')

module _ {S : Type 0} (api : Api S) (driver : Driver S) where
  -- Rounds of the endless loop.
  unfoldable pub serve : ℕ → Machine S → Outcome (Machine S)
  serve zero m = done m
  serve (suc n) m = mediator_receive driver m >>= λ r.
      serve n (if r.0 == mw_err_none then r.1 else print_error (r.0) (r.1))

  -- So many rounds of the loop, if it is reached; whether the timer is deleted.
  unfoldable pub udp_test : ℕ → Machine S → Outcome (Bool × Machine S)
  udp_test n m =
      let (err, m') = connect api m in
      if err == mw_err_none
      then (serve n m' >>= λ e. done (false, e))
      else done (true, print_error err m')
