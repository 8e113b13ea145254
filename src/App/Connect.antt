-- ===== src/App/Connect.antt =====
-- The calls that src/main.c makes before its endless loop, in order.
use Prim.Native.String.{String}
use mega_drive_megawifi_appl.Base.{
  ℕ, ◌≡◌, refl, sym, true, false, List, [], ◌∷◌, ◌++◌, ◌==◌, if◌then◌else◌, done, ◌>>=◌, Bool-cases,
  inl, inr,
}
use mega_drive_megawifi_appl.Machine.{Machine, draw}
use mega_drive_megawifi_appl.Driver.{Driver}
use mega_drive_megawifi_appl.App.{
  Api, Step, ask, checked, as_is, and_then, associate_ap, open_udp_socket, wait_for_socket_open,
  display_ip_addr, connect, serve, udp_test,
}

-- Calls made one after the other up to the first that fails, and its error.
abbrev pub first_error : {S : Type 0} → List (S → ℕ × S) → S → ℕ × S
first_error [] s = (0, s)
first_error (call ∷ calls) s =
    let (err, s') = call s in if err == 0 then first_error calls s' else (err, s')

-- What the connection takes, with the arguments in full.
abbrev pub session : {S : Type 0} → Api S → List (S → ℕ × S)
session api =
    api.ap_assoc 0
    ∷ api.ap_assoc_wait 1800
    ∷ (λ s. let (err, ip, s') = api.ip_current s in (err, s'))
    ∷ api.udp_set 1 "127.0.0.1" "5004" "5006"
    ∷ api.udp_set 2 "127.0.0.1" "5005" "5007"
    ∷ api.sock_conn_wait 1 3600
    ∷ api.sock_conn_wait 2 3600
    ∷ []

-- A step that makes these calls, whatever it draws.
record Makes {S : Type 0} (p : Step S) (calls : List (S → ℕ × S)) (m : Machine S) : Type 0 where
  code : (p m).0 ≡ (first_error calls m.driver).0
  state : (p m).1.driver ≡ (first_error calls m.driver).1

first_error-append :
    {S : Type 0} (before after : List (S → ℕ × S)) (s : S)
    → first_error (before ++ after) s ≡ (
        if (first_error before s).0 == 0
        then first_error after ((first_error before s).1)
        else first_error before s)
first_error-append [] after s = refl
first_error-append (call ∷ before) after s = elim (Bool-cases ((call s).0 == 0)) [
  | inl t ↦ rw t (first_error-append before after ((call s).1))
  | inr f ↦ rw (f, f) refl
]

and_then-Makes :
    {S : Type 0} (p q : Step S) (before after : List (S → ℕ × S)) (m : Machine S)
    → Makes p before m
    → Makes q after ((p m).1)
    → Makes (and_then p q) (before ++ after) m
and_then-Makes p q before after m h k = elim (Bool-cases ((p m).0 == 0)) [
  | inl t ↦
      let t' = rw h.code at t in
      let all = first_error-append before after m.driver in
      record {
        code = rw (t, all, t', sym h.state) k.code;
        state = rw (t, all, t', sym h.state) k.state;
      }
  | inr f ↦
      let f' = rw h.code at f in
      let all = first_error-append before after m.driver in
      record { code = rw (f, all, f') h.code; state = rw (f, all, f') h.state }
]

ask-Makes :
    {S : Type 0} (failing going : Machine S → Machine S) (call : S → ℕ × S) (m : Machine S)
    → ((n : Machine S) → (failing n).driver ≡ n.driver)
    → ((n : Machine S) → (going n).driver ≡ n.driver)
    → Makes (checked failing going (ask call)) (call ∷ []) m
ask-Makes failing going call m keeps kept = elim (Bool-cases ((call m.driver).0 == 0)) [
  | inl t ↦ record { code = rw t refl; state = rw t (kept _) }
  | inr f ↦ record { code = rw f refl; state = rw f (keeps _) }
]

display-Makes :
    {S : Type 0} (api : Api S) (m : Machine S)
    → Makes (display_ip_addr api) ((λ s. let (err, ip, s') = api.ip_current s in (err, s')) ∷ []) m
unfolding display_ip_addr
display-Makes api m = elim (Bool-cases ((api.ip_current m.driver).0 == 0)) [
  | inl t ↦ record { code = rw t refl; state = rw t refl }
  | inr f ↦ record { code = rw f refl; state = rw f refl }
]

associate-Makes :
    {S : Type 0} (api : Api S) (m : Machine S)
    → Makes (associate_ap api) (api.ap_assoc 0 ∷ api.ap_assoc_wait 1800 ∷ []) m
unfolding associate_ap
associate-Makes {S} api m =
    let m' : Machine S = draw "Associating to AP..." [] 1 1 m in
    let both : Makes
        (and_then (checked as_is as_is (ask (api.ap_assoc 0)))
          (checked as_is (draw "Done!" [] 22 1) (ask (api.ap_assoc_wait 1800))))
        (api.ap_assoc 0 ∷ api.ap_assoc_wait 1800 ∷ []) m' =
      and_then-Makes (checked as_is as_is (ask (api.ap_assoc 0)))
        (checked as_is (draw "Done!" [] 22 1) (ask (api.ap_assoc_wait 1800))) (api.ap_assoc 0 ∷ [])
        (api.ap_assoc_wait 1800 ∷ []) m'
        (ask-Makes as_is as_is (api.ap_assoc 0) m' (λ n. refl) (λ n. refl))
        (ask-Makes as_is (draw "Done!" [] 22 1) (api.ap_assoc_wait 1800) _ (λ n. refl)
          (λ n. refl)) in
    record { code = both.code; state = both.state }

socket-Makes :
    {S : Type 0} (api : Api S) (ch : ℕ) (dst src : String) (m : Machine S)
    → Makes (open_udp_socket api ch dst src) (api.udp_set ch "127.0.0.1" dst src ∷ []) m
unfolding open_udp_socket
socket-Makes api ch dst src m =
    ask-Makes (draw "UDP bind error" [] 1 2) as_is (api.udp_set ch "127.0.0.1" dst src) m
      (λ n. refl) (λ n. refl)

wait-Makes :
    {S : Type 0} (api : Api S) (ch : ℕ) (m : Machine S)
    → Makes (wait_for_socket_open api ch) (api.sock_conn_wait ch 3600 ∷ []) m
unfolding wait_for_socket_open
wait-Makes api ch m =
    ask-Makes (draw "Failed to receive data" [] 1 3) (draw "Socket open" [] 15 2)
      (api.sock_conn_wait ch 3600) m (λ n. refl) (λ n. refl)

connect-Makes : {S : Type 0} (api : Api S) (m : Machine S) → Makes (connect api) (session api) m
unfolding connect
connect-Makes api m = and_then-Makes (associate_ap api) _ _ _ m (associate-Makes api m) (
    and_then-Makes (display_ip_addr api) _ _ _ _ (display-Makes api _) (
      and_then-Makes (open_udp_socket api 1 "5004" "5006") _ _ _ _ (socket-Makes api 1 _ _ _) (
        and_then-Makes (open_udp_socket api 2 "5005" "5007") _ _ _ _ (socket-Makes api 2 _ _ _) (
          and_then-Makes (wait_for_socket_open api 1) (wait_for_socket_open api 2) _ _ _
            (wait-Makes api 1 _) (wait-Makes api 2 _)))))

-- `udp_test` associates, waits for that, asks for the address, opens both sockets and waits for each, in
-- this order and up to the first call that fails. If none fails it goes on to its loop, here for `n`
-- rounds; else it prints the code of that call's error, makes no further call and has its timer deleted.
pub udp_test-connect :
    {S : Type 0} (api : Api S) (driver : Driver S) (n : ℕ) (m : Machine S)
    → let (err, s) = first_error (session api) m.driver in
      (m' : Machine S) × (udp_test api driver n m ≡ (
        if err == 0
        then (serve api driver n m' >>= λ e. done (false, e))
        else done (true, draw "Error: %d" (err ∷ []) 1 5 m')))
      × (m'.driver ≡ s)
unfolding udp_test
udp_test-connect api driver n m =
    let x = connect-Makes api m in ((connect api m).1, rw (sym x.code) refl, x.state)
