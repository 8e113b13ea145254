-- ===== src/Examples/AppRuns.antt =====
-- src/main.c with a network whose second socket cannot be opened.
use Prim.Native.String.{String}
use mega_drive_megawifi_appl.Base.{◌≡◌, true, List, [], ◌∷◌, ◌==◌, if◌then◌else◌, done}
use mega_drive_megawifi_appl.Machine.{Machine, draw}
use mega_drive_megawifi_appl.Driver.{Driver}
use mega_drive_megawifi_appl.App.{Api, udp_test}
use mega_drive_megawifi_appl.App.Connect.{udp_test-connect}

-- The calls made, the latest first.
abbrev network : Api (List String)
network = record {
  detect = λ s. (0, (1, 5), s);
  ap_assoc = λ slot s. (0, "assoc" ∷ s);
  ap_assoc_wait = λ tout s. (0, "assoc_wait" ∷ s);
  ip_current = λ s. (0, (192, 168, 1, 21), "ip" ∷ s);
  udp_set = λ ch addr dst src s. (if ch == 2 then (1, dst ∷ s) else (0, dst ∷ s));
  sock_conn_wait = λ ch tout s. (0, "wait" ∷ s);
}

abbrev no_data : Driver (List String)
no_data = record {
  send_sync = λ ch bytes len s. (0, s);
  recv_sync = λ size tout s. (0, record { ch = 5; buffer = []; len = 0 }, s);
}

abbrev switched_on : Machine (List String)
switched_on = record { y = 4; timestamp_sync_count = 0; screen = []; driver = [] }

udp_test-connect_example :
    (m : Machine (List String)) × (udp_test network no_data 3 switched_on
      ≡ done (true, draw "Error: %d" (1 ∷ []) 1 5 m))
    × (m.driver ≡ "5005" ∷ "5004" ∷ "ip" ∷ "assoc_wait" ∷ "assoc" ∷ [])
udp_test-connect_example = udp_test-connect network no_data 3 switched_on
