-- ===== src/Examples/ApiRuns.antt =====
-- src/mw/megawifi.c with a module that answers, is silent or sends data of its own.
use mega_drive_megawifi_appl.Base.{
  ℕ, ◌≡◌, refl, true, false, none, some, List, [], ◌∷◌, replicate, done, arith,
}
use mega_drive_megawifi_appl.Lsd.{Lsd, lsd_init, lsd_ch_enable}
use mega_drive_megawifi_appl.MegaWifi.{Mw, Post, posted_ok, posted_timeout}
use mega_drive_megawifi_appl.MegaWifi.Exchange.{answered, sent_of}
use mega_drive_megawifi_appl.MegaWifi.Requests
use mega_drive_megawifi_appl.MegaWifi.Requests.{Request, perform, perform_refused, wire_data}
use mega_drive_megawifi_appl.MegaWifi.Verdicts.{Replied, perform_lem}
use mega_drive_megawifi_appl.MegaWifi.Channels
use mega_drive_megawifi_appl.MegaWifi.Channels.{ask, ask-channel, asked_data, agreed}
use mega_drive_megawifi_appl.MegaWifi.Queries.{
  hashed, echoed, mw_http_cert_query_lem, mw_echo_inverted,
}
use mega_drive_megawifi_appl.MegaWifi.Http.{mw_http_cert_query}
use mega_drive_megawifi_appl.MegaWifi.Names.{AccessPoint, walk, mw_ap_fill_next-walk}
use mega_drive_megawifi_appl.MegaWifi.Setup.{mw_echo, mw_detect}
use mega_drive_megawifi_appl.MegaWifi.Detection.{mw_detect-Found, found, question}
use mega_drive_megawifi_appl.MegaWifi.Poll.{tick, reply, mw_ap_assoc_wait, mw_sock_conn_wait}
use mega_drive_megawifi_appl.MegaWifi.Waiting.{wait_refines, wait_ends, awaited}

-- Five bytes of network data on channel 2.
abbrev network_data : Post
network_data = record { stat = posted_ok; ch = 2; bytes = 1 ∷ 2 ∷ 3 ∷ 4 ∷ 5 ∷ [] }

-- MW_CMD_OK with four bytes of data.
abbrev ok_reply : List ℕ
ok_reply = 0 ∷ 0 ∷ 0 ∷ 4 ∷ 1 ∷ 2 ∷ 3 ∷ 4 ∷ []

abbrev reply_post : Post
reply_post = record { stat = posted_ok; ch = 0; bytes = ok_reply }

abbrev silence : Post
silence = record { stat = posted_timeout; ch = 0; bytes = [] }

-- The link as `mw_init` leaves it, with the control channel enabled.
abbrev open_link : Lsd
open_link = (lsd_ch_enable 0 lsd_init).1

abbrev ready_with : ℕ → List Post → Mw
ready_with buf_len posts = record {
  cmd = replicate 1024 0;
  buf_len = buf_len;
  mw_ready = true;
  cmd_data_cb = true;
  lsd = open_link;
  posts = posts;
  calls = [];
}

-- Network data, then the reply, then more data.
abbrev answered_state : Mw
answered_state = ready_with 1024 (network_data ∷ reply_post ∷ network_data ∷ [])

abbrev answer : Replied (answered_state.posts) 0 ok_reply (network_data ∷ [])
answer = record {
  others = network_data ∷ [];
  final = reply_post;
  passing = ((record { complete = refl; other_ch = λ e. absurd (omega arith) }, omega arith), tt);
  decides = answered 0 0 (0 ∷ 4 ∷ 1 ∷ 2 ∷ 3 ∷ 4 ∷ []) refl refl refl;
  small = omega arith;
  bytes = refl;
  order = refl;
}

perform_lem_example :
    (d' : Mw) × (perform (Requests.flash_write 0x10000 (7 ∷ 8 ∷ [])) answered_state ≡ done (0, d'))
    × (sent_of d'.calls ≡ (0, 0 ∷ 26 ∷ 0 ∷ 6 ∷ 0 ∷ 1 ∷ 0 ∷ 0 ∷ 7 ∷ 8 ∷ []) ∷ [])
    × (d'.posts ≡ network_data ∷ [])
unfolding lsd_init lsd_ch_enable
perform_lem_example =
    perform_lem (Requests.flash_write 0x10000 (7 ∷ 8 ∷ [])) 0 ok_reply (network_data ∷ [])
      answered_state refl refl
      (record {
        fits = omega arith;
        open_link = record { idle = refl; control = refl; short = omega arith };
        reply_fits = omega arith;
      })
      answer

ask-channel_example :
    (d' : Mw) × (ask (Channels.bind 2 5004) answered_state ≡ done (0, d'))
    × (sent_of d'.calls ≡ (0, 0 ∷ 15 ∷ 0 ∷ 7 ∷ 0 ∷ 0 ∷ 0 ∷ 0 ∷ 19 ∷ 140 ∷ 2 ∷ []) ∷ [])
    × (d'.lsd ≡ record open_link { ch_enable = true ∷ false ∷ true ∷ false ∷ [] })
unfolding lsd_init lsd_ch_enable
ask-channel_example =
    ask-channel (Channels.bind 2 5004) 0 ok_reply (network_data ∷ []) answered_state refl
      (record {
        fits = omega arith;
        open_link = record { idle = refl; control = refl; short = omega arith };
        reply_fits = omega arith;
      })
      answer

mw_http_cert_query_lem_example :
    (d' : Mw) × (mw_http_cert_query answered_state ≡ done (0x01020304, d'))
    × (sent_of d'.calls ≡ (0, 0 ∷ 41 ∷ 0 ∷ 0 ∷ []) ∷ [])
unfolding lsd_init lsd_ch_enable
mw_http_cert_query_lem_example =
    mw_http_cert_query_lem 0 ok_reply 0x01020304 (network_data ∷ []) answered_state refl
      (record {
        fits = omega arith;
        open_link = record { idle = refl; control = refl; short = omega arith };
        reply_fits = omega arith;
      })
      answer (hashed 0 0 0 4 1 2 3 4 [])

abbrev two_points : List AccessPoint
two_points =
    record { auth = 3; channel = 6; rssi = 200; ssid = 65 ∷ 66 ∷ [] }
    ∷ record { auth = 0; channel = 11; rssi = 180; ssid = [] }
    ∷ []

mw_ap_fill_next-walk_example :
    walk 3 (3 ∷ 6 ∷ 200 ∷ 2 ∷ 65 ∷ 66 ∷ 0 ∷ 11 ∷ 180 ∷ 0 ∷ []) 0 10
    ≡ done (
        record { auth = 3; channel = 6; rssi = 200; ssid_len = 2; ssid = 4 }
        ∷ record { auth = 0; channel = 11; rssi = 180; ssid_len = 0; ssid = 10 }
        ∷ [])
mw_ap_fill_next-walk_example = mw_ap_fill_next-walk two_points (omega arith, (omega arith, tt))

-- In a buffer of 1024 bytes, 1018 bytes of data are long enough to be sent and three are not.
abbrev long_data : List ℕ
long_data = replicate 1018 7

mw_echo_inverted_example :
    let d : Mw = answered_state in
    (mw_echo (1 ∷ 2 ∷ 3 ∷ []) d ≡ done (none, d))
    × ((d' : Mw) × (mw_echo long_data d ≡ done (some (4, 4), d'))
        × (sent_of d'.calls ≡ (0, 0 ∷ 2 ∷ 3 ∷ 250 ∷ long_data) ∷ []))
unfolding lsd_init lsd_ch_enable
mw_echo_inverted_example =
    mw_echo_inverted (1 ∷ 2 ∷ 3 ∷ []) long_data 0 ok_reply (some (4, 4)) (network_data ∷ [])
      answered_state refl refl (omega arith) (omega arith)
      (record {
        fits = omega arith;
        open_link = record { idle = refl; control = refl; short = omega arith };
        reply_fits = omega arith;
      })
      answer (echoed 0 0 0 4 (1 ∷ 2 ∷ 3 ∷ 4 ∷ []))

-- The module refuses the first question and answers the second.
abbrev refusal : Post
refusal = record { stat = posted_ok; ch = 0; bytes = 0 ∷ 9 ∷ 0 ∷ 0 ∷ [] }

abbrev slow_module : Mw
slow_module = ready_with 1024 (silence ∷ silence ∷ refusal ∷ answered_state.posts)

mw_detect-Found_example :
    (d' : Mw) × (mw_detect slow_module ≡ done ((0, 1 ∷ 2 ∷ 3 ∷ [], some 7), d'))
    × (sent_of d'.calls ≡ question ∷ question ∷ [])
    × (d'.posts ≡ network_data ∷ [])
unfolding lsd_init lsd_ch_enable
mw_detect-Found_example =
    mw_detect-Found silence silence (refusal ∷ []) 0 ok_reply (0, 1 ∷ 2 ∷ 3 ∷ [], some 7)
      (network_data ∷ []) (answered_state.posts) slow_module
      (found 1 0 0 0 4 1 2 3 (4 ∷ []) (omega arith)) (omega arith) refl
      (record {
        fits = omega arith;
        open_link = record { idle = refl; control = refl; short = omega arith };
        reply_fits = omega arith;
      })
      ((6, answered 0 9 (0 ∷ 0 ∷ []) refl refl refl, (λ e. absurd (omega arith)), omega arith), tt)
      refl answer

-- Five bytes in a buffer of two: the second piece fails.
abbrev short_buffer : Mw
short_buffer = ready_with 2 (reply_post ∷ silence ∷ reply_post ∷ [])

-- Associated at the second poll of a wait of 30 frames, or not.
wait_refines_example :
    (mw_ap_assoc_wait 30 (reply true 0 3 ∷ tick ∷ reply true 0 4 ∷ []) ≡ some 0)
    × (mw_sock_conn_wait 2 30 (reply true 0 3 ∷ tick ∷ reply true 0 4 ∷ []) ≡ some 0)
unfolding awaited
wait_refines_example = wait_refines 2 30 (reply true 0 3 ∷ tick ∷ reply true 0 4 ∷ []) (omega arith)

wait_ends_example :
    ((v : ℕ) × (mw_ap_assoc_wait 30 (tick ∷ reply false 0 9 ∷ tick ∷ []) ≡ some v))
    × ((v : ℕ) × (mw_sock_conn_wait 2 30 (tick ∷ reply false 0 9 ∷ tick ∷ []) ≡ some v))
wait_ends_example =
    wait_ends 2 30 (tick ∷ reply false 0 9 ∷ tick ∷ []) (omega arith) (omega arith) (omega arith)
