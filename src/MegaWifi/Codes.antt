-- ===== src/MegaWifi/Codes.antt =====
-- The command codes of src/mw/mw-msg.h.
use mega_drive_megawifi_appl.Base.{ℕ}

pub data MwCommand : Type 0 where
  cmd_ok cmd_version cmd_echo cmd_ap_scan cmd_ap_cfg cmd_ap_cfg_get cmd_ip_current cmd_ip_cfg
        cmd_ip_cfg_get cmd_def_ap_cfg cmd_def_ap_cfg_get cmd_ap_join cmd_ap_leave cmd_tcp_con
        cmd_tcp_bind cmd_close cmd_udp_set cmd_sock_stat cmd_ping cmd_sntp_cfg cmd_sntp_cfg_get
        cmd_datetime cmd_dt_set cmd_flash_write cmd_flash_read cmd_flash_erase cmd_flash_id
        cmd_sys_stat cmd_def_cfg_set cmd_hrng_get cmd_bssid_get cmd_gamertag_set cmd_gamertag_get
        cmd_log cmd_factory_reset cmd_sleep cmd_http_url_set cmd_http_method_set cmd_http_cert_query
        cmd_http_cert_set cmd_http_hdr_add cmd_http_hdr_del cmd_http_open cmd_http_finish
        cmd_http_cleanup cmd_server_url_get cmd_server_url_set cmd_wifi_adv_get cmd_wifi_adv_set
        cmd_nv_cfg_save cmd_upgrade_list cmd_upgrade_perform cmd_game_endpoint_set
        cmd_game_keyval_add cmd_game_request cmd_error :
      MwCommand

abbrev pub code : MwCommand → ℕ
code cmd_ok = 0
code cmd_version = 1
code cmd_echo = 2
code cmd_ap_scan = 3
code cmd_ap_cfg = 4
code cmd_ap_cfg_get = 5
code cmd_ip_current = 6
code cmd_ip_cfg = 8
code cmd_ip_cfg_get = 9
code cmd_def_ap_cfg = 10
code cmd_def_ap_cfg_get = 11
code cmd_ap_join = 12
code cmd_ap_leave = 13
code cmd_tcp_con = 14
code cmd_tcp_bind = 15
code cmd_close = 17
code cmd_udp_set = 18
code cmd_sock_stat = 20
code cmd_ping = 21
code cmd_sntp_cfg = 22
code cmd_sntp_cfg_get = 23
code cmd_datetime = 24
code cmd_dt_set = 25
code cmd_flash_write = 26
code cmd_flash_read = 27
code cmd_flash_erase = 28
code cmd_flash_id = 29
code cmd_sys_stat = 30
code cmd_def_cfg_set = 31
code cmd_hrng_get = 32
code cmd_bssid_get = 33
code cmd_gamertag_set = 34
code cmd_gamertag_get = 35
code cmd_log = 36
code cmd_factory_reset = 37
code cmd_sleep = 38
code cmd_http_url_set = 39
code cmd_http_method_set = 40
code cmd_http_cert_query = 41
code cmd_http_cert_set = 42
code cmd_http_hdr_add = 43
code cmd_http_hdr_del = 44
code cmd_http_open = 45
code cmd_http_finish = 46
code cmd_http_cleanup = 47
code cmd_server_url_get = 49
code cmd_server_url_set = 50
code cmd_wifi_adv_get = 51
code cmd_wifi_adv_set = 52
code cmd_nv_cfg_save = 53
code cmd_upgrade_list = 54
code cmd_upgrade_perform = 55
code cmd_game_endpoint_set = 56
code cmd_game_keyval_add = 57
code cmd_game_request = 58
code cmd_error = 255
