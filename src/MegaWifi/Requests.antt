-- ===== src/MegaWifi/Requests.antt =====
-- The calls of src/mw/megawifi.c that put a question to the module and return its verdict: what each
-- puts on the line, written independently of the code that does it.
use mega_drive_megawifi_appl.Base.{
  ℕ, ◌≡◌, refl, Bool, true, false, ◌&&◌, Option, some, List, [], ◌∷◌, ◌++◌, none, zero, suc, ◌-◌,
  ◌≤◌, ap, length, take, replicate, ltb, if◌then◌else◌, done, arith, gt→leb, ltb→lt,
}
use mega_drive_megawifi_appl.MegaWifi.{Mw, Act, be16, be32, request, err_not_ready, err_param}
use mega_drive_megawifi_appl.MegaWifi.Codes
use mega_drive_megawifi_appl.MegaWifi.Codes.{MwCommand}
use mega_drive_megawifi_appl.MegaWifi.Wireless.{
  mw_default_cfg_set, mw_ap_cfg_set, mw_ip_cfg_set, mw_ap_assoc, mw_ap_disassoc, mw_def_ap_cfg,
  padded,
}
use mega_drive_megawifi_appl.MegaWifi.Services.{
  string_based_cmd, mw_def_server_set, mw_log, mw_sntp_cfg_set, mw_fw_upgrade, servers_text,
}
use mega_drive_megawifi_appl.MegaWifi.Flash.{
  mw_flash_sector_erase, mw_flash_write, mw_gamertag_set, mw_factory_settings, mw_cfg_save,
  mw_wifi_adv_cfg_set,
}
use mega_drive_megawifi_appl.MegaWifi.Http.{
  mw_http_url_set, mw_http_method_set, mw_http_header_add, mw_http_header_del,
}

pub data Request : Type 0 where
  default_cfg ap_disassoc factory_settings cfg_save : Request
  ap_cfg : (slot phy_type : ℕ) (ssid pass : List ℕ) → Request
  ip_cfg : (slot : ℕ) (ip : List ℕ) → Request
  ap_assoc def_ap_cfg : (slot : ℕ) → Request
  sector_erase : (sect : ℕ) → Request
  flash_write : (addr : ℕ) (bytes : List ℕ) → Request
  gamertag : (slot : ℕ) (tag : List ℕ) → Request
  wifi_adv_cfg : (wifi : List ℕ) → Request
  server_url log_msg http_url http_header_del : (char : ℕ) (chars : List ℕ) → Request
  sntp_cfg : (tz_str : List ℕ) (servers : List (Option (List ℕ))) → Request
  fw_upgrade : (name : List ℕ) → Request
  http_method : (method : ℕ) → Request
  http_header : (k : ℕ) (ks : List ℕ) (v : ℕ) (vs : List ℕ) → Request

-- The call of the API that makes the request.
unfoldable pub perform : Request → Act ℕ
perform default_cfg = mw_default_cfg_set
perform ap_disassoc = mw_ap_disassoc
perform factory_settings = mw_factory_settings
perform cfg_save = mw_cfg_save
perform (ap_cfg slot phy_type ssid pass) = mw_ap_cfg_set slot (some ssid) (some pass) phy_type
perform (ip_cfg slot ip) = mw_ip_cfg_set slot ip
perform (ap_assoc slot) = mw_ap_assoc slot
perform (def_ap_cfg slot) = mw_def_ap_cfg slot
perform (sector_erase sect) = mw_flash_sector_erase sect
perform (flash_write addr bytes) = mw_flash_write addr bytes
perform (gamertag slot tag) = mw_gamertag_set slot tag
perform (wifi_adv_cfg wifi) = mw_wifi_adv_cfg_set wifi
perform (server_url c cs) = mw_def_server_set (some (c ∷ cs))
perform (log_msg c cs) = mw_log (some (c ∷ cs))
perform (http_url c cs) = mw_http_url_set (some (c ∷ cs))
perform (http_header_del c cs) = mw_http_header_del (some (c ∷ cs))
perform (sntp_cfg tz_str servers) = mw_sntp_cfg_set tz_str servers
perform (fw_upgrade name) = mw_fw_upgrade name
perform (http_method method) = mw_http_method_set method
perform (http_header k ks v vs) = mw_http_header_add (some (k ∷ ks)) (some (v ∷ vs))

-- The parameters that are refused.
abbrev pub in_range : Request → Bool
in_range (ap_cfg slot phy_type ssid pass) = ltb slot 3
in_range (ip_cfg slot ip) = ltb slot 3
in_range (http_method method) = ltb method 10
in_range _ = true

-- The wire format: the code, the data and how long a reply is awaited, in frames.
abbrev pub wire_code : Request → ℕ
wire_code default_cfg = 31
wire_code ap_disassoc = 13
wire_code factory_settings = 37
wire_code cfg_save = 53
wire_code (ap_cfg slot phy_type ssid pass) = 4
wire_code (ip_cfg slot ip) = 8
wire_code (ap_assoc slot) = 12
wire_code (def_ap_cfg slot) = 10
wire_code (sector_erase sect) = 28
wire_code (flash_write addr bytes) = 26
wire_code (gamertag slot tag) = 34
wire_code (wifi_adv_cfg wifi) = 52
wire_code (server_url c cs) = 50
wire_code (log_msg c cs) = 36
wire_code (http_url c cs) = 39
wire_code (http_header_del c cs) = 44
wire_code (sntp_cfg tz_str servers) = 22
wire_code (fw_upgrade name) = 55
wire_code (http_method method) = 40
wire_code (http_header k ks v vs) = 43

-- A field of fixed size: what fits of a string, and zeros behind it.
abbrev pub field : ℕ → List ℕ → List ℕ
field size str = take size str ++ replicate (size - length str) 0

-- The strings before the first that is missing or empty.
abbrev pub named : List (Option (List ℕ)) → List (List ℕ)
named [] = []
named (none ∷ strs) = []
named (some [] ∷ strs) = []
named (some (c ∷ cs) ∷ strs) = (c ∷ cs) ∷ named strs

-- Each string with its NUL.
abbrev pub terminated : List (List ℕ) → List ℕ
terminated [] = []
terminated (str ∷ strs) = str ++ (0 ∷ terminated strs)

abbrev pub wire_data : Request → List ℕ
wire_data default_cfg = 0xFE ∷ 0xAA ∷ 0x55 ∷ 0x01 ∷ []
wire_data ap_disassoc = []
wire_data factory_settings = []
wire_data cfg_save = []
wire_data (ap_cfg slot phy_type ssid pass) = slot ∷ phy_type ∷ (field 32 ssid ++ field 64 pass)
wire_data (ip_cfg slot ip) = slot ∷ 0 ∷ 0 ∷ 0 ∷ ip
wire_data (ap_assoc slot) = slot ∷ []
wire_data (def_ap_cfg slot) = slot ∷ []
wire_data (sector_erase sect) = be16 sect
wire_data (flash_write addr bytes) = be32 addr ++ bytes
wire_data (gamertag slot tag) = slot ∷ 0 ∷ 0 ∷ 0 ∷ tag
wire_data (wifi_adv_cfg wifi) = wifi
wire_data (server_url c cs) = c ∷ (cs ++ (0 ∷ []))
wire_data (log_msg c cs) = c ∷ (cs ++ (0 ∷ []))
wire_data (http_url c cs) = c ∷ (cs ++ (0 ∷ []))
wire_data (http_header_del c cs) = c ∷ (cs ++ (0 ∷ []))
wire_data (sntp_cfg tz_str servers) =
    tz_str ++ (0 ∷ (terminated (take 3 (named servers)) ++ (0 ∷ [])))
wire_data (fw_upgrade name) = name ++ (0 ∷ [])
wire_data (http_method method) = method ∷ []
wire_data (http_header k ks v vs) = k ∷ (ks ++ (0 ∷ v ∷ (vs ++ (0 ∷ []))))

-- The command that the code uses for it.
pub command_of : Request → MwCommand
command_of default_cfg = Codes.cmd_def_cfg_set
command_of ap_disassoc = Codes.cmd_ap_leave
command_of factory_settings = Codes.cmd_factory_reset
command_of cfg_save = Codes.cmd_nv_cfg_save
command_of (ap_cfg slot phy_type ssid pass) = Codes.cmd_ap_cfg
command_of (ip_cfg slot ip) = Codes.cmd_ip_cfg
command_of (ap_assoc slot) = Codes.cmd_ap_join
command_of (def_ap_cfg slot) = Codes.cmd_def_ap_cfg
command_of (sector_erase sect) = Codes.cmd_flash_erase
command_of (flash_write addr bytes) = Codes.cmd_flash_write
command_of (gamertag slot tag) = Codes.cmd_gamertag_set
command_of (wifi_adv_cfg wifi) = Codes.cmd_wifi_adv_set
command_of (server_url c cs) = Codes.cmd_server_url_set
command_of (log_msg c cs) = Codes.cmd_log
command_of (http_url c cs) = Codes.cmd_http_url_set
command_of (http_header_del c cs) = Codes.cmd_http_hdr_del
command_of (sntp_cfg tz_str servers) = Codes.cmd_sntp_cfg
command_of (fw_upgrade name) = Codes.cmd_upgrade_perform
command_of (http_method method) = Codes.cmd_http_method_set
command_of (http_header k ks v vs) = Codes.cmd_http_hdr_add

pub tout_of : Request → ℕ
tout_of (ap_assoc slot) = 1200
tout_of (fw_upgrade name) = 10800
tout_of _ = 60

pub code-command_of : (r : Request) → Codes.code (command_of r) ≡ wire_code r
unfolding command_of
code-command_of default_cfg = refl
code-command_of ap_disassoc = refl
code-command_of factory_settings = refl
code-command_of cfg_save = refl
code-command_of (ap_cfg slot phy_type ssid pass) = refl
code-command_of (ip_cfg slot ip) = refl
code-command_of (ap_assoc slot) = refl
code-command_of (def_ap_cfg slot) = refl
code-command_of (sector_erase sect) = refl
code-command_of (flash_write addr bytes) = refl
code-command_of (gamertag slot tag) = refl
code-command_of (wifi_adv_cfg wifi) = refl
code-command_of (server_url c cs) = refl
code-command_of (log_msg c cs) = refl
code-command_of (http_url c cs) = refl
code-command_of (http_header_del c cs) = refl
code-command_of (sntp_cfg tz_str servers) = refl
code-command_of (fw_upgrade name) = refl
code-command_of (http_method method) = refl
code-command_of (http_header k ks v vs) = refl

take-zeros : (n m : ℕ) → n ≤ m → take {A = ℕ} n (replicate m 0) ≡ replicate n 0
take-zeros zero m h = refl
take-zeros (suc n) zero h = absurd (omega arith)
take-zeros (suc n) (suc m) h = ap (λ l. 0 ∷ l) (take-zeros n m (omega arith))

take-filled :
    (n m : ℕ) (str : List ℕ)
    → n ≤ m
    → take n (str ++ replicate m 0) ≡ take n str ++ replicate (n - length str) 0
take-filled zero m str h = let none_left : 0 - length str ≡ 0 = omega arith in rw none_left refl
take-filled (suc n) m [] h =
    let all : suc n - 0 ≡ suc n = omega arith in rw all (take-zeros (suc n) m h)
take-filled (suc n) m (c ∷ cs) h =
    let less : suc n - suc (length cs) ≡ n - length cs = omega arith in
    rw less (ap (λ l. c ∷ l) (take-filled n m cs (omega arith)))

padded-field : (size : ℕ) (str : List ℕ) → padded size str ≡ field size str
padded-field size str = take-filled size size str (omega arith)

servers_text-terminated :
    (n : ℕ) (servers : List (Option (List ℕ)))
    → servers_text n servers ≡ terminated (take n (named servers))
servers_text-terminated zero servers = refl
servers_text-terminated (suc n) [] = refl
servers_text-terminated (suc n) (none ∷ servers) = refl
servers_text-terminated (suc n) (some [] ∷ servers) = refl
servers_text-terminated (suc n) (some (c ∷ cs) ∷ servers) =
    ap (λ l. c ∷ (cs ++ (0 ∷ l))) (servers_text-terminated n servers)

pub perform-request :
    (r : Request) (d : Mw)
    → d.mw_ready ≡ true
    → in_range r ≡ true
    → perform r d ≡ request (command_of r) (wire_data r) (tout_of r) d
unfolding perform mw_default_cfg_set mw_ap_disassoc mw_factory_settings mw_cfg_save mw_ap_cfg_set
    mw_ip_cfg_set mw_ap_assoc mw_def_ap_cfg mw_flash_sector_erase mw_flash_write mw_gamertag_set
    mw_wifi_adv_cfg_set mw_def_server_set mw_log mw_http_url_set mw_http_header_del mw_sntp_cfg_set
    mw_fw_upgrade mw_http_method_set mw_http_header_add string_based_cmd command_of tout_of
perform-request default_cfg d ready ok = rw ready refl
perform-request ap_disassoc d ready ok = rw ready refl
perform-request factory_settings d ready ok = rw ready refl
perform-request cfg_save d ready ok = rw ready refl
perform-request (ap_cfg slot phy_type ssid pass) d ready ok =
    rw (ready, gt→leb 3 slot (ltb→lt slot 3 ok), padded-field 32 ssid, padded-field 64 pass) refl
perform-request (ip_cfg slot ip) d ready ok = rw (ready, gt→leb 3 slot (ltb→lt slot 3 ok)) refl
perform-request (ap_assoc slot) d ready ok = rw ready refl
perform-request (def_ap_cfg slot) d ready ok = rw ready refl
perform-request (sector_erase sect) d ready ok = rw ready refl
perform-request (flash_write addr bytes) d ready ok = rw ready refl
perform-request (gamertag slot tag) d ready ok = rw ready refl
perform-request (wifi_adv_cfg wifi) d ready ok = rw ready refl
perform-request (server_url c cs) d ready ok = rw ready refl
perform-request (log_msg c cs) d ready ok = rw ready refl
perform-request (http_url c cs) d ready ok = rw ready refl
perform-request (http_header_del c cs) d ready ok = rw ready refl
perform-request (sntp_cfg tz_str servers) d ready ok =
    rw (ready, servers_text-terminated 3 servers) refl
perform-request (fw_upgrade name) d ready ok = rw ready refl
perform-request (http_method method) d ready ok =
    rw (ready, gt→leb 10 method (ltb→lt method 10 ok)) refl
perform-request (http_header k ks v vs) d ready ok = rw ready refl

-- A call refuses what is out of range, or comes before the module is ready, and touches nothing.
pub perform_refused :
    (r : Request) (d : Mw)
    → d.mw_ready && in_range r ≡ false
    → perform r d ≡ done ((if d.mw_ready then err_param else err_not_ready), d)
unfolding perform mw_default_cfg_set mw_ap_disassoc mw_factory_settings mw_cfg_save mw_ap_cfg_set
    mw_ip_cfg_set mw_ap_assoc mw_def_ap_cfg mw_flash_sector_erase mw_flash_write mw_gamertag_set
    mw_wifi_adv_cfg_set mw_def_server_set mw_log mw_http_url_set mw_http_header_del mw_sntp_cfg_set
    mw_fw_upgrade mw_http_method_set mw_http_header_add string_based_cmd
perform_refused default_cfg d h = ground arith
perform_refused ap_disassoc d h = ground arith
perform_refused factory_settings d h = ground arith
perform_refused cfg_save d h = ground arith
perform_refused (ap_cfg slot phy_type ssid pass) d h = ground arith
perform_refused (ip_cfg slot ip) d h = ground arith
perform_refused (ap_assoc slot) d h = ground arith
perform_refused (def_ap_cfg slot) d h = ground arith
perform_refused (sector_erase sect) d h = ground arith
perform_refused (flash_write addr bytes) d h = ground arith
perform_refused (gamertag slot tag) d h = ground arith
perform_refused (wifi_adv_cfg wifi) d h = ground arith
perform_refused (server_url c cs) d h = ground arith
perform_refused (log_msg c cs) d h = ground arith
perform_refused (http_url c cs) d h = ground arith
perform_refused (http_header_del c cs) d h = ground arith
perform_refused (sntp_cfg tz_str servers) d h = ground arith
perform_refused (fw_upgrade name) d h = ground arith
perform_refused (http_method method) d h = ground arith
perform_refused (http_header k ks v vs) d h = ground arith
