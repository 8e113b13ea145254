-- ===== src/MegaWifi/Scan.antt =====
-- The list of access points that a scan gives, read one at a time by `mw_ap_fill_next` of
-- src/mw/megawifi.c.
use mega_drive_megawifi_appl.Base.{
  ℕ, ◌+◌, List, leb, ltb, if◌then◌else◌, Outcome, done, ◌>>=◌, read,
}

-- struct mw_ap_data; `ssid` is where the name begins.
pub record ApData : Type 0 where
  pub auth : ℕ
  pub channel : ℕ
  pub rssi : ℕ
  pub ssid_len : ℕ
  pub ssid : ℕ

-- What `mw_ap_fill_next` returns: the end, -1, or the next position with the data filled in.
pub data ApNext : Type 0 where
  ap_end ap_error : ApNext
  ap_next : ℕ → ApData → ApNext

-- `ap_data` holds bytes; as a `char` is signed, a length of 128 or more counts as one less than 0 in
-- the test on the end, where the sum may not fall below 0.
unfoldable pub mw_ap_fill_next : List ℕ → ℕ → ℕ → Outcome ApNext
mw_ap_fill_next ap_data pos data_len = if leb data_len pos then done ap_end else (do
  name_len ← read ap_data (pos + 3)
  let over = if ltb name_len 128 then data_len else data_len + 256
  if ltb over (pos + name_len + 4) then done ap_error else (do
    auth ← read ap_data pos
    channel ← read ap_data (pos + 1)
    rssi ← read ap_data (pos + 2)
    done (
        ap_next (pos + 4 + name_len) (record {
          auth = auth;
          channel = channel;
          rssi = rssi;
          ssid_len = name_len;
          ssid = pos + 4;
        }))))
