-- ===== src/MegaWifi/Names.antt =====
-- A client of `mw_ap_fill_next` (src/mw/megawifi.c) that reads a list of access points to its end.
use mega_drive_megawifi_appl.Base.{
  ℕ, zero, suc, ◌+◌, ◌<◌, ◌≡◌, refl, ◌∙◌, ap, List, [], ◌∷◌, ◌++◌, append_assoc, append-nil, length,
  All, Outcome, done, spent, ◌>>=◌, read, arith, length-append, le→leb, gt→leb, lt→ltb, ge→ltb,
}
use mega_drive_megawifi_appl.MegaWifi.Scan.{ApData, ap_end, ap_error, ap_next, mw_ap_fill_next}

pub record AccessPoint : Type 0 where
  pub auth : ℕ
  pub channel : ℕ
  pub rssi : ℕ
  pub ssid : List ℕ

-- The format of the list: three bytes, the name's length and the name.
abbrev pub list_bytes : List AccessPoint → List ℕ
list_bytes [] = []
list_bytes (p ∷ ps) = p.auth ∷ p.channel ∷ p.rssi ∷ length p.ssid ∷ (p.ssid ++ list_bytes ps)

-- What is to be found of an access point that begins at a position.
abbrev pub data_at : ℕ → AccessPoint → ApData
data_at pos p = record {
  auth = p.auth;
  channel = p.channel;
  rssi = p.rssi;
  ssid_len = length p.ssid;
  ssid = pos + 4;
}

abbrev pub listed : ℕ → List AccessPoint → List ApData
listed pos [] = []
listed pos (p ∷ ps) = data_at pos p ∷ listed (pos + 4 + length p.ssid) ps

-- Calls until the end, or an error, which leaves out the rest.
unfoldable pub walk : ℕ → List ℕ → ℕ → ℕ → Outcome (List ApData)
walk zero ap_data pos data_len = spent
walk (suc n) ap_data pos data_len = mw_ap_fill_next ap_data pos data_len >>= λ next. elim next [
  | ap_end ↦ done []
  | ap_error ↦ done []
  | ap_next pos' apd ↦ walk n ap_data pos' data_len >>= λ later. done (apd ∷ later)
]

read-append :
    (before : List ℕ) (i : ℕ) (xs : List ℕ) → read (before ++ xs) (length before + i) ≡ read xs i
read-append [] i xs = let e : 0 + i ≡ i = omega arith in rw e refl
read-append (b ∷ bs) i xs =
    let e : suc (length bs) + i ≡ suc (length bs + i) = omega arith in rw e (read-append bs i xs)

fill_next-listed :
    (before : List ℕ) (p : AccessPoint) (ps : List AccessPoint)
    → length p.ssid < 128
    → let bytes : List ℕ = before ++ list_bytes (p ∷ ps) in
      mw_ap_fill_next bytes (length before) (length bytes)
      ≡ done (ap_next (length before + 4 + length p.ssid) (data_at (length before) p))
unfolding mw_ap_fill_next
fill_next-listed before p ps h =
    let entry : List ℕ = list_bytes (p ∷ ps) in
    let bytes : List ℕ = before ++ entry in
    let size : length bytes ≡ length before + (4 + length p.ssid + length (list_bytes ps)) =
      omega (arith, length-append before entry, length-append p.ssid (list_bytes ps)) in
    let start : read bytes (length before) ≡ done p.auth =
      ap (read bytes) (omega arith) ∙ read-append before 0 entry in
    rw
      (
        gt→leb (length bytes) (length before) (omega arith),
        read-append before 3 entry,
        lt→ltb (length p.ssid) 128 h,
        ge→ltb (length bytes) (length before + length p.ssid + 4) (omega arith),
        start,
        read-append before 1 entry,
        read-append before 2 entry,
      )
      refl

fill_next-end : (bytes : List ℕ) → mw_ap_fill_next bytes (length bytes) (length bytes) ≡ done ap_end
unfolding mw_ap_fill_next
fill_next-end bytes = rw (le→leb (length bytes) (length bytes) (omega arith)) refl

walk-listed :
    (n : ℕ) (before : List ℕ) (ps : List AccessPoint)
    → length ps < n
    → All (λ p. length p.ssid < 128) ps
    → let bytes : List ℕ = before ++ list_bytes ps in
      walk n bytes (length before) (length bytes) ≡ done (listed (length before) ps)
unfolding walk
walk-listed zero before ps h short = absurd (omega arith)
walk-listed (suc n) before [] h short = rw (append-nil before, fill_next-end before) refl
walk-listed (suc n) before (p ∷ ps) h short =
    let entry : List ℕ = p.auth ∷ p.channel ∷ p.rssi ∷ length p.ssid ∷ p.ssid in
    let later = walk-listed n (before ++ entry) ps (omega arith) (short.1) in
    let there : length (before ++ entry) ≡ length before + 4 + length p.ssid =
      omega (arith, length-append before entry) in
    let step = rw (append_assoc before entry (list_bytes ps), there) at later in
    rw (fill_next-listed before p ps (short.0), step) refl

-- A list of access points whose names have less than 128 bytes is read to its end by calls of
-- `mw_ap_fill_next`, each from the position that the call before returned, and gives each access point
-- in order, with its name's place.
pub mw_ap_fill_next-walk :
    (ps : List AccessPoint)
    → All (λ p. length p.ssid < 128) ps
    → walk (suc (length ps)) (list_bytes ps) 0 (length (list_bytes ps)) ≡ done (listed 0 ps)
mw_ap_fill_next-walk ps short = walk-listed (suc (length ps)) [] ps (omega arith) short
