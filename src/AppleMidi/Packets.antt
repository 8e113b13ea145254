-- ===== src/AppleMidi/Packets.antt =====
-- The session packets as a peer writes and reads them, and what the unpacking loops make of them.
use mega_drive_megawifi_appl.Base.{
  ℕ, zero, suc, ◌+◌, ◌≤◌, ◌≡◌, refl, ◌∙◌, sym, ap, true, List, [], ◌∷◌, ◌++◌, append_assoc, length,
  set, length-append, get_or-append_at, take-append, drop-append, set-append_at, replicate, ge→ltb,
  done, arith, Holds, read-Holds, Holds-tail, eq→==,
}
use mega_drive_megawifi_appl.AppleMidi.{
  copy_bytes, unpack_invitation, unpack_timestamp_sync, u32_at, set_u32, megadrive_ssrc,
  has_apple_midi_signature, is_command, sync_count, answer_timestamp_sync,
}

-- An invitation: signature, "IN", version, initiator token, then sender SSRC and name, and whatever
-- the receive buffer holds behind them.
abbrev pub invitation : List ℕ → List ℕ → List ℕ → List ℕ
invitation version token more = 0xFF ∷ 0xFF ∷ b'I' ∷ b'N' ∷ (version ++ (token ++ more))

-- The response to an invitation: signature, "OK", version 2, the initiator token, the Mega Drive's SSRC,
-- and the name "MegaDrive", filled up with zeros to 16 bytes.
abbrev pub ok_response : List ℕ → List ℕ
ok_response token =
    0xFF
    ∷ 0xFF
    ∷ b'O'
    ∷ b'K'
    ∷ 0
    ∷ 0
    ∷ 0
    ∷ 2
    ∷ (token
        ++ (0x9E ∷ 0x91 ∷ 0x51 ∷ 0x50 ∷ b'M' ∷ b'e' ∷ b'g' ∷ b'a' ∷ b'D' ∷ b'r' ∷ b'i' ∷ b'v' ∷ b'e'
            ∷ 0 ∷ 0 ∷ 0 ∷ 0 ∷ 0 ∷ 0 ∷ 0 ∷ []))

-- A time synchronisation: signature, "CK", sender SSRC, count, padding, three timestamps of two words.
pub record TimeSync : Type 0 where
  pub sender_ssrc : List ℕ
  pub count : ℕ
  pub padding : List ℕ
  pub timestamp1_hi : List ℕ
  pub timestamp1_lo : List ℕ
  pub timestamp2_hi : List ℕ
  pub timestamp2_lo : List ℕ
  pub timestamp3_hi : List ℕ
  pub timestamp3_lo : List ℕ

module _ (t : TimeSync) where
  open t use {
    sender_ssrc, count, padding, timestamp1_hi, timestamp1_lo, timestamp2_hi, timestamp2_lo,
    timestamp3_hi, timestamp3_lo,
  }

  abbrev pub timestamps : List ℕ
  timestamps =
      timestamp1_hi
      ++ (timestamp1_lo ++ (timestamp2_hi ++ (timestamp2_lo ++ (timestamp3_hi ++ timestamp3_lo))))

  abbrev pub time_sync : List ℕ
  time_sync = 0xFF ∷ 0xFF ∷ b'C' ∷ b'K' ∷ (sender_ssrc ++ (count ∷ (padding ++ timestamps)))

  pub record IsTimeSync : Type 0 where
    pub sender_ssrc_size : length sender_ssrc ≡ 4
    pub padding_size : length padding ≡ 3
    pub timestamp1_hi_size : length timestamp1_hi ≡ 4
    pub timestamp1_lo_size : length timestamp1_lo ≡ 4
    pub timestamp2_hi_size : length timestamp2_hi ≡ 4
    pub timestamp2_lo_size : length timestamp2_lo ≡ 4
    pub timestamp3_hi_size : length timestamp3_hi ≡ 4
    pub timestamp3_lo_size : length timestamp3_lo ≡ 4

copy_bytes-Holds :
    (n : ℕ) (xs tl buffer : List ℕ) (c : ℕ)
    → n ≡ length xs
    → Holds buffer c (xs ++ tl)
    → copy_bytes n buffer c ≡ done xs
unfolding copy_bytes
copy_bytes-Holds zero [] tl buffer c e h = refl
copy_bytes-Holds (suc n) [] tl buffer c e h = absurd (omega arith)
copy_bytes-Holds zero (x ∷ xs) tl buffer c e h = absurd (omega arith)
copy_bytes-Holds (suc n) (x ∷ xs) tl buffer c e h = rw (
  read-Holds buffer c x (xs ++ tl) h,
  copy_bytes-Holds n xs tl buffer (c + 1) (omega arith) (Holds-tail buffer c x (xs ++ tl) h),
)

pub copy_bytes-append :
    (n : ℕ) (xs tl : List ℕ) → n ≡ length xs → copy_bytes n (xs ++ tl) 0 ≡ done xs
copy_bytes-append n xs tl e = copy_bytes-Holds n xs tl (xs ++ tl) 0 e refl

pub signed_buffer :
    (tl : List ℕ) (len : ℕ) → 2 ≤ len → has_apple_midi_signature (0xFF ∷ 0xFF ∷ tl) len ≡ done true
unfolding has_apple_midi_signature
signed_buffer tl len h = rw (ge→ltb len 2 h)

pub command_found :
    (a b : ℕ) (tl : List ℕ) → is_command a b (0xFF ∷ 0xFF ∷ a ∷ b ∷ tl) 2 ≡ done true
unfolding is_command
command_found a b tl = rw (eq→== a a refl, eq→== b b refl)

-- The first 32 bytes of the buffer are unpacked, if the packet is long enough.
pub unpack_invitation-invitation :
    (version token more tl : List ℕ) (len : ℕ)
    → length (invitation version token more) ≡ 32
    → 17 ≤ len
    → unpack_invitation (invitation version token more ++ tl) len
      ≡ done (0, invitation version token more)
unfolding unpack_invitation
unpack_invitation-invitation version token more tl len size enough = rw (
  ge→ltb len 17 enough,
  copy_bytes-append 32 (invitation version token more) tl (omega (arith, size)),
)

pub token_of_invitation :
    (version token more : List ℕ)
    → length version ≡ 4
    → length token ≡ 4
    → u32_at (invitation version token more) 8 ≡ token
token_of_invitation version token more hv ht =
    rw (drop-append version (token ++ more) 4 (omega arith), take-append token more 4 (omega arith))

-- A time synchronisation is unpacked whole, whatever follows it in the buffer.
pub unpack_timestamp_sync-time_sync :
    (t : TimeSync) (tl : List ℕ)
    → length (time_sync t) ≡ 36
    → unpack_timestamp_sync (time_sync t ++ tl) 36 ≡ done (0, time_sync t)
unfolding unpack_timestamp_sync
unpack_timestamp_sync-time_sync t tl size =
    rw (copy_bytes-append 36 (time_sync t) tl (omega (arith, size)))

length-timestamps : (t : TimeSync) → IsTimeSync t → length (timestamps t) ≡ 24
length-timestamps t v = omega (
  arith,
  length-append timestamp1_hi
      (timestamp1_lo ++ (timestamp2_hi ++ (timestamp2_lo ++ (timestamp3_hi ++ timestamp3_lo)))),
  length-append timestamp1_lo
      (timestamp2_hi ++ (timestamp2_lo ++ (timestamp3_hi ++ timestamp3_lo))),
  length-append timestamp2_hi (timestamp2_lo ++ (timestamp3_hi ++ timestamp3_lo)),
  length-append timestamp2_lo (timestamp3_hi ++ timestamp3_lo),
  length-append timestamp3_hi timestamp3_lo,
)
  where
    open t use {
      timestamp1_hi, timestamp1_lo, timestamp2_hi, timestamp2_lo, timestamp3_hi, timestamp3_lo,
    }

pub length-time_sync : (t : TimeSync) → IsTimeSync t → length (time_sync t) ≡ 36
length-time_sync t v = omega (
  arith,
  length-timestamps t v,
  length-append t.sender_ssrc (t.count ∷ (t.padding ++ timestamps t)),
  length-append t.padding (timestamps t),
)

pub sync_count-time_sync : (t : TimeSync) → IsTimeSync t → sync_count (time_sync t) ≡ t.count
sync_count-time_sync t v =
    get_or-append_at t.sender_ssrc t.count (t.padding ++ timestamps t) 4 0 (omega arith)

set_u32-append :
    (front old back new : List ℕ) (at : ℕ)
    → at ≡ length front
    → length old ≡ 4
    → set_u32 (front ++ (old ++ back)) at new ≡ front ++ (new ++ back)
set_u32-append front old back new at e h =
    rw (take-append front (old ++ back) at e, ← append_assoc front old back)
      (rw (drop-append (front ++ old) back (at + 4) (omega (arith, length-append front old))))

-- The answer to a time synchronisation: count 1, the second timestamp zero, the Mega Drive's SSRC;
-- padding and the other timestamps are the peer's.
abbrev pub answered : TimeSync → TimeSync
answered t = record t {
  sender_ssrc = 0x9E ∷ 0x91 ∷ 0x51 ∷ 0x50 ∷ [];
  count = 1;
  timestamp2_hi = replicate 4 0;
  timestamp2_lo = replicate 4 0;
}

module _ (t : TimeSync) (v : IsTimeSync t) where
  open t use {
    sender_ssrc, count, padding, timestamp1_hi, timestamp1_lo, timestamp2_hi, timestamp2_lo,
    timestamp3_hi, timestamp3_lo,
  }

  abbrev start : List ℕ
  start = 0xFF ∷ 0xFF ∷ b'C' ∷ b'K' ∷ []

  abbrev counted : List ℕ
  counted = 1 ∷ (padding ++ (timestamp1_hi ++ timestamp1_lo))

  abbrev zeros : List ℕ
  zeros = replicate 4 0

  abbrev last : List ℕ
  last = timestamp3_hi ++ timestamp3_lo

  length-counted : length counted ≡ 12
  length-counted = omega (
    arith,
    length-append padding (timestamp1_hi ++ timestamp1_lo),
    length-append timestamp1_hi timestamp1_lo,
  )

  set_count :
      set (time_sync t) 8 1
      ≡ (start ++ (sender_ssrc ++ counted)) ++ (timestamp2_hi ++ (timestamp2_lo ++ last))
  set_count =
      ap (λ l. 0xFF ∷ 0xFF ∷ b'C' ∷ b'K' ∷ l)
        (set-append_at sender_ssrc count 1 (padding ++ timestamps t) 4 (omega arith))
      ∙ simp append_assoc

  pub answer_timestamp_sync-time_sync : answer_timestamp_sync (time_sync t) ≡ time_sync (answered t)
  unfolding answer_timestamp_sync
  answer_timestamp_sync-time_sync =
      ap (λ l. set_u32 (set_u32 (set_u32 l 20 zeros) 24 zeros) 4 megadrive_ssrc) set_count
      ∙ ap (λ l. set_u32 (set_u32 l 24 zeros) 4 megadrive_ssrc)
          (set_u32-append (start ++ (sender_ssrc ++ counted)) timestamp2_hi (timestamp2_lo ++ last)
              zeros 20 (omega (arith, length-append sender_ssrc counted, length-counted))
              (omega arith)
            ∙ sym (append_assoc (start ++ (sender_ssrc ++ counted)) zeros (timestamp2_lo ++ last)))
      ∙ ap (λ l. set_u32 l 4 megadrive_ssrc)
          {y = start ++ (sender_ssrc ++ (counted ++ (zeros ++ (zeros ++ last))))}
          (set_u32-append ((start ++ (sender_ssrc ++ counted)) ++ zeros) timestamp2_lo last zeros 24
              (omega (
                arith,
                length-append (start ++ (sender_ssrc ++ counted)) zeros,
                length-append sender_ssrc counted,
                length-counted,
              ))
              (omega arith)
            ∙ simp append_assoc)
      ∙ set_u32-append start sender_ssrc (counted ++ (zeros ++ (zeros ++ last))) megadrive_ssrc 4
          (omega arith) (omega arith)
      ∙ simp append_assoc
