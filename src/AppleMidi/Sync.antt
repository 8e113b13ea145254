-- ===== src/AppleMidi/Sync.antt =====
-- Time synchronisation in src/applemidi.c.
use mega_drive_megawifi_appl.Base.{
  ℕ, ◌≤◌, ◌≡◌, refl, ◌≢◌, false, List, [], ◌∷◌, ◌+◌, ◌%◌, ◌++◌, ◌==◌, if◌then◌else◌, eq→==, ne→==,
  done, arith, Bool-cases, ==→eq, inl, inr, ap, ◌∙◌,
}
use mega_drive_megawifi_appl.Machine.{Machine, draw}
use mega_drive_megawifi_appl.Driver.{Driver}
use mega_drive_megawifi_appl.AppleMidi.{
  process_session_midi_packet, process_session_midi_command, process_timestamp_sync,
  reply_timestamp_sync, send_timestamp_sync, unpack_timestamp_sync, is_command, sync_count,
}
use mega_drive_megawifi_appl.AppleMidi.Packets.{
  TimeSync, IsTimeSync, time_sync, timestamps, answered, signed_buffer, command_found,
  unpack_timestamp_sync-time_sync, length-time_sync, sync_count-time_sync,
  answer_timestamp_sync-time_sync,
}

not_invitation : (tl : List ℕ) → is_command b'I' b'N' (0xFF ∷ 0xFF ∷ b'C' ∷ tl) 2 ≡ done false
unfolding is_command
not_invitation tl = refl

module _ {S : Type 0} (driver : Driver S) where
  -- What the answer to a first synchronisation comes to: one packet on the MIDI port, and, if the
  -- driver took it, a text with the 16-bit counter and one more on it.
  abbrev pub sync_answered : TimeSync → Machine S → ℕ × Machine S
  sync_answered t m =
      let (err, s) = driver.send_sync 2 (time_sync (answered t)) 0 m.driver in
      let m' : Machine S = record m { driver = s } in
      if err == 0
      then (
        0,
        record (draw "Timestamp Syncs: %d" (m.timestamp_sync_count ∷ []) 1 5 m') {
          timestamp_sync_count = (m.timestamp_sync_count + 1) % 65536;
        },
      )
      else (err, m')

  process_sync_of_command :
      (tl : List ℕ) (len : ℕ) (m : Machine S)
      → 2 ≤ len
      → process_session_midi_packet driver (0xFF ∷ 0xFF ∷ b'C' ∷ b'K' ∷ tl) len m
        ≡ process_timestamp_sync driver (0xFF ∷ 0xFF ∷ b'C' ∷ b'K' ∷ tl) len m
  unfolding process_session_midi_packet process_session_midi_command
  process_sync_of_command tl len m h = rw (
    signed_buffer (b'C' ∷ b'K' ∷ tl) len h,
    not_invitation (b'K' ∷ tl),
    command_found b'C' b'K' tl,
  )

  reply_timestamp_sync-first :
      (t : TimeSync) (m : Machine S)
      → IsTimeSync t
      → t.count ≡ 0
      → reply_timestamp_sync driver (time_sync t) m ≡ sync_answered t m
  unfolding reply_timestamp_sync send_timestamp_sync
  reply_timestamp_sync-first t m v z = rw (
    eq→== (sync_count (time_sync t)) 0 (omega (arith, sync_count-time_sync t v)),
    answer_timestamp_sync-time_sync t v,
  )

  reply_timestamp_sync-later :
      (t : TimeSync) (m : Machine S)
      → IsTimeSync t
      → t.count ≢ 0
      → reply_timestamp_sync driver (time_sync t) m ≡ (0, m)
  unfolding reply_timestamp_sync
  reply_timestamp_sync-later t m v nz =
      rw (ne→== (sync_count (time_sync t)) 0 (λ e. nz (omega (arith, sync_count-time_sync t v))))

  process_timestamp_sync-reply :
      (t : TimeSync) (tl : List ℕ) (m : Machine S)
      → IsTimeSync t
      → process_timestamp_sync driver (time_sync t ++ tl) 36 m
        ≡ done (reply_timestamp_sync driver (time_sync t) m)
  unfolding process_timestamp_sync
  process_timestamp_sync-reply t tl m v =
      rw (unpack_timestamp_sync-time_sync t tl (length-time_sync t v))

  -- A time synchronisation of 36 bytes on the MIDI port: with count 0 it is sent back with count 1,
  -- the Mega Drive's SSRC and a zero second timestamp, all else unchanged; if the driver takes it,
  -- the 16-bit counter is shown and then one higher, while the driver's error is returned if not; with
  -- any other count nothing happens.
  pub process_session_midi_packet-time_sync :
      (t : TimeSync) (tl : List ℕ) (m : Machine S)
      → IsTimeSync t
      → process_session_midi_packet driver (time_sync t ++ tl) 36 m
        ≡ (if t.count == 0 then done (sync_answered t m) else done (0, m))
  process_session_midi_packet-time_sync t tl m v =
      process_sync_of_command (tail ++ tl) 36 m (omega arith)
      ∙ process_timestamp_sync-reply t tl m v
      ∙ elim (Bool-cases (t.count == 0)) [
        | inl z ↦ rw z (ap done (reply_timestamp_sync-first t m v (==→eq t.count 0 z)))
        | inr n ↦ rw n (ap done (reply_timestamp_sync-later t m v (λ e. cc (n, eq→== t.count 0 e))))
      ]
    where
      tail : List ℕ
      tail = t.sender_ssrc ++ (t.count ∷ (t.padding ++ timestamps t))

  -- A time synchronisation of any other length is refused with its error code, and nothing happens.
  pub process_session_midi_packet-sync_length :
      (tl : List ℕ) (len : ℕ) (m : Machine S)
      → 2 ≤ len
      → len ≢ 36
      → process_session_midi_packet driver (0xFF ∷ 0xFF ∷ b'C' ∷ b'K' ∷ tl) len m ≡ done (103, m)
  unfolding process_timestamp_sync unpack_timestamp_sync
  process_session_midi_packet-sync_length tl len m lo ne =
      rw (process_sync_of_command tl len m lo, ne→== len 36 ne)
