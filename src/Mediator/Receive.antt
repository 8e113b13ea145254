-- ===== src/Mediator/Receive.antt =====
-- What holds of every call of `mediator_receive`, whatever the network delivers.
use mega_drive_megawifi_appl.Base.{
  ℕ, ◌+◌, ◌<◌, ◌≡◌, List, drop, length, ◌==◌, done, Post, post_done, if-Post, Any, Any-Post,
  >>=-Post, arith, ltb, not,
}
use mega_drive_megawifi_appl.Machine.{Machine, draw}
use mega_drive_megawifi_appl.Midi.{midi_emit}
use mega_drive_megawifi_appl.Midi.Rows.{RowsOk, midi_emit-RowsOk}
use mega_drive_megawifi_appl.Rtp.Keeps.{process_rtp_midi_packet-Post}
use mega_drive_megawifi_appl.Driver.{Driver}
use mega_drive_megawifi_appl.Mediator.{mediator_receive}
use mega_drive_megawifi_appl.Mediator.Send.{mediator_send}
use mega_drive_megawifi_appl.AppleMidi.{
  acknowledge, send_invite_response, process_invitation, unpack_invitation, process_timestamp_sync,
  unpack_timestamp_sync, reply_timestamp_sync, send_timestamp_sync, show_unknown_event, c_string,
  process_session_midi_command, process_session_control_packet, process_session_midi_packet,
  has_apple_midi_signature, is_invitation_command, is_timestamp_sync_command,
}

module _ {S : Type 0} (driver : Driver S) where
  abbrev Kept : ℕ × Machine S → Type 0
  Kept (e, m) = RowsOk m

  mediator_send-Post :
      (ch : ℕ) (bytes : List ℕ) (m : Machine S)
      → RowsOk m
      → Post RowsOk (mediator_send driver ch bytes m)
  unfolding mediator_send
  mediator_send-Post ch bytes m h =
      if-Post RowsOk (_ == 0) (Post.returns _ (record { next_row = h.next_row; drawn = h.drawn }))
        Post.dies

  acknowledge-Post :
      (ch : ℕ) (packet : List ℕ) (m : Machine S)
      → ch < 26
      → RowsOk m
      → Post Kept (acknowledge driver ch packet m)
  unfolding acknowledge send_invite_response
  acknowledge-Post ch packet m hc h =
      >>=-Post RowsOk Kept _ _
        (mediator_send-Post ch _ (draw "Invite recv'd on UDP ch %d:" _ 1 (2 + ch) m)
          (record { next_row = h.next_row; drawn = (omega arith, h.drawn) }))
        (λ m' q. Post.returns _ (record { next_row = q.next_row; drawn = (omega arith, q.drawn) }))

  process_invitation-Post :
      (ch : ℕ) (buffer : List ℕ) (len : ℕ) (m : Machine S)
      → ch < 26
      → RowsOk m
      → Post Kept (process_invitation driver ch buffer len m)
  unfolding process_invitation
  process_invitation-Post ch buffer len m hc h =
      >>=-Post Any Kept (unpack_invitation buffer len) _ (Any-Post (unpack_invitation buffer len))
        (λ u _. if-Post Kept (u.0 == 0) (acknowledge-Post ch u.1 m hc h) (Post.returns _ h))

  reply_timestamp_sync-Kept :
      (packet : List ℕ) (m : Machine S) → RowsOk m → Kept (reply_timestamp_sync driver packet m)
  unfolding reply_timestamp_sync send_timestamp_sync
  reply_timestamp_sync-Kept packet m h = ground arith

  process_timestamp_sync-Post :
      (buffer : List ℕ) (len : ℕ) (m : Machine S)
      → RowsOk m
      → Post Kept (process_timestamp_sync driver buffer len m)
  unfolding process_timestamp_sync
  process_timestamp_sync-Post buffer len m h =
      >>=-Post Any Kept (unpack_timestamp_sync buffer len) _
        (Any-Post (unpack_timestamp_sync buffer len))
        (λ u _.
          if-Post Kept (u.0 == 0) (Post.returns _ (reply_timestamp_sync-Kept u.1 m h))
            (Post.returns _ h))

  show_unknown_event-Post :
      (buffer : List ℕ) (m : Machine S) → RowsOk m → Post Kept (show_unknown_event driver buffer m)
  unfolding show_unknown_event
  show_unknown_event-Post buffer m h =
      >>=-Post Any Kept (c_string (drop 2 buffer)) _ (Any-Post (c_string (drop 2 buffer)))
        (λ text _. if-Post Kept (ltb 100 (14 + length text + 1)) Post.faults (
          Post.returns (0, draw "Unknown event %s" text 1 14 m)
            (record { next_row = h.next_row; drawn = (omega arith, h.drawn) })))

  process_session_midi_command-Post :
      (buffer : List ℕ) (len : ℕ) (m : Machine S)
      → RowsOk m
      → Post Kept (process_session_midi_command driver buffer len m)
  unfolding process_session_midi_command
  process_session_midi_command-Post buffer len m h =
      >>=-Post Any Kept _ _ (Any-Post (is_invitation_command buffer 2)) (λ i _.
        if-Post Kept i (process_invitation-Post 2 buffer len m (omega arith) h) (
          >>=-Post Any Kept _ _ (Any-Post (is_timestamp_sync_command buffer 2)) (λ s _.
            if-Post Kept s (process_timestamp_sync-Post buffer len m h)
              (show_unknown_event-Post buffer m h))))

  process_session_midi_packet-Post :
      (buffer : List ℕ) (len : ℕ) (m : Machine S)
      → RowsOk m
      → Post Kept (process_session_midi_packet driver buffer len m)
  unfolding process_session_midi_packet
  process_session_midi_packet-Post buffer len m h =
      >>=-Post Any Kept _ _ (Any-Post (has_apple_midi_signature buffer len)) (λ signed _.
        if-Post Kept signed (process_session_midi_command-Post buffer len m h)
          (process_rtp_midi_packet-Post midi_emit RowsOk midi_emit-RowsOk buffer len m h))

  process_session_control_packet-Post :
      (buffer : List ℕ) (len : ℕ) (m : Machine S)
      → RowsOk m
      → Post Kept (process_session_control_packet driver buffer len m)
  unfolding process_session_control_packet
  process_session_control_packet-Post buffer len m h =
      >>=-Post Any Kept _ _ (Any-Post (has_apple_midi_signature buffer len)) (λ signed _.
        if-Post Kept (not signed) (Post.returns _ h) (
          >>=-Post Any Kept _ _ (Any-Post (is_invitation_command buffer 2)) (λ i _.
            if-Post Kept i (process_invitation-Post 1 buffer len m (omega arith) h)
              (Post.returns _ h))))

  mediator_receive-Post : (m : Machine S) → RowsOk m → Post Kept (mediator_receive driver m)
  unfolding mediator_receive
  mediator_receive-Post m h =
      let (err, received, s) = driver.recv_sync 1460 0 m.driver in
      let h' : RowsOk (record m { driver = s }) = record {
        next_row = h.next_row;
        drawn = h.drawn;
      } in
      if-Post Kept (err == 0)
        (if-Post Kept (received.ch == 1)
          (process_session_control_packet-Post received.buffer received.len _ h')
          (if-Post Kept (received.ch == 2)
            (process_session_midi_packet-Post received.buffer received.len _ h')
            (Post.returns _ h')))
        (Post.returns _ h')

  -- Whatever packet arrives on whatever channel, and whatever the driver answers: if every text so far
  -- stands on one of the screen's 28 rows and the next row is one of them, the same holds after
  -- `mediator_receive` returns.
  pub mediator_receive-RowsOk :
      (m : Machine S) {err : ℕ} {m' : Machine S}
      → RowsOk m
      → mediator_receive driver m ≡ done (err, m')
      → RowsOk m'
  mediator_receive-RowsOk m h e = post_done Kept _ (mediator_receive-Post m h) e
