-- ===== src/AppleMidi/Invitation.antt =====
-- The session handshake of src/applemidi.c: how an invitation is answered, and what is refused.
use mega_drive_megawifi_appl.Base.{
  ℕ, ◌+◌, ◌≤◌, ◌<◌, ◌≡◌, refl, List, [], ◌∷◌, ◌++◌, length, length-append, ◌==◌, if◌then◌else◌,
  lt→ltb, Outcome, done, dead, arith,
}
use mega_drive_megawifi_appl.Machine.{Machine, draw}
use mega_drive_megawifi_appl.Driver.{Driver}
use mega_drive_megawifi_appl.Mediator.Send.{mediator_send}
use mega_drive_megawifi_appl.AppleMidi.{
  u32_at, pack_invitation_response, send_invite_response, acknowledge, process_invitation,
  unpack_invitation, process_session_control_packet, process_session_midi_command,
  process_session_midi_packet,
}
use mega_drive_megawifi_appl.AppleMidi.Packets.{
  invitation, ok_response, signed_buffer, command_found, unpack_invitation-invitation,
  token_of_invitation,
}

-- A peer reads the response as 32 bytes: the signature, "OK", version 2, the initiator token that it
-- sent, the Mega Drive's SSRC, and the name "MegaDrive" with its end byte.
pack_invitation_response-ok : (token : List ℕ) → pack_invitation_response token ≡ ok_response token
unfolding pack_invitation_response
pack_invitation_response-ok token = refl

module _ {S : Type 0} (driver : Driver S) where
  -- What answering an invitation on channel `ch` comes to: two texts, and one packet sent between
  -- them; if the driver refuses it the program dies.
  abbrev pub invitation_answered : ℕ → List ℕ → Machine S → Outcome (ℕ × Machine S)
  invitation_answered ch token m =
      let (err, s) = driver.send_sync ch (ok_response token) 0 m.driver in
      if err == 0
      then done (
        0,
        draw "Ack'd" [] 28 (2 + ch)
            (record (draw "Invite recv'd on UDP ch %d:" (ch ∷ []) 1 (2 + ch) m) { driver = s }),
      )
      else dead

  acknowledge_lem :
      (ch : ℕ) (packet token : List ℕ) (m : Machine S)
      → u32_at packet 8 ≡ token
      → acknowledge driver ch packet m ≡ invitation_answered ch token m
  unfolding acknowledge send_invite_response mediator_send
  acknowledge_lem ch packet token m e = rw (e, pack_invitation_response-ok token) (ground arith)

  process_invitation-invitation :
      (ch : ℕ) (version token more tl : List ℕ) (len : ℕ) (m : Machine S)
      → length version ≡ 4
      → length token ≡ 4
      → length more ≡ 20
      → 17 ≤ len
      → process_invitation driver ch (invitation version token more ++ tl) len m
        ≡ invitation_answered ch token m
  unfolding process_invitation
  process_invitation-invitation ch version token more tl len m hv ht hm enough =
      rw
        (unpack_invitation-invitation version token more tl len
          (omega (arith, length-append version (token ++ more), length-append token more)) enough)
        (acknowledge_lem ch (invitation version token more) token m
          (token_of_invitation version token more hv ht))

  -- An invitation of at least 17 bytes is answered on the port that it comes in on: the response goes
  -- out on that channel, spelled out byte for byte: an acceptance of version 2, with the initiator token
  -- that came in, the Mega Drive's SSRC and the name MegaDrive. The version, the SSRC and the name that
  -- came in and the bytes behind the packet make no difference. If the driver refuses the response, the
  -- program dies.
  pub process_session_packet-invitation :
      (version token more tl : List ℕ) (len : ℕ) (m : Machine S)
      → length version ≡ 4
      → length token ≡ 4
      → length more ≡ 20
      → 17 ≤ len
      → let buffer = invitation version token more ++ tl in
        (process_session_control_packet driver buffer len m ≡ invitation_answered 1 token m)
        × (process_session_midi_packet driver buffer len m ≡ invitation_answered 2 token m)
  unfolding process_session_control_packet process_session_midi_packet process_session_midi_command
  process_session_packet-invitation version token more tl len m hv ht hm enough = (
    rw
        (
          signed_buffer (b'I' ∷ b'N' ∷ ((version ++ (token ++ more)) ++ tl)) len (omega arith),
          command_found b'I' b'N' ((version ++ (token ++ more)) ++ tl),
        )
        (process_invitation-invitation 1 version token more tl len m hv ht hm enough),
    rw
        (
          signed_buffer (b'I' ∷ b'N' ∷ ((version ++ (token ++ more)) ++ tl)) len (omega arith),
          command_found b'I' b'N' ((version ++ (token ++ more)) ++ tl),
        )
        (process_invitation-invitation 2 version token more tl len m hv ht hm enough),
  )

  -- An invitation shorter than 17 bytes is refused with its error code, and nothing else happens.
  pub process_session_packet-short_invitation :
      (tl : List ℕ) (len : ℕ) (m : Machine S)
      → 2 ≤ len
      → len < 17
      → let buffer = 0xFF ∷ 0xFF ∷ b'I' ∷ b'N' ∷ tl in
        (process_session_control_packet driver buffer len m ≡ done (102, m))
        × (process_session_midi_packet driver buffer len m ≡ done (102, m))
  unfolding process_session_control_packet process_session_midi_packet process_session_midi_command
      process_invitation unpack_invitation
  process_session_packet-short_invitation tl len m lo hi = (
    rw (signed_buffer (b'I' ∷ b'N' ∷ tl) len lo, command_found b'I' b'N' tl, lt→ltb len 17 hi),
    rw (signed_buffer (b'I' ∷ b'N' ∷ tl) len lo, command_found b'I' b'N' tl, lt→ltb len 17 hi),
  )
