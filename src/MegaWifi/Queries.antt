-- ===== src/MegaWifi/Queries.antt =====
-- The calls of src/mw/megawifi.c that read their result out of the reply.
use mega_drive_megawifi_appl.Base.{
  ℕ, ◌+◌, ◌*◌, ◌^◌, ◌≤◌, ◌<◌, ◌≡◌, refl, ◌≢◌, ◌∙◌, ap, sym, true, Option, none, some, List, [], ◌∷◌,
  ◌++◌, length, take, drop, ◌==◌, if◌then◌else◌, done, arith, lt→ltb, ge→ltb, take-append-drop,
  ne→==,
}
use mega_drive_megawifi_appl.AppleMidi.{mw_err_none}
use mega_drive_megawifi_appl.MegaWifi.{
  Mw, Act, Post, ◌>>=◌, ◌>>◌, pure, byte_at, be16, dword_at, on_reply, fill_command, command_tout,
  reply_len, data_offset,
}
use mega_drive_megawifi_appl.MegaWifi.Codes.{cmd_echo, cmd_http_cert_query}
use mega_drive_megawifi_appl.MegaWifi.Exchange.{sent_of}
use mega_drive_megawifi_appl.MegaWifi.Verdicts.{Replied, HasRoom, exchange}
use mega_drive_megawifi_appl.MegaWifi.Setup.{mw_echo}
use mega_drive_megawifi_appl.MegaWifi.Http.{mw_http_cert_query}

-- The buffer after a reply: the reply, and what stood behind it.
pub held : (last xs : List ℕ) → take (length last) xs ≡ last → xs ≡ last ++ drop (length last) xs
held last xs e = sym (take-append-drop (length last) xs) ∙ ap (λ l. l ++ drop (length last) xs) e

-- What a reply says of the certificate: an error, or its hash.
pub data CertReply : ℕ → List ℕ → ℕ → Type 0 where
  no_cert : (v : ℕ) (last : List ℕ) → v ≢ mw_err_none → CertReply v last 0xFFFFFFF
  hashed :
      (c1 c0 l1 l0 h3 h2 h1 h0 : ℕ) (others : List ℕ)
      → CertReply mw_err_none
          (c1 ∷ c0 ∷ l1 ∷ l0 ∷ h3 ∷ h2 ∷ h1 ∷ h0 ∷ others)
          ((h3 * 2 ^ 8 + h2) * 2 ^ 16 + (h1 * 2 ^ 8 + h0))

cert_read :
    (v : ℕ) (last : List ℕ) (hash : ℕ) (d : Mw)
    → CertReply v last hash
    → take (length last) d.cmd ≡ last
    → (if v == mw_err_none then dword_at data_offset else pure 0xFFFFFFF) d ≡ done (hash, d)
unfolding byte_at
cert_read v last hash d (no_cert _ _ ne) e = rw (ne→== v mw_err_none ne) refl
cert_read v last hash d (hashed c1 c0 l1 l0 h3 h2 h1 h0 others) e = rw (held last d.cmd e) refl

cert_query_ready :
    (d : Mw)
    → d.mw_ready ≡ true
    → mw_http_cert_query d
      ≡ (fill_command cmd_http_cert_query []
            >> on_reply command_tout 0xFFFFFFF (dword_at data_offset))
          d
unfolding mw_http_cert_query
cert_query_ready d ready = rw ready refl

-- `mw_http_cert_query`, the module ready, returns the first four bytes of the reply's data as a number,
-- the highest first, where the reply is MW_CMD_OK and has at least 8 bytes, or 0xFFFFFFF, with seven
-- digits, if there is an error. The link is idle, with the control channel enabled, and the command
-- buffer has at least 972 bytes.
pub mw_http_cert_query_lem :
    (v : ℕ) (last : List ℕ) (hash : ℕ) (rest : List Post) (d : Mw)
    → d.mw_ready ≡ true
    → HasRoom [] d
    → Replied d.posts v last rest
    → CertReply v last hash
    → (d' : Mw) × (mw_http_cert_query d ≡ done (hash, d'))
      × (sent_of d'.calls ≡ (0, 0 ∷ 41 ∷ 0 ∷ 0 ∷ []) ∷ sent_of d.calls)
mw_http_cert_query_lem v last hash rest d ready room rep c =
    let (d', run, x) =
      exchange cmd_http_cert_query [] command_tout v last rest d 0xFFFFFFF (dword_at data_offset)
        room rep in
    (d', cert_query_ready d ready ∙ run ∙ cert_read v last hash d' c x.holds, x.sent)

-- What a reply to an echo says: an error, or how long its data is.
pub data EchoReply : ℕ → List ℕ → Option (ℕ × ℕ) → Type 0 where
  no_echo : (v : ℕ) (last : List ℕ) → v ≢ mw_err_none → EchoReply v last none
  echoed :
      (c1 c0 l1 l0 : ℕ) (others : List ℕ)
      → EchoReply mw_err_none (c1 ∷ c0 ∷ l1 ∷ l0 ∷ others) (some (4, l1 * 2 ^ 8 + l0))

abbrev echo_reply : Act (Option (ℕ × ℕ))
echo_reply = reply_len >>= λ len. pure (some (data_offset, len))

echo_read :
    (v : ℕ) (last : List ℕ) (reply : Option (ℕ × ℕ)) (d : Mw)
    → EchoReply v last reply
    → take (length last) d.cmd ≡ last
    → (if v == mw_err_none then echo_reply else pure none) d ≡ done (reply, d)
unfolding byte_at
echo_read v last reply d (no_echo _ _ ne) e = rw (ne→== v mw_err_none ne) refl
echo_read v last reply d (echoed c1 c0 l1 l0 others) e = rw (held last d.cmd e) refl

echo_sent :
    (bytes : List ℕ) (d : Mw)
    → d.mw_ready ≡ true
    → d.buf_len ≤ length bytes + 8
    → mw_echo bytes d ≡ (fill_command cmd_echo bytes >> on_reply command_tout none echo_reply) d
unfolding mw_echo
echo_sent bytes d ready big = rw (ready, ge→ltb (length bytes + 4 + 4) d.buf_len (omega arith)) refl

echo_refused :
    (bytes : List ℕ) (d : Mw)
    → d.mw_ready ≡ true
    → length bytes + 8 < d.buf_len
    → mw_echo bytes d ≡ done (none, d)
unfolding mw_echo
echo_refused bytes d ready fits =
    rw (ready, lt→ltb (length bytes + 4 + 4) d.buf_len (omega arith)) refl

-- `mw_echo`, the module ready, refuses all data that leaves more than 8 bytes of the command buffer, and
-- sends data that leaves 4 to 8 bytes: it then returns where the reply's data is and how long, where
-- the reply is MW_CMD_OK and has at least 4 bytes, or NULL for an error. The link is idle, with the control
-- channel enabled, and the command buffer has 972 to 4095 bytes.
pub mw_echo_inverted :
    (small bytes : List ℕ) (v : ℕ) (last : List ℕ) (reply : Option (ℕ × ℕ)) (rest : List Post)
    (d : Mw)
    → d.mw_ready ≡ true
    → d.buf_len ≡ length d.cmd
    → length small + 8 < d.buf_len
    → d.buf_len ≤ length bytes + 8
    → HasRoom bytes d
    → Replied d.posts v last rest
    → EchoReply v last reply
    → (mw_echo small d ≡ done (none, d))
      × ((d' : Mw) × (mw_echo bytes d ≡ done (reply, d'))
          × (sent_of d'.calls ≡ (0, 0 ∷ 2 ∷ (be16 (length bytes) ++ bytes)) ∷ sent_of d.calls))
mw_echo_inverted small bytes v last reply rest d ready whole fits big room rep c =
    let (d', run, x) =
      exchange cmd_echo bytes command_tout v last rest d none echo_reply room rep in
    (
      echo_refused small d ready fits,
      (d', echo_sent bytes d ready big ∙ run ∙ echo_read v last reply d' c x.holds, x.sent),
    )
