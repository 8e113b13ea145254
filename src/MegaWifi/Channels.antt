-- ===== src/MegaWifi/Channels.antt =====
-- The calls of src/mw/megawifi.c that open or close a channel of src/mw/lsd.c once the module agrees.
use mega_drive_megawifi_appl.Base.{
  ℕ, ◌≡◌, refl, ◌∙◌, ap, Bool, true, false, ltb, set, List, [], ◌∷◌, ◌++◌, length, ◌==◌,
  if◌then◌else◌, done, Bool-cases, inl, inr,
}
use mega_drive_megawifi_appl.Lsd.{Lsd, lsd_ch_enable, lsd_ch_disable}
use mega_drive_megawifi_appl.AppleMidi.{mw_err_none}
use mega_drive_megawifi_appl.MegaWifi.{
  Mw, Act, Post, ◌>>◌, pure, be16, be32, on_reply, fill_command, err_general, command_tout,
  enable_ch, disable_ch,
}
use mega_drive_megawifi_appl.MegaWifi.Codes
use mega_drive_megawifi_appl.MegaWifi.Codes.{MwCommand}
use mega_drive_megawifi_appl.MegaWifi.Exchange.{outcome, sent_of}
use mega_drive_megawifi_appl.MegaWifi.Verdicts.{Replied, HasRoom, exchange}
use mega_drive_megawifi_appl.MegaWifi.Sockets.{mw_close, mw_tcp_bind}
use mega_drive_megawifi_appl.MegaWifi.Http.{mw_http_open, mw_http_ch, http_open_tout}

pub data ChannelRequest : Type 0 where
  bind : (ch port : ℕ) → ChannelRequest
  close : (ch : ℕ) → ChannelRequest
  http_open : (content_len : ℕ) → ChannelRequest

unfoldable pub ask : ChannelRequest → Act ℕ
ask (bind ch port) = mw_tcp_bind ch port
ask (close ch) = mw_close ch
ask (http_open content_len) = mw_http_open content_len

abbrev command : ChannelRequest → MwCommand
command (bind ch port) = Codes.cmd_tcp_bind
command (close ch) = Codes.cmd_close
command (http_open content_len) = Codes.cmd_http_open

-- The data of its message.
abbrev pub asked_data : ChannelRequest → List ℕ
asked_data (bind ch port) = 0 ∷ 0 ∷ 0 ∷ 0 ∷ (be16 port ++ (ch ∷ []))
asked_data (close ch) = ch ∷ []
asked_data (http_open content_len) = be32 content_len

abbrev pub asked_code : ChannelRequest → ℕ
asked_code (bind ch port) = 15
asked_code (close ch) = 17
asked_code (http_open content_len) = 45

-- A channel below 4 takes the value; the link has no other.
abbrev pub with_channel : ℕ → Bool → Lsd → Lsd
with_channel ch enabled link =
    if ltb ch 4 then record link { ch_enable = set link.ch_enable ch enabled } else link

-- What becomes of the channels.
abbrev pub agreed : ChannelRequest → Lsd → Lsd
agreed (bind ch port) link = with_channel ch true link
agreed (close ch) link = with_channel ch false link
agreed (http_open content_len) link = with_channel 3 true link

abbrev switch : ChannelRequest → Act (Unit {0})
switch (bind ch port) = enable_ch ch
switch (close ch) = disable_ch ch
switch (http_open content_len) = enable_ch mw_http_ch

abbrev tout : ChannelRequest → ℕ
tout (http_open content_len) = http_open_tout
tout (bind ch port) = command_tout
tout (close ch) = command_tout

switch_lem :
    (r : ChannelRequest) (d : Mw) → switch r d ≡ done (tt, record d { lsd = agreed r d.lsd })
unfolding enable_ch disable_ch lsd_ch_enable lsd_ch_disable
switch_lem (bind ch port) d = elim (Bool-cases (ltb ch 4)) [ inl t ↦ rw t refl | inr f ↦ rw f refl ]
switch_lem (close ch) d = elim (Bool-cases (ltb ch 4)) [ inl t ↦ rw t refl | inr f ↦ rw f refl ]
switch_lem (http_open content_len) d = refl

code-command : (r : ChannelRequest) → Codes.code (command r) ≡ asked_code r
code-command (bind ch port) = refl
code-command (close ch) = refl
code-command (http_open content_len) = refl

ask_ready :
    (r : ChannelRequest) (d : Mw)
    → d.mw_ready ≡ true
    → ask r d
      ≡ (fill_command (command r) (asked_data r)
            >> on_reply (tout r) err_general (switch r >> pure mw_err_none))
          d
unfolding ask mw_tcp_bind mw_close mw_http_open
ask_ready (bind ch port) d ready = rw ready refl
ask_ready (close ch) d ready = rw ready refl
ask_ready (http_open content_len) d ready = rw ready refl

-- The state after the verdict.
abbrev switched : ℕ → ChannelRequest → Mw → Mw
switched v r d = if v == mw_err_none then record d { lsd = agreed r d.lsd } else d

switched_lem :
    (v : ℕ) (r : ChannelRequest) (d : Mw)
    → (if v == mw_err_none then (switch r >> pure mw_err_none) else pure err_general) d
      ≡ done (outcome v, switched v r d)
switched_lem v r d = elim (Bool-cases (v == mw_err_none)) [
  | inl t ↦ rw (t, switch_lem r d) refl
  | inr f ↦ rw f refl
]

-- Binding a socket, closing one and opening an HTTP connection, the module ready, hand their message to
-- the link and return MW_ERR_NONE or MW_ERR as the first post decides that is no network data on another
-- channel. With MW_ERR_NONE a channel below 4 is enabled, or for a close disabled, while for a higher one
-- nothing changes; with MW_ERR nothing changes. The link is idle, with the control channel enabled, and
-- the command buffer has at least 972 bytes.
pub ask-channel :
    (r : ChannelRequest) (v : ℕ) (last : List ℕ) (rest : List Post) (d : Mw)
    → d.mw_ready ≡ true
    → HasRoom (asked_data r) d
    → Replied d.posts v last rest
    → (d' : Mw) × (ask r d ≡ done (outcome v, d'))
      × (sent_of d'.calls
          ≡ (0, be16 (asked_code r) ++ (be16 (length (asked_data r)) ++ asked_data r))
            ∷ sent_of d.calls)
      × (d'.lsd ≡ (if v == mw_err_none then agreed r d.lsd else d.lsd))
ask-channel r v last rest d ready room rep =
    let (d', run, x) =
      exchange (command r) (asked_data r) (tout r) v last rest d err_general
        (switch r >> pure mw_err_none) room rep in
    let sent = rw (code-command r) at x.sent in
    (
      switched v r d',
      ask_ready r d ready ∙ run ∙ switched_lem v r d',
      elim (Bool-cases (v == mw_err_none)) [ inl t ↦ rw t sent | inr f ↦ rw f sent ],
      elim (Bool-cases (v == mw_err_none)) [
        | inl t ↦ rw t (ap (agreed r) x.link)
        | inr f ↦ rw f x.link
      ],
    )
