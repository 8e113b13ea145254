-- ===== src/MegaWifi/Verdicts.antt =====
-- What the calls of src/mw/megawifi.c return once the module's reply is in.
use mega_drive_megawifi_appl.Base.{
  ℕ, ◌+◌, ◌≤◌, ◌≡◌, refl, ◌∙◌, true, List, ◌∷◌, ◌++◌, length, All, ◌==◌, if◌then◌else◌, done,
  Bool-cases, inl, inr,
}
use mega_drive_megawifi_appl.AppleMidi.{mw_err_none}
use mega_drive_megawifi_appl.MegaWifi.{
  Mw, Act, Post, ◌>>◌, pure, be16, on_reply, fill_command, err_general, mw_cmd_size, mw_ctrl_ch,
}
use mega_drive_megawifi_appl.MegaWifi.Codes.{MwCommand}
use mega_drive_megawifi_appl.MegaWifi.Exchange.{
  Final, Passing, LinkOpen, Small, Exchanged, outcome, fill_command_lem, mw_command-Exchanged,
  sent_of,
}
use mega_drive_megawifi_appl.MegaWifi.Requests.{
  Request, perform, in_range, wire_code, wire_data, command_of, tout_of, code-command_of,
  perform-request,
}

-- What the posts hold for a request: network data of other channels, then the post that decides.
pub record Replied (posts : List Post) (v : ℕ) (last : List ℕ) (rest : List Post) : Type 0 where
  pub others : List Post
  pub final : Post
  pub passing : All (λ q. Passing q × Small q) others
  pub decides : Final final v
  pub small : Small final
  pub bytes : final.bytes ≡ last
  pub order : posts ≡ others ++ (final ∷ rest)

-- A state whose command buffer has room for the data and for every reply, and whose link takes the
-- message.
pub record HasRoom (payload : List ℕ) (d : Mw) : Type 0 where
  pub fits : 4 + length payload ≤ length d.cmd
  pub open_link : LinkOpen (length payload + 4) d.lsd
  pub reply_fits : mw_cmd_size ≤ length d.cmd

-- A command that is made ready and replied to, and what the call then goes on with.
pub exchange :
    {A : Type 0} (c : MwCommand) (payload : List ℕ) (tout v : ℕ) (last : List ℕ) (rest : List Post)
    (d : Mw) (refused : A) (act : Act A)
    → HasRoom payload d
    → Replied d.posts v last rest
    → (d' : Mw) × ((fill_command c payload >> on_reply tout refused act) d
        ≡ (if v == mw_err_none then act else pure refused) d')
      × Exchanged c payload last rest d d'
exchange c payload tout v last rest d refused act room r =
    let (d', run, x) =
      mw_command-Exchanged c payload r.others r.final rest tout v d room.fits room.open_link
        room.reply_fits r.passing r.decides r.small r.order in
    (d', rw (fill_command_lem c payload d room.fits, run) refl, rw r.bytes at x)

decided :
    (v : ℕ) (d : Mw)
    → (if v == mw_err_none then pure mw_err_none else pure err_general) d ≡ done (outcome v, d)
decided v d = elim (Bool-cases (v == mw_err_none)) [ inl t ↦ rw t refl | inr f ↦ rw f refl ]

-- The message of a request.
abbrev pub wire : Request → List ℕ
wire r = be16 (wire_code r) ++ (be16 (length (wire_data r)) ++ wire_data r)

-- Every request, its parameters in range and the module ready, hands exactly its message to the link, on
-- the control channel, and returns MW_ERR_NONE or MW_ERR as the first post decides that is no network
-- data on another channel; the posts behind that one are left. The link is idle, with the control channel
-- enabled, the message has at most 4095 bytes, and the command buffer room for it and at least 972 bytes.
pub perform_lem :
    (r : Request) (v : ℕ) (last : List ℕ) (rest : List Post) (d : Mw)
    → d.mw_ready ≡ true
    → in_range r ≡ true
    → HasRoom (wire_data r) d
    → Replied d.posts v last rest
    → (d' : Mw) × (perform r d ≡ done (outcome v, d'))
      × (sent_of d'.calls ≡ (mw_ctrl_ch, wire r) ∷ sent_of d.calls)
      × (d'.posts ≡ rest)
perform_lem r v last rest d ready ok room rep =
    let (d', run, x) =
      exchange (command_of r) (wire_data r) (tout_of r) v last rest d err_general (pure mw_err_none)
        room rep in
    (
      d',
      perform-request r d ready ok ∙ run ∙ decided v d',
      rw (code-command_of r) at x.sent,
      x.left,
    )
