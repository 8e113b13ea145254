-- ===== src/MegaWifi/Detection.antt =====
-- How `mw_detect` of src/mw/megawifi.c looks for the module.
use mathlib.Core.Path.{subst}
use mega_drive_megawifi_appl.Base.{
  ℕ, zero, suc, ◌+◌, ◌-◌, ◌≤◌, ◌≡◌, refl, ◌≢◌, ◌∙◌, sym, true, false, none, some, List, [], ◌∷◌,
  ◌++◌, length, take, All, ◌==◌, if◌then◌else◌, done, arith, ne→==,
}
use mega_drive_megawifi_appl.AppleMidi.{mw_err_none}
use mega_drive_megawifi_appl.MegaWifi.{
  Mw, Act, Post, fifos_reset, module_started, timer_started, ◌>>=◌, ◌>>◌, pure, pend, byte_at,
  fill_command, mw_command, command_tout, log_call, data_offset,
}
use mega_drive_megawifi_appl.MegaWifi.Codes.{cmd_version}
use mega_drive_megawifi_appl.MegaWifi.Exchange.{
  Exchanged, Final, LinkOpen, Small, sent_of, fill_command_lem, mw_command-Exchanged,
}
use mega_drive_megawifi_appl.MegaWifi.Verdicts.{Replied, HasRoom}
use mega_drive_megawifi_appl.MegaWifi.Transfer.{mw_sleep}
use mega_drive_megawifi_appl.MegaWifi.Setup.{
  Version, mw_version_get, attempt, detect_rounds, mw_detect,
}
use mega_drive_megawifi_appl.MegaWifi.Queries.{held}

-- The question for the version, as it is sent.
abbrev pub question : ℕ × List ℕ
question = (0, 0 ∷ 1 ∷ 0 ∷ 0 ∷ [])

-- The version in the reply.
abbrev version_read : Act Version
version_read = do
  major ← byte_at data_offset
  minor ← byte_at (data_offset + 1)
  patch ← byte_at (data_offset + 2)
  pure (mw_err_none, major ∷ minor ∷ patch ∷ [], some (data_offset + 3))

abbrev after_version : ℕ → Act Version
after_version v = if v == mw_err_none then version_read else pure (v, [], none)

version_ready :
    (d : Mw)
    → d.mw_ready ≡ true
    → attempt d
      ≡ (fill_command cmd_version [] >> (mw_command command_tout >>= after_version))
          (log_call fifos_reset d)
unfolding mw_version_get
version_ready d ready = rw ready refl

-- An attempt, with what is posted meanwhile.
attempt_lem :
    (v : ℕ) (last : List ℕ) (rest : List Post) (d : Mw)
    → d.mw_ready ≡ true
    → HasRoom [] d
    → Replied d.posts v last rest
    → (d' : Mw) × (attempt d ≡ after_version v d') × Exchanged cmd_version [] last rest d d'
attempt_lem v last rest d ready room r =
    let e : Mw = log_call fifos_reset d in
    let (d', run, x) =
      mw_command-Exchanged cmd_version [] r.others r.final rest command_tout v e room.fits
        room.open_link room.reply_fits r.passing r.decides r.small r.order in
    let x' = rw r.bytes at x in
    (
      d',
      version_ready d ready ∙ rw (fill_command_lem cmd_version [] e room.fits, run) refl,
      record {
        left = x'.left;
        sent = x'.sent;
        size = x'.size;
        holds = x'.holds;
        ready = x'.ready;
        link = x'.link;
        buf = x'.buf;
      },
    )

-- What the attempt that ends the search finds, after how many that failed: the version, or, if it is
-- the fifth, that there is still no reply.
pub data Found : ℕ → ℕ → List ℕ → Version → Type 0 where
  found :
      (k c1 c0 l1 l0 major minor patch : ℕ) (others : List ℕ)
      → k ≤ 4
      → Found k mw_err_none
          (c1 ∷ c0 ∷ l1 ∷ l0 ∷ major ∷ minor ∷ patch ∷ others)
          (mw_err_none, major ∷ minor ∷ patch ∷ [], some 7)
  given_up : (v : ℕ) (last : List ℕ) → v ≢ mw_err_none → Found 4 v last (v, [], none)

-- A post that ends an attempt with an error: no reply, or a reply that is no MW_CMD_OK.
abbrev pub Failing : Post → Type 0
Failing p = (v : ℕ) × Final p v × (v ≢ mw_err_none) × Small p

failing_reply :
    (p : Post) (v : ℕ) (ps posts : List Post)
    → Final p v
    → Small p
    → posts ≡ p ∷ ps
    → Replied posts v p.bytes ps
failing_reply p v ps posts f s e = record {
  others = [];
  final = p;
  passing = tt;
  decides = f;
  small = s;
  bytes = refl;
  order = e;
}

abbrev pub repeated : {A : Type 0} → ℕ → A → List A → List A
repeated zero x xs = xs
repeated (suc n) x xs = repeated n x (x ∷ xs)

version-Found :
    (k v : ℕ) (last : List ℕ) (version : Version) (n : ℕ) (d : Mw)
    → Found k v last version
    → k + n ≡ 4
    → (dn : Mw) → attempt dn ≡ after_version v d
    → take (length last) d.cmd ≡ last
    → detect_rounds n dn ≡ done (version, d)
unfolding detect_rounds byte_at
version-Found k v last version zero d (found _ c1 c0 l1 l0 a b p others h) e dn run holds =
    run ∙ rw (held last d.cmd holds) refl
version-Found k v last version (suc n) d (found _ c1 c0 l1 l0 a b p others h) e dn run holds =
    rw (run, held last d.cmd holds) refl
version-Found k v last version zero d (given_up _ _ ne) e dn run holds =
    run ∙ rw (ne→== v 0 ne) refl
version-Found k v last version (suc n) d (given_up _ _ ne) e dn run holds = absurd (omega arith)

detect_rounds-again :
    (n v : ℕ) (d d1 : Mw)
    → v ≢ mw_err_none
    → attempt d ≡ after_version v d1
    → detect_rounds (suc n) d ≡ detect_rounds n d1
unfolding detect_rounds
detect_rounds-again n v d d1 ne run =
    let nz : (v == 0) ≡ false = ne→== v 0 ne in rw run (rw nz (rw nz refl))

detect_rounds-Found :
    (fails : List Post) (k v : ℕ) (last : List ℕ) (version : Version) (rest later : List Post)
    (n : ℕ) (d : Mw)
    → Found k v last version
    → k ≡ (4 - n) + length fails
    → length fails ≤ n
    → n ≤ 4
    → d.mw_ready ≡ true
    → HasRoom [] d
    → All Failing fails
    → d.posts ≡ fails ++ later
    → Replied later v last rest
    → (d' : Mw) × (detect_rounds n d ≡ done (version, d'))
      × (sent_of d'.calls ≡ repeated (suc (length fails)) question (sent_of d.calls))
      × (d'.posts ≡ rest)
unfolding detect_rounds
detect_rounds-Found [] k v last version rest later n d f e le n4 ready room failing posts r =
    let (d', run, x) = attempt_lem v last rest d ready room (rw (sym posts) at r) in
    (d', version-Found k v last version n d' f (omega arith) d run x.holds, x.sent, x.left)
detect_rounds-Found (p ∷ fails) k v last version rest later zero d f e le n4 ready room failing
      posts r =
    absurd (omega arith)
detect_rounds-Found (p ∷ fails) k v last version rest later (suc n) d f e le n4 ready room failing
      posts r =
    let (v1, final, ne, small) = failing.0 in
    let (d1, run, x) =
      attempt_lem v1 p.bytes (fails ++ later) d ready room
        (failing_reply p v1 (fails ++ later) d.posts final small posts) in
    let room1 : HasRoom [] d1 = record {
      fits = omega (arith, room.fits, x.size);
      open_link = subst (LinkOpen 4) (sym x.link) room.open_link;
      reply_fits = omega (arith, room.reply_fits, x.size);
    } in
    let (d', run', sent, left) =
      detect_rounds-Found fails k v last version rest later n d1 f (omega arith) (omega arith)
        (omega arith) (x.ready ∙ ready) room1 (failing.1) x.left r in
    (d', detect_rounds-again n v1 d d1 ne run ∙ run', rw x.sent at sent, left)

-- The state after the two waits.
abbrev rested : List Post → Mw → Mw
rested posts d = record d {
  posts = posts;
  calls = timer_started 60 ∷ module_started ∷ timer_started 2 ∷ d.calls;
}

mw_detect-rested :
    (p q : Post) (later : List Post) (d : Mw)
    → d.posts ≡ p ∷ q ∷ later
    → mw_detect d ≡ detect_rounds 4 (rested later d)
unfolding mw_detect mw_sleep pend
mw_detect-rested p q later d e = rw e refl

-- `mw_detect`, once set up, waits twice and then asks for the version, at most five times, until a reply
-- of MW_CMD_OK decides an attempt: it returns the version of that reply, or else the error of the fifth
-- attempt, and has then asked once more than attempts failed. An attempt before the last fails at the
-- first post, by a timeout, an error of the link or a reply that is no MW_CMD_OK. The link is idle, with
-- the control channel enabled, and the command buffer has at least 972 bytes.
pub mw_detect-Found :
    (p q : Post) (fails : List Post) (v : ℕ) (last : List ℕ) (version : Version)
    (rest later : List Post) (d : Mw)
    → Found (length fails) v last version
    → length fails ≤ 4
    → d.mw_ready ≡ true
    → HasRoom [] d
    → All Failing fails
    → d.posts ≡ p ∷ q ∷ (fails ++ later)
    → Replied later v last rest
    → (d' : Mw) × (mw_detect d ≡ done (version, d'))
      × (sent_of d'.calls ≡ repeated (suc (length fails)) question (sent_of d.calls))
      × (d'.posts ≡ rest)
mw_detect-Found p q fails v last version rest later d f le ready room failing posts r =
    let room' : HasRoom [] (rested (fails ++ later) d) = record {
      fits = room.fits;
      open_link = room.open_link;
      reply_fits = room.reply_fits;
    } in
    let (d', run, sent, left) =
      detect_rounds-Found fails (length fails) v last version rest later 4
        (rested (fails ++ later) d) f (omega arith) le (omega arith) ready room' failing refl r in
    (d', mw_detect-rested p q (fails ++ later) d posts ∙ run, sent, left)
