-- ===== src/MegaWifi/Exchange.antt =====
-- A command and its reply in src/mw/megawifi.c: what is handed to the link, and what comes of the posts.
use mega_drive_megawifi_appl.Base.{
  ℕ, zero, suc, ◌+◌, ◌*◌, ◌/◌, ◌%◌, ◌^◌, ◌≤◌, ◌≡◌, refl, ◌≢◌, ◌∙◌, ap, true, false, List, [], ◌∷◌,
  ◌++◌, length, take, drop, All, ◌==◌, if◌then◌else◌, done, arith, le→leb, ne→==, eq→==,
  length-append, length-take, length-drop, take-append, Bool-cases, inl, inr,
}
use mega_drive_megawifi_appl.Lsd.{Lsd, send_idle, usable, lsd_send}
use mega_drive_megawifi_appl.Lsd.Send.{lsd_send-taken}
use mega_drive_megawifi_appl.AppleMidi.{mw_err_none}
use mega_drive_megawifi_appl.MegaWifi.{
  Mw, Post, Call, lsd_sent, timer_started, data_called, log_call, put, be16, byte_at, fill_command,
  mw_cmd_send, is_busy, is_posted_ok, pass_data, await_reply, mw_command, mw_cmd_size, mw_ctrl_ch,
  err_recv, err_general,
}
use mega_drive_megawifi_appl.MegaWifi.Codes.{MwCommand, code}

take-all : (n : ℕ) (xs : List ℕ) → length xs ≤ n → take n xs ≡ xs
take-all zero [] h = refl
take-all zero (x ∷ xs) h = absurd (omega arith)
take-all (suc n) [] h = refl
take-all (suc n) (x ∷ xs) h = ap (λ l. x ∷ l) (take-all n xs (omega arith))

-- The command buffer with bytes put in.
abbrev pub placed : ℕ → List ℕ → List ℕ → List ℕ
placed at bytes buffer = take at buffer ++ (bytes ++ drop (at + length bytes) buffer)

pub put_fits :
    (at : ℕ) (bytes : List ℕ) (d : Mw)
    → at + length bytes ≤ length d.cmd
    → put at bytes d ≡ done (tt, record d { cmd = placed at bytes d.cmd })
unfolding put
put_fits at bytes d h = rw (le→leb (at + length bytes) (length d.cmd) h) refl

pub length-placed :
    (at : ℕ) (bytes buffer : List ℕ)
    → at + length bytes ≤ length buffer
    → length (placed at bytes buffer) ≡ length buffer
length-placed at bytes buffer h = omega (
  arith,
  length-append (take at buffer) (bytes ++ drop (at + length bytes) buffer),
  length-append bytes (drop (at + length bytes) buffer),
  length-take at buffer,
  length-drop (at + length bytes) buffer,
)

-- The head and the data of a command.
abbrev pub packet : MwCommand → List ℕ → List ℕ
packet c payload = be16 (code c) ++ (be16 (length payload) ++ payload)

-- The command stands in the buffer.
abbrev pub filled : MwCommand → List ℕ → Mw → Mw
filled c payload d = record d { cmd = packet c payload ++ drop (4 + length payload) d.cmd }

fill_buffer :
    (c : MwCommand) (payload buffer : List ℕ) (d : Mw)
    → 4 + length payload ≤ length buffer
    → fill_command c payload (record d { cmd = buffer })
      ≡ done (tt, filled c payload (record d { cmd = buffer }))
unfolding fill_command
fill_buffer c payload [] d h = absurd (omega arith)
fill_buffer c payload (b ∷ []) d h = absurd (omega arith)
fill_buffer c payload (b ∷ b' ∷ []) d h = absurd (omega arith)
fill_buffer c payload (b ∷ b' ∷ b'' ∷ []) d h = absurd (omega arith)
fill_buffer c payload (b ∷ b' ∷ b'' ∷ e ∷ rest) d h =
    let skip : 4 + length payload ≡ suc (suc (suc (suc (length payload)))) = omega arith in
    rw
      (
        put_fits 0 (be16 (code c)) (record d { cmd = b ∷ b' ∷ b'' ∷ e ∷ rest }) (omega arith),
        put_fits 2 (be16 (length payload)) (record d { cmd = be16 (code c) ++ (b'' ∷ e ∷ rest) })
            (omega arith),
        put_fits 4 payload (record d { cmd = be16 (code c) ++ (be16 (length payload) ++ rest) })
            (omega arith),
        skip,
      )
      refl

pub fill_command_lem :
    (c : MwCommand) (payload : List ℕ) (d : Mw)
    → 4 + length payload ≤ length d.cmd
    → fill_command c payload d ≡ done (tt, filled c payload d)
fill_command_lem c payload d h = fill_buffer c payload d.cmd d h

-- And it is handed to the link.
abbrev pub handed : MwCommand → List ℕ → Mw → Mw
handed c payload d = log_call (lsd_sent mw_ctrl_ch (packet c payload)) (filled c payload d)

-- The link takes so many bytes on the control channel.
pub record LinkOpen (n : ℕ) (link : Lsd) : Type 0 where
  pub idle : link.tx.stat ≡ send_idle
  pub control : usable link 0 ≡ true
  pub short : n ≤ 4095

LinkOpen-busy :
    (n : ℕ) (bytes : List ℕ) (link : Lsd)
    → LinkOpen n link
    → is_busy ((lsd_send mw_ctrl_ch bytes n false link).0) ≡ true
LinkOpen-busy n bytes link o =
    ap (λ r. is_busy (r.0))
      (lsd_send-taken mw_ctrl_ch n bytes false link o.idle o.control (omega (arith, o.short)))

mw_cmd_send-filled :
    (c : MwCommand) (payload : List ℕ) (d : Mw)
    → 4 + length payload ≤ length d.cmd
    → LinkOpen (length payload + 4) d.lsd
    → mw_cmd_send (filled c payload d) ≡ done (tt, handed c payload d)
unfolding mw_cmd_send byte_at
mw_cmd_send-filled c payload d h open_link =
    let small : length payload ≤ 4091 = omega (arith, open_link.short) in
    let len : length payload / 2 ^ 8 % 2 ^ 8 * 2 ^ 8 + length payload % 2 ^ 8 ≡ length payload =
      omega arith in
    let whole : length payload + 4 ≡ length (packet c payload) = omega arith in
    let room : length payload + 4 ≤ length ((filled c payload d).cmd) =
      omega (arith, length-append payload (drop (4 + length payload) d.cmd)) in
    rw
      (
        len,
        LinkOpen-busy (length payload + 4) ((filled c payload d).cmd) d.lsd open_link,
        le→leb _ _ room,
        take-append (packet c payload) (drop (4 + length payload) d.cmd) (length payload + 4) whole,
      )
      refl

-- What a command and the wait for its reply come to, once the command stands in the buffer.
mw_command-filled :
    (c : MwCommand) (payload : List ℕ) (tout : ℕ) (d : Mw)
    → 4 + length payload ≤ length d.cmd
    → LinkOpen (length payload + 4) d.lsd
    → mw_command tout (filled c payload d) ≡ await_reply d.posts tout (handed c payload d)
unfolding mw_command
mw_command-filled c payload tout d h small = rw (mw_cmd_send-filled c payload d h small) refl

-- A post that ends the wait for a reply, and the result: a failure, or a packet on the control channel,
-- which begins with its code.
pub data Final (p : Post) : ℕ → Type 0 where
  failed : is_posted_ok p.stat ≡ false → Final p err_recv
  answered :
      (high low : ℕ) (others : List ℕ)
      → is_posted_ok p.stat ≡ true
      → p.ch ≡ mw_ctrl_ch
      → p.bytes ≡ high ∷ low ∷ others
      → Final p (if high * 2 ^ 8 + low == 0 then mw_err_none else err_recv)

-- A packet of network data on another channel.
pub record Passing (p : Post) : Type 0 where
  pub complete : is_posted_ok p.stat ≡ true
  pub other_ch : p.ch ≢ mw_ctrl_ch

abbrev pub Small : Post → Type 0
Small p = length p.bytes ≤ mw_cmd_size

-- The commands and data handed to the link, the latest first.
abbrev pub sent_of : List Call → List (ℕ × List ℕ)
sent_of [] = []
sent_of (lsd_sent ch bytes ∷ calls) = (ch, bytes) ∷ sent_of calls
sent_of (timer_started frames ∷ calls) = sent_of calls
sent_of (data_called ch len ∷ calls) = sent_of calls
sent_of (Call.timer_added ∷ calls) = sent_of calls
sent_of (Call.module_reset ∷ calls) = sent_of calls
sent_of (Call.bits_cleared ∷ calls) = sent_of calls
sent_of (Call.module_started ∷ calls) = sent_of calls
sent_of (Call.fifos_reset ∷ calls) = sent_of calls

-- How the state after a wait lies to that before it: the posts are used up to the last, nothing was
-- handed to the link, the buffer begins with the last post's bytes, and the rest of the state is kept.
pub record After (last : List ℕ) (rest : List Post) (d d' : Mw) : Type 0 where
  pub left : d'.posts ≡ rest
  pub quiet : sent_of d'.calls ≡ sent_of d.calls
  pub size : length d'.cmd ≡ length d.cmd
  pub holds : take (length last) d'.cmd ≡ last
  pub ready : d'.mw_ready ≡ d.mw_ready
  pub link : d'.lsd ≡ d.lsd
  pub buf : d'.buf_len ≡ d.buf_len

-- The state once a post's bytes stand in the buffer.
abbrev taken_in : Post → List Post → ℕ → Mw → Mw
taken_in p ps tout d = record (log_call (timer_started tout) (record d { posts = ps })) {
  cmd = placed 0 p.bytes d.cmd;
}

put-post :
    (p : Post) (ps : List Post) (tout : ℕ) (d : Mw)
    → Small p
    → mw_cmd_size ≤ length d.cmd
    → put 0 (take mw_cmd_size p.bytes) (log_call (timer_started tout) (record d { posts = ps }))
      ≡ done (tt, taken_in p ps tout d)
put-post p ps tout d small room =
    rw
      (
        take-all mw_cmd_size p.bytes small,
        put_fits 0 p.bytes (log_call (timer_started tout) (record d { posts = ps })) (omega arith),
      )
      refl

taken_in-After :
    (p : Post) (ps : List Post) (tout : ℕ) (d : Mw)
    → Small p
    → mw_cmd_size ≤ length d.cmd
    → After p.bytes ps d (taken_in p ps tout d)
taken_in-After p ps tout d small room = record {
  left = refl;
  quiet = refl;
  size = length-placed 0 p.bytes d.cmd (omega arith);
  holds = take-append p.bytes (drop (0 + length p.bytes) d.cmd) (length p.bytes) refl;
  ready = refl;
  link = refl;
  buf = refl;
}

await_reply-Final :
    (p : Post) (ps : List Post) (tout v : ℕ) (d : Mw)
    → Final p v
    → Small p
    → mw_cmd_size ≤ length d.cmd
    → await_reply (p ∷ ps) tout d ≡ done (v, taken_in p ps tout d)
unfolding await_reply byte_at
await_reply-Final p ps tout v d (failed f) small room = rw (put-post p ps tout d small room, f) refl
await_reply-Final p ps tout v d (answered high low others ok ch e) small room =
    rw (put-post p ps tout d small room, ok, eq→== p.ch 0 ch, e) refl

await_reply-Passing :
    (p : Post) (ps : List Post) (tout : ℕ) (d : Mw)
    → Passing p
    → Small p
    → mw_cmd_size ≤ length d.cmd
    → await_reply (p ∷ ps) tout d ≡ await_reply ps tout (pass_data p (taken_in p ps tout d))
unfolding await_reply
await_reply-Passing p ps tout d v small room =
    rw (put-post p ps tout d small room, v.complete, ne→== p.ch 0 v.other_ch) refl

-- What a passing post leaves of the state, whether or not there is a callback for its data.
record Kept (d e : Mw) : Type 0 where
  quiet : sent_of e.calls ≡ sent_of d.calls
  size : length e.cmd ≡ length d.cmd
  ready : e.mw_ready ≡ d.mw_ready
  link : e.lsd ≡ d.lsd
  buf : e.buf_len ≡ d.buf_len

pass_data-Kept :
    (p : Post) (ps : List Post) (tout : ℕ) (d : Mw)
    → Small p
    → mw_cmd_size ≤ length d.cmd
    → Kept d (pass_data p (taken_in p ps tout d))
pass_data-Kept p ps tout d small room = elim (Bool-cases d.cmd_data_cb) [
  | inl t ↦ rw t (record { quiet = refl; size = same; ready = refl; link = refl; buf = refl })
  | inr f ↦ rw f (record { quiet = refl; size = same; ready = refl; link = refl; buf = refl })
]
  where
    same : length (placed 0 p.bytes d.cmd) ≡ length d.cmd
    same = length-placed 0 p.bytes d.cmd (omega arith)

After-Kept :
    (last : List ℕ) (rest : List Post) (d e d' : Mw)
    → Kept d e
    → After last rest e d'
    → After last rest d d'
After-Kept last rest d e d' k a = record {
  left = a.left;
  quiet = a.quiet ∙ k.quiet;
  size = a.size ∙ k.size;
  holds = a.holds;
  ready = a.ready ∙ k.ready;
  link = a.link ∙ k.link;
  buf = a.buf ∙ k.buf;
}

-- Network data that comes in between is passed on, and the first other post decides.
pub await_reply-After :
    (others : List Post) (p : Post) (rest : List Post) (tout v : ℕ) (d : Mw)
    → All (λ q. Passing q × Small q) others
    → Final p v
    → Small p
    → mw_cmd_size ≤ length d.cmd
    → (d' : Mw) × (await_reply (others ++ (p ∷ rest)) tout d ≡ done (v, d'))
      × After p.bytes rest d d'
await_reply-After [] p rest tout v d hs f small room = (
  taken_in p rest tout d,
  await_reply-Final p rest tout v d f small room,
  taken_in-After p rest tout d small room,
)
await_reply-After (q ∷ others) p rest tout v d hs f small room =
    let e : Mw = pass_data q (taken_in q (others ++ (p ∷ rest)) tout d) in
    let k : Kept d e = pass_data-Kept q (others ++ (p ∷ rest)) tout d (hs.0.1) room in
    let (d', run, a) =
      await_reply-After others p rest tout v e (hs.1) f small (omega (arith, k.size)) in
    (
      d',
      await_reply-Passing q (others ++ (p ∷ rest)) tout d (hs.0.0) (hs.0.1) room ∙ run,
      After-Kept p.bytes rest d e d' k a,
    )

-- What a request comes to, once its reply is in: MW_ERR for any error.
abbrev pub outcome : ℕ → ℕ
outcome v = if v == mw_err_none then mw_err_none else err_general

-- A request, from the state in which it is made to that in which it returns: its command is handed to
-- the link, once and alone, on the control channel, and the posts decide.
pub record Exchanged (c : MwCommand) (payload last : List ℕ) (rest : List Post) (d d' : Mw)
    : Type 0 where
  pub left : d'.posts ≡ rest
  pub sent : sent_of d'.calls ≡ (mw_ctrl_ch, packet c payload) ∷ sent_of d.calls
  pub size : length d'.cmd ≡ length d.cmd
  pub holds : take (length last) d'.cmd ≡ last
  pub ready : d'.mw_ready ≡ d.mw_ready
  pub link : d'.lsd ≡ d.lsd
  pub buf : d'.buf_len ≡ d.buf_len

-- What all commands rest on: with the command in the buffer, `mw_command` hands it over whole and
-- returns what the first post decides that is no network data on another channel.
pub mw_command-Exchanged :
    (c : MwCommand) (payload : List ℕ) (others : List Post) (p : Post) (rest : List Post)
    (tout v : ℕ) (d : Mw)
    → 4 + length payload ≤ length d.cmd
    → LinkOpen (length payload + 4) d.lsd
    → mw_cmd_size ≤ length d.cmd
    → All (λ q. Passing q × Small q) others
    → Final p v
    → Small p
    → d.posts ≡ others ++ (p ∷ rest)
    → (d' : Mw) × (mw_command tout (filled c payload d) ≡ done (v, d'))
      × Exchanged c payload p.bytes rest d d'
mw_command-Exchanged c payload others p rest tout v d fits small room hs f sp e =
    let same : length ((handed c payload d).cmd) ≡ length d.cmd = omega (
      arith,
      length-append payload (drop (4 + length payload) d.cmd),
      length-drop (4 + length payload) d.cmd,
    ) in
    let (d', run, a) =
      await_reply-After others p rest tout v (handed c payload d) hs f sp (omega (arith, same)) in
    (
      d',
      mw_command-filled c payload tout d fits small
          ∙ ap (λ ps. await_reply ps tout (handed c payload d)) e
          ∙ run,
      record {
        left = a.left;
        sent = a.quiet;
        size = a.size ∙ same;
        holds = a.holds;
        ready = a.ready;
        link = a.link;
        buf = a.buf;
      },
    )
