-- ===== src/MegaWifi.antt =====
-- src/mw/megawifi.c: the calls of the MegaWiFi API, and the exchange of commands and replies under them.
-- The static `d` is the record `Mw`; `*d.cmd` is a list of bytes, as long as the buffer that `mw_init`
-- was given and big-endian as on the 68000. Writes and reads past it fault, and a pointer into it is an
-- offset. What happens while `loop_pend` waits is a list of posts, and the calls of src/mw/lsd.c and
-- src/mw/loop.c that leave the module are logged, the latest first.
pub mod Codes
pub mod Transfer
pub mod Setup
pub mod Wireless
pub mod Scan
pub mod Names
pub mod Sockets
pub mod Services
pub mod Flash
pub mod Http
pub mod Game
pub mod Poll
pub mod Exchange
pub mod Requests
pub mod Verdicts
pub mod Chunks
pub mod Waiting
pub mod Channels
pub mod Queries
pub mod Detection
pub mod Direct
use mega_drive_megawifi_appl.Base.{
  ℕ, zero, suc, ◌+◌, ◌-◌, ◌*◌, ◌/◌, ◌%◌, ◌^◌, ◌≤◌, Bool, true, false, not, ◌&&◌, ◌||◌, Option, none,
  some, List, [], ◌∷◌, ◌++◌, length, take, drop, replicate, ltb, leb, ◌==◌, if◌then◌else◌, Outcome,
  done, fault, dead, spent, read,
}
use mega_drive_megawifi_appl.Lsd.{
  Lsd, LsdStatus, busy, lsd_send, lsd_init, lsd_ch_enable, lsd_ch_disable,
}
use mega_drive_megawifi_appl.AppleMidi.{mw_err_none}
use mega_drive_megawifi_appl.MegaWifi.Codes.{MwCommand, code, cmd_ok, cmd_version}

-- enum mw_err.
abbrev pub err_general : ℕ
err_general = 1

abbrev pub err_not_ready : ℕ
err_not_ready = 2

abbrev pub err_buffer_too_short : ℕ
err_buffer_too_short = 3

abbrev pub err_param : ℕ
err_param = 4

abbrev pub err_send : ℕ
err_send = 5

abbrev pub err_recv : ℕ
err_recv = 6

abbrev pub fps : ℕ
fps = 60

abbrev pub ms_to_frames : ℕ → ℕ
ms_to_frames ms = (ms * fps / 500 + 1) / 2

abbrev pub command_tout : ℕ
command_tout = ms_to_frames 1000

abbrev pub mw_ctrl_ch : ℕ
mw_ctrl_ch = 0

abbrev pub mw_cmd_min_buflen : ℕ
mw_cmd_min_buflen = 168

-- `sizeof(mw_cmd)`, which its largest member gives: the four bytes of the head and a gamertag set.
abbrev pub mw_cmd_size : ℕ
mw_cmd_size = 972

-- enum cmd_stat, the values that the module's callbacks post.
pub data CmdStat : Type 0 where
  posted_ok posted_timeout posted_proto : CmdStat

-- The end of a `loop_pend`: the value posted and, where a reception was under way, the channel and the
-- bytes that `lsd_recv` has put into the buffer.
pub record Post : Type 0 where
  pub stat : CmdStat
  pub ch : ℕ
  pub bytes : List ℕ

pub data Call : Type 0 where
  lsd_sent : ℕ → List ℕ → Call
  timer_started : ℕ → Call
  data_called : ℕ → ℕ → Call
  timer_added module_reset bits_cleared module_started fifos_reset : Call

pub record Mw : Type 0 where
  pub cmd : List ℕ
  pub buf_len : ℕ
  pub mw_ready : Bool
  pub cmd_data_cb : Bool
  pub lsd : Lsd
  pub posts : List Post
  pub calls : List Call

abbrev pub log_call : Call → Mw → Mw
log_call c d = record d { calls = c ∷ d.calls }

abbrev pub Act : Type 0 → Type 0
Act A = Mw → Outcome (A × Mw)

abbrev pub continue : {A B : Type 0} → Outcome (A × Mw) → (A → Act B) → Outcome (B × Mw)
continue (done (a, d)) f = f a d
continue fault f = fault
continue dead f = dead
continue spent f = spent

infixl 5 ◌>>=◌ ◌>>◌
abbrev pub ◌>>=◌ : {A B : Type 0} → Act A → (A → Act B) → Act B
(m >>= f) d = continue (m d) f

abbrev pub ◌>>◌ : {A B : Type 0} → Act A → Act B → Act B
(m >> n) d = continue (m d) (λ a. n)

abbrev pub pure : {A : Type 0} → A → Act A
pure a d = done (a, d)

abbrev pub call : Call → Act (Unit {0})
call c d = done (tt, log_call c d)

-- `memcpy` to an offset of the command buffer.
unfoldable pub put : ℕ → List ℕ → Act (Unit {0})
put at bytes d =
    if leb (at + length bytes) (length d.cmd)
    then done (tt, record d { cmd = take at d.cmd ++ (bytes ++ drop (at + length bytes) d.cmd) })
    else fault

abbrev pub be16 : ℕ → List ℕ
be16 n = n / 2 ^ 8 % 2 ^ 8 ∷ n % 2 ^ 8 ∷ []

abbrev pub be32 : ℕ → List ℕ
be32 n = n / 2 ^ 24 % 2 ^ 8 ∷ n / 2 ^ 16 % 2 ^ 8 ∷ n / 2 ^ 8 % 2 ^ 8 ∷ n % 2 ^ 8 ∷ []

-- A byte of the command buffer, and the two and four bytes from an offset on.
unfoldable pub byte_at : ℕ → Act ℕ
byte_at at d = elim (read d.cmd at) [
  | done b ↦ done (b, d)
  | fault ↦ fault
  | dead ↦ dead
  | spent ↦ spent
]

abbrev pub word_at : ℕ → Act ℕ
word_at at = do high ← byte_at at; low ← byte_at (at + 1); pure (high * 2 ^ 8 + low)

abbrev pub dword_at : ℕ → Act ℕ
dword_at at = do high ← word_at at; low ← word_at (at + 2); pure (high * 2 ^ 16 + low)

-- `cmd->cmd` and `cmd->data_len`; the data begins at offset 4.
abbrev pub reply_code : Act ℕ
reply_code = word_at 0

abbrev pub reply_len : Act ℕ
reply_len = word_at 2

abbrev pub data_offset : ℕ
data_offset = 4

-- A command with its length and data, written into the buffer.
unfoldable pub fill_command : MwCommand → List ℕ → Act (Unit {0})
fill_command c payload = do
  put 0 (be16 (code c))
  put 2 (be16 (length payload))
  put data_offset payload

abbrev pub is_busy : LsdStatus → Bool
is_busy busy = true
is_busy _ = false

-- `mw_cmd_send(d.cmd, NULL, NULL)`: the command is handed over as long as its head says, if `lsd_send`
-- takes it; what it returns is not looked at. A command that is taken is all sent, and the link idle again,
-- before anything is received into the same buffer. Lengths are below 2 ^ 15, as an `int16_t` holds them.
unfoldable pub mw_cmd_send : Act (Unit {0})
mw_cmd_send = do
  len ← reply_len
  λ d.
      if not (is_busy ((lsd_send mw_ctrl_ch d.cmd (len + 4) false d.lsd).0))
      then done (tt, d)
      else if leb (len + 4) (length d.cmd)
      then done (tt, log_call (lsd_sent mw_ctrl_ch (take (len + 4) d.cmd)) d)
      else fault

unfoldable pub pend : Act Post
pend d = elim d.posts [ [] ↦ spent | p ∷ ps ↦ done (p, record d { posts = ps }) ]

abbrev pub is_posted_ok : CmdStat → Bool
is_posted_ok posted_ok = true
is_posted_ok _ = false

-- Network data that comes while a reply is awaited.
abbrev pub pass_data : Post → Mw → Mw
pass_data p d = if d.cmd_data_cb then log_call (data_called p.ch (length p.bytes)) d else d

-- The loop of `mw_command`, over the posts to come.
unfoldable pub await_reply : List Post → ℕ → Act ℕ
await_reply [] tout d = spent
await_reply (p ∷ ps) tout d =
    continue
      (put 0 (take mw_cmd_size p.bytes) (log_call (timer_started tout) (record d { posts = ps })))
      (λ u d'.
        let more = await_reply ps tout (pass_data p d') in
        if not (is_posted_ok p.stat)
        then done (err_recv, d')
        else if p.ch == mw_ctrl_ch
        then (reply_code >>= λ c. pure (if c == code cmd_ok then mw_err_none else err_recv)) d'
        else more)

unfoldable pub mw_command : ℕ → Act ℕ
mw_command tout = mw_cmd_send >> λ d. await_reply d.posts tout d

-- `if (!d.mw_ready) { return refused; }`.
abbrev pub when_ready : {A : Type 0} → A → Act A → Act A
when_ready refused act d = if d.mw_ready then act d else done (refused, d)

-- `err = mw_command(tout); if (err) { return failed; }` and what follows.
abbrev pub on_reply : {A : Type 0} → ℕ → A → Act A → Act A
on_reply tout failed act = do err ← mw_command tout; if err == mw_err_none then act else pure failed

-- Most calls: a command, its reply, and MW_ERR_NONE or MW_ERR.
abbrev pub request : MwCommand → List ℕ → ℕ → Act ℕ
request c payload tout = do fill_command c payload; on_reply tout err_general (pure mw_err_none)

unfoldable pub enable_ch : ℕ → Act (Unit {0})
enable_ch ch d = done (tt, record d { lsd = (lsd_ch_enable ch d.lsd).1 })

unfoldable pub disable_ch : ℕ → Act (Unit {0})
disable_ch ch d = done (tt, record d { lsd = (lsd_ch_disable ch d.lsd).1 })
