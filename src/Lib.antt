-- ===== src/Lib.antt =====
-- A Mega Drive that takes part in an AppleMIDI session over the MegaWiFi cartridge: the C sources of
-- the repository, as functions on explicit state, and what is proved of them.
--
-- The parts and how they meet. `udp_test` (src/main.c) joins the access point and opens two sockets
-- through the driver, and then calls `mediator_receive` (src/mediator.c) for ever, which takes a UDP
-- packet from the driver and hands it to src/applemidi.c by channel. There, invitations and time
-- synchronisations are answered through the driver, and packets without the AppleMIDI signature go to
-- src/rtpmidi.c, which walks the MIDI command section and gives each byte to `midi_emit` (src/midi.c),
-- which prints it.
-- The driver is src/mw/megawifi.c: each call of its API fills a command into a buffer, hands it to the
-- link and waits for the module's reply in the loop of src/mw/loop.c. Below it, src/mw/lsd.c frames the
-- bytes of the serial line to the WiFi module. src/mw/util.c converts numbers and addresses, and
-- src/mw/mpool.c gives out memory.
--
-- Files:
--   Base       shared names; `Outcome`, how a C call ends (a result, a fault for an access outside the
--              object, `SYS_die`, fuel spent); loops by rounds; list, byte and test lemmas.
--   Machine    the static variables of src/midi.c and src/applemidi.c, the log of the screen and the
--              state of the driver.
--   Midi       src/midi.c; Midi/Rows: its rows stay on the screen.
--   Rtp        src/rtpmidi.c: `process_rtp_midi_packet` and its helpers, on any way to emit a byte.
--              Wire: the wire format, written independently; Rounds, Decode, SysEx: the walk against
--              it; Total, Keeps: how it ends and what it keeps; Limits: where it deviates.
--   Driver     the interface of `mw_send_sync` and `mw_recv_sync` (src/mw/megawifi.c).
--   AppleMidi  src/applemidi.c, packets as the bytes of the unions in applemidi.h, big-endian as on
--              the 68000. Packets: their layout; Invitation, Sync, Dispatch: what is answered to what.
--   Mediator   src/mediator.c; Send, Receive: what it does with any driver.
--   Lsd        src/mw/lsd.c: both state machines, `lsd_send`, `lsd_recv`, and the two loops of
--              `lsd_process` on the bytes that the UART has. Frame: the frames; Send; Fields,
--              Receive, Partial, Overrun: what comes in; Link: both ends. Polling: `lsd_process` as it polls the
--              UART, and the calls that wait, over an interface of the UART; Wire: a line with gaps and
--              busy polls, which fills the interface; Bursts, Sending, Hearing, Awaiting: the polled
--              loops against the two loops above; SendSync, RecvSync: the calls that wait; SyncLink:
--              both ends.
--   Uart       src/mw/16c550.c and src/mw/16c550.h: the shadow registers, and a log of what is written to
--              the registers. Chip: the registers of the chip as the header documents them; Mirror: the
--              shadow against the chip; Pins: the reset of the WiFi module.
--   Util       src/mw/util.c: numbers and IPv4 addresses as text. Digits: numerals; Parse, Validate,
--              Print, Wide: the parsers and printers against them; Concat: joined strings; Hex:
--              hexadecimal; Versions: version numbers, `int8_to_str`; Letters: `to_upper` of
--              src/mw/util.h.
--   Pool       src/mw/mpool.c; Blocks: single requests; Client: the blocks of a program that asks and
--              frees. The address `_eflash` of the linker script is a parameter.
--   MegaWifi   src/mw/megawifi.c: the static `d` as a record, the calls as functions in a small monad of
--              states and outcomes; `mw_command`, the exchange of a command for its reply. Codes: the
--              commands of mw-msg.h; Setup, Transfer, Wireless, Scan, Sockets, Services, Flash, Http,
--              Game: the calls of the API by topic; Poll: the waits that poll a status. Exchange: what
--              a command comes to; Requests, Verdicts: the calls that ask for something, against their
--              messages; Channels: those that open or close a channel; Queries, Names: those that read
--              a reply; Detection: `mw_detect`; Chunks: `mw_send_sync`; Waiting: the waits;
--              Direct: the inline functions of src/mw/megawifi.h.
--   Loop       src/mw/loop.c: the tables of functions and timers, with objects as numbers in a store, and
--              the passes over them, the callbacks as parameters. Slots: the tables as lists; Clock: when
--              timers run out; Passes: how the passes end;
--              Pend: `loop_pend` and `loop_post`, the loop that runs inside as a parameter.
--   App        src/main.c: the way to the open sockets and the loop of `udp_test`, over an interface of the
--              calls of the API. Connect: the order of the calls; Start: `main` up to its
--              loop.
--   Examples   runs of the model, and the theorems at concrete inputs.
--
-- Numbers are natural numbers with the wrap-around of the C types written out where it can happen. The
-- loops of src/rtpmidi.c run on fuel of one more than the buffer's length, which is proved enough:
-- each round moves the cursor, and a read past the buffer faults. `send_burst` runs at most the given
-- number of steps, as the loop that it models does. `lsd_process` and the calls that wait run on fuel,
-- and more of it than there are bytes and polls to come is proved enough. `mw_send_sync` has a round for each byte and one
-- more, which is proved enough for a buffer that is not empty; `mw_detect` counts its attempts. The
-- passes of Loop have `rounds` of the table's size, which is proved enough.
--
-- In MegaWifi, `loop_pend` gives the next of a list of posts: the value that a callback or the timer
-- posted, and what the link received meanwhile. Where the list ends, the wait has no end (`spent`). The
-- command buffer is a list of bytes; accesses past it fault, and pointers into it are offsets. The link
-- takes a command or refuses it, as `lsd_send` does; one that it takes is logged as it stands then, so
-- that the model covers the runs in which it has been sent before anything is received into the same
-- buffer. Calls of
-- other modules are logged, and the channels of the link are part of the state. A pointer argument that
-- may be NULL is an `Option`, a string its bytes without the NUL; results written through pointers are
-- returned.
--
-- Not modelled: SGDK and `sprintf`, which are not in the repository (calls are logged), and the chip of
-- the UART but for the registers that src/mw/16c550.h documents; the boot code, which only accesses
-- hardware; of src/mw/loop.c the loop that runs within `loop_pend`, and `loop_deinit`; of
-- src/mw/megawifi.c the callbacks that only stop the timer and post their result. Callbacks of
-- src/mw/lsd.c only take note of their call.
pub mod Base
pub mod Machine
pub mod Midi
pub mod Rtp
pub mod Driver
pub mod Mediator
pub mod AppleMidi
pub mod Lsd
pub mod Uart
pub mod Util
pub mod Pool
pub mod MegaWifi
pub mod Loop
pub mod App
mod Examples
