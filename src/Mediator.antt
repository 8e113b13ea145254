-- ===== src/Mediator.antt =====
-- src/mediator.c: what is received goes to the handler of its channel.
pub mod Send
pub mod Receive
use mega_drive_megawifi_appl.Base.{ℕ, ◌==◌, if◌then◌else◌, Outcome, done}
use mega_drive_megawifi_appl.Machine.{Machine}
use mega_drive_megawifi_appl.Driver.{Driver}
use mega_drive_megawifi_appl.AppleMidi.{
  ch_control_port, ch_midi_port, mw_err_none, process_session_control_packet,
  process_session_midi_packet,
}

abbrev pub max_udp_data_length : ℕ
max_udp_data_length = 1460

module _ {S : Type 0} (driver : Driver S) where
  unfoldable pub mediator_receive : Machine S → Outcome (ℕ × Machine S)
  mediator_receive m =
      let (err, received, s) = driver.recv_sync max_udp_data_length 0 m.driver in
      let m' : Machine S = record m { driver = s } in
      if err == mw_err_none
      then (if received.ch == ch_control_port
          then process_session_control_packet driver received.buffer received.len m'
          else if received.ch == ch_midi_port
          then process_session_midi_packet driver received.buffer received.len m'
          else done (mw_err_none, m'))
      else done (err, m')
