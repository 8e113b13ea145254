-- ===== src/Mediator/Send.antt =====
-- `mediator_send` of src/mediator.c.
use mega_drive_megawifi_appl.Base.{ℕ, List, ◌==◌, if◌then◌else◌, Outcome, done, dead}
use mega_drive_megawifi_appl.Machine.{Machine}
use mega_drive_megawifi_appl.Driver.{Driver}

module _ {S : Type 0} (driver : Driver S) where
  -- A send that fails ends the program: `SYS_die` does not return.
  unfoldable pub mediator_send : ℕ → List ℕ → Machine S → Outcome (Machine S)
  mediator_send ch bytes m =
      let (err, s) = driver.send_sync ch bytes 0 m.driver in
      if err == 0 then done (record m { driver = s }) else dead
