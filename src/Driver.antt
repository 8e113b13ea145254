-- ===== src/Driver.antt =====
-- The two calls of the MegaWiFi API (src/mw/megawifi.h) that the application makes once its sockets
-- are open, as an interface: `S` is whatever state the driver and the network keep.
use mega_drive_megawifi_appl.Base.{ℕ, List}

-- What `mw_recv_sync` leaves through its pointers: the channel, the whole buffer, and the length.
pub record Received : Type 0 where
  pub ch : ℕ
  pub buffer : List ℕ
  pub len : ℕ

pub record Driver (S : Type 0) : Type 0 where
  -- `mw_send_sync(ch, data, len, tout_frames)`: `data` are the `len` bytes. The error code.
  pub send_sync : ℕ → List ℕ → ℕ → S → ℕ × S
  -- `mw_recv_sync(&ch, buf, &len, tout_frames)` on a buffer of the given size.
  pub recv_sync : ℕ → ℕ → S → ℕ × Received × S
