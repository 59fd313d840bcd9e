-- ===== src/Transport.antt =====
-- src/watlowlib/transport/base.py, the protocol `Transport`: what a client uses of a byte transport
-- with state `S`. The calls' deadlines appear as exceptions: `WatlowTimeoutError` from the transport
-- itself, `TimeoutError` where the caller's `anyio.fail_after` has cancelled the call.
pub mod Fake
pub mod Settings
use watlowlib.Base.{ℕ, ◌≡◌, ◌≢◌, Bytes, length}
use watlowlib.Result.{ok, stuck}
use watlowlib.Exec.{Exec}

pub record Transport (S : Type 0) : Type 0 where
  pub write : Bytes → Exec S (Unit {0})
  pub read_exact : ℕ → Exec S Bytes

-- The documented contract of `read_exact`: it returns exactly `n` bytes or raises.
pub record ReadsExactly {S : Type 0} (t : Transport S) : Type 0 where
  pub exact : (n : ℕ) (s : S) (bs : Bytes) → (t.read_exact n s).0 ≡ ok bs → length bs ≡ n
  pub returns : (n : ℕ) (s : S) → (t.read_exact n s).0 ≢ stuck
  pub write_returns : (bs : Bytes) (s : S) → (t.write bs s).0 ≢ stuck
