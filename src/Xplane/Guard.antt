-- ===== src/Xplane/Guard.antt =====
-- crates/fd-xplane/src/guard.rs: the write guard. The atomic flag is a Boolean.
use flightdeck_os.Base.{Bool, true, false, Result, ok, err, if◌then◌else◌}
use flightdeck_os.Core.Adapter.{AdapterError, writes_disabled}

pub record LiveWriteGuard : Type 0 where
  pub armed : Bool

unfoldable pub disabled : LiveWriteGuard
disabled = record { armed = false }

unfoldable pub arm : LiveWriteGuard → LiveWriteGuard
arm g = record g { armed = true }

unfoldable pub disarm : LiveWriteGuard → LiveWriteGuard
disarm g = record g { armed = false }

unfoldable pub ensure_armed : LiveWriteGuard → Result (Unit {0}) AdapterError
ensure_armed g = if g.armed then ok tt else err writes_disabled
