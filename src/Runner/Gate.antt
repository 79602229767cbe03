-- ===== src/Runner/Gate.antt =====
-- The `gate` mutex and the `running` flag of `Runner`, and the entry points as sequential code.
use oracle_backup.Base.{Bool, true, false, if◌then◌else◌}

pub record Runner : Type 0 where
  pub gate : Bool  -- locked?
  pub running : Bool

abbrev pub new_runner : Runner
new_runner = record { gate = false; running = false }

-- `r.gate.TryLock()`
unfoldable pub try_lock : Runner → Bool × Runner
try_lock r = if r.gate then (false, r) else (true, record r { gate = true })

-- `r.running.Store(b)`
abbrev pub set_running : Bool → Runner → Runner
set_running b r = record r { running = b }

-- `r.gate.Unlock()`
abbrev pub unlock : Runner → Runner
unlock r = record r { gate = false }

-- TryLock, and on success the flag: the common start of all entry points. `false` is their
-- "busy" error.
unfoldable pub acquire_for_maintenance : Runner → Bool × Runner
unfolding try_lock
acquire_for_maintenance r =
    let (won, r') = try_lock r in if won then (true, set_running true r') else (false, r')

unfoldable pub release_maintenance : Runner → Runner
release_maintenance r = unlock (set_running false r)

abbrev pub busy : Runner → Bool
busy r = r.running
