-- ===== src/Runner/Threads.antt =====
-- The entry points as interleaved threads: one shared access at a time. A thread is a goroutine that
-- runs `RunBackup`, `RunCheck`, `RunRestore` or a migration, again and again.
use native.Mathlib.Decide.{ℕ_discrete}
use mathlib.Core.Logic.{ite}
use oracle_backup.Base.{ℕ, Bool, true, false, ◌≡◌, List}
use oracle_backup.Text.{Text}
use oracle_backup.Runner.Gate.{Runner, new_runner, set_running, unlock}

-- What a thread wants the gate for.
pub data Task : Type 0 where
  backup : Text → Task
  check : Task
  restore : Text → Text → List Text → Task
  maintenance : Task

-- Where a thread stands. From `gated` on it has the gate.
pub data Pc : Type 0 where
  idle : Pc  -- before `TryLock`
  gated : Task → Pc  -- before `running.Store(true)`
  working : Task → Pc  -- the script or the migration is running
  cleared : Pc  -- after `running.Store(false)`, before `Unlock`

-- One atomic step of a thread.
pub data Move (r : Runner) : Pc → Runner → Pc → Type 0 where
  refused : r.gate ≡ true → Move r idle r idle
  won : (t : Task) → r.gate ≡ false → Move r idle (record r { gate = true }) (gated t)
  mark : {t : Task} → Move r (gated t) (set_running true r) (working t)
  finish : {t : Task} → Move r (working t) (set_running false r) cleared
  release : Move r cleared (unlock r) idle

abbrev pub update : (ℕ → Pc) → ℕ → Pc → ℕ → Pc
update f i p j = ite (ℕ_discrete i j) p (f j)

pub record System : Type 0 where
  pub runner : Runner
  pub pc : ℕ → Pc

pub data Step (s : System) : System → Type 0 where
  pick :
      (i : ℕ) {r : Runner} {p : Pc}
      → Move s.runner (s.pc i) r p
      → Step s (record { runner = r; pc = update s.pc i p })

abbrev pub boot : System
boot = record { runner = new_runner; pc = λ _. idle }

pub data Reach (s : System) : System → Type 0 where
  here : Reach s s
  next : {t u : System} → Reach s t → Step t u → Reach s u

-- The thread has the gate.
abbrev pub holds : Pc → Bool
holds idle = false
holds (gated t) = true
holds (working t) = true
holds cleared = true

-- The thread runs a script or a migration.
abbrev pub works : Pc → Bool
works (working t) = true
works p = false
