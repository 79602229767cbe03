-- ===== src/Web/Restored.antt =====
-- When a request restores, and what a restore does.
use oracle_backup.Base.{true, false, ◌≡◌, ◌⊎◌, [], ◌∷◌, All}
use oracle_backup.Text.{Text, codes, redact}
use oracle_backup.Runner.Calls.{ran_script}
use oracle_backup.Inputs.Texts.{valid_snap_id, safe_restic_path}
use oracle_backup.Restore.Target.{Target, safe, safe_restore_target}
use oracle_backup.Web.Request.{Request, Env, Site, Response, str, json}
use oracle_backup.Web.Restores.{RestoreBody, Machine, restore_cmd, target_of}

-- The restore script is the one call, made while the gate is held and the flag is set, on the cleared
-- scratch area; before it the gate is free, and behind it too.
pub record Runs (m : Machine) (b : RestoreBody) (path : Text) (s s' : Site) : Type 0 where
  pub idle : s.shared.runner.gate ≡ false
  pub restored :
      s'.scratch ≡ (m.run (restore_cmd m b.snapshot path b.includes) (m.clear s.scratch)).scratch
  pub alone :
      s'.called
      ≡ ran_script
          (record { gate = true; running = true })
          (restore_cmd m b.snapshot path b.includes)
        ∷ s.called
  pub released : s'.shared.runner ≡ record { gate = false; running = false }

-- The gate is taken: the answer is an error, but the scratch area is cleared.
pub record Cleared (m : Machine) (resp : Response) (s s' : Site) : Type 0 where
  pub taken : s.shared.runner.gate ≡ true
  pub answer : resp ≡ json 500 ((codes "error", str (redact (codes "busy"))) ∷ [])
  pub cleared : s'.scratch ≡ m.clear s.scratch
  pub kept : s'.shared ≡ s.shared
  pub nothing_run : s'.called ≡ s.called

abbrev pub Untouched : Site → Site → Type 0
Untouched s s' = (s'.shared ≡ s.shared) × (s'.scratch ≡ s.scratch) × (s'.called ≡ s.called)

abbrev pub Outcome : Machine → RestoreBody → Text → Response × Site → Site → Type 0
Outcome m b path res s = Runs m b path s res.1 ⊎ Cleared m res.0 s res.1

-- What is known of the body when the restore begins.
pub record Confirmed (m : Machine) (env : Env) (b : RestoreBody) (path : Text) : Type 0 where
  pub phrase : b.confirm ≡ codes "RESTORE"
  pub password : env.check_password b.password ≡ true
  pub snapshot : valid_snap_id b.snapshot ≡ true
  pub includes : All (λ i. safe_restic_path i ≡ true) b.includes
  pub place : safe_restore_target m.os env.restore_root (target_of m env b) ≡ safe path

-- What the checks of the target and of the includes come to.
abbrev Allowed : Machine → Env → RestoreBody → Target → Response × Site → Site → Type 0
Allowed m env b t res s =
    (path : Text) × (t ≡ safe path)
    × All (λ i. safe_restic_path i ≡ true) b.includes
    × Outcome m b path res s
