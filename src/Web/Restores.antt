-- ===== src/Web/Restores.antt =====
-- `RunRestore` of actions.go and `handleRestore` of api.go.
use oracle_backup.Base.{
  Bool, true, false, not, List, [], ◌∷◌, ◌++◌, Option, none, some, if◌then◌else◌,
}
use oracle_backup.Text.{Text, codes, same, join, redact}
use oracle_backup.Runner.Gate.{Runner, try_lock, set_running, unlock}
use oracle_backup.Runner.Calls.{Call, ran_script}
use oracle_backup.Inputs.Texts.{valid_snap_id, safe_restic_path}
use oracle_backup.Restore.Target.{
  Os, Target, has_dots, no_cwd, outside, escapes, unfinished, safe, safe_restore_target,
}
use oracle_backup.Web.Request.{Env, str, text, json, bad_target, Handler, audited}
use oracle_backup.Web.Posts.{post_only}

-- What a command leaves behind: the text of its error, its output and the scratch area.
pub record Ran : Type 0 where
  pub error : Option Text
  pub out : Text
  pub scratch : List Text

-- The words of `lowPriorityCmd`.
unfoldable pub low_priority_cmd : Text → List Text → List Text
low_priority_cmd script args =
    codes "ionice" ∷ codes "-c3" ∷ codes "nice" ∷ codes "-n19" ∷ script ∷ args

pub record RestoreBody : Type 0 where
  pub snapshot : Text
  pub target : Text
  pub includes : List Text
  pub password : Text
  pub confirm : Text

unfoldable pub all_safe : List Text → Bool
all_safe [] = true
all_safe (inc ∷ incs) = let rest = all_safe incs in if safe_restic_path inc then rest else false

-- The file system, `RemoveAll` with `MkdirAll` on the scratch area, what a command does with the
-- scratch area that it finds, and the directory of the scripts.
pub record Machine : Type 0 where
  pub os : Os
  pub clear : List Text → List Text
  pub run : List Text → List Text → Ran
  pub scripts : Text

module _ (m : Machine) where
  abbrev pub restore_cmd : Text → Text → List Text → List Text
  restore_cmd snap target includes =
      low_priority_cmd (join m.scripts (codes "home-restore.sh"))
        (codes "restore" ∷ snap ∷ target ∷ includes)

  abbrev pub restore_error : Ran → Option Text
  restore_error ran = elim ran.error [
    | none ↦ none
    | some err ↦ some (err ++ (codes ": " ++ redact ran.out))
  ]

  -- The error, the runner behind the deferred release, the scratch area and the calls.
  unfoldable pub run_restore :
      Text
      → Text
      → List Text
      → Runner
      → List Text
      → List Call
      → Option Text × Runner × List Text × List Call
  run_restore snap target includes r scratch calls =
      let (won, r₁) = try_lock r in
      if not won
      then (some (codes "busy"), r₁, scratch, calls)
      else let r₂ = set_running true r₁ in
        let cmd = restore_cmd snap target includes in
        let ran = m.run cmd scratch in
        (restore_error ran, unlock (set_running false r₂), ran.scratch, ran_script r₂ cmd ∷ calls)

  module _ (env : Env) where
    -- The part behind the checks of the handler.
    unfoldable pub restore_to : RestoreBody → Text → Handler
    restore_to b path r s =
        let (err, runner, scratch, calls) =
          run_restore b.snapshot path b.includes s.shared.runner (m.clear s.scratch) s.called in
        let s₁ = record s {
          shared = record (s.shared) { runner = runner };
          scratch = scratch;
          called = calls;
        } in
        elim err [
          | some e ↦ (
            json 500 ((codes "error", str (redact e)) ∷ []),
            audited env r (codes "restore") (codes "fail") s₁,
          )
          | none ↦ (
            json 200 ((codes "status", str (codes "restored")) ∷ (codes "target", str path) ∷ []),
            audited env r (codes "restore") (codes "ok") s₁,
          )
        ]

    abbrev pub target_of : RestoreBody → Text
    target_of b = if same b.target [] then env.restore_root else b.target

    unfoldable pub restore_checked : RestoreBody → Target → Handler
    restore_checked b has_dots r s =
        (bad_target has_dots, audited env r (codes "restore") (codes "bad-target") s)
    restore_checked b no_cwd r s =
        (bad_target no_cwd, audited env r (codes "restore") (codes "bad-target") s)
    restore_checked b outside r s =
        (bad_target outside, audited env r (codes "restore") (codes "bad-target") s)
    restore_checked b escapes r s =
        (bad_target escapes, audited env r (codes "restore") (codes "bad-target") s)
    restore_checked b unfinished r s =
        (bad_target unfinished, audited env r (codes "restore") (codes "bad-target") s)
    restore_checked b (safe path) r s =
        if not (all_safe b.includes)
        then (text 400 (codes "invalid include path"), s)
        else restore_to b path r s

    unfoldable pub confirm_restore : RestoreBody → Handler
    confirm_restore b r s =
        if not (same b.confirm (codes "RESTORE"))
        then (text 400 (codes "confirmation phrase required"), s)
        else if not (env.check_password b.password)
        then (
          text 401 (codes "password re-auth failed"),
          audited env r (codes "restore") (codes "reauth-fail") s,
        )
        else if not (valid_snap_id b.snapshot)
        then (text 400 (codes "bad snapshot id"), s)
        else restore_checked b (safe_restore_target m.os env.restore_root (target_of b)) r s

    unfoldable pub handle_restore : Option RestoreBody → Handler
    handle_restore body = post_only env body confirm_restore
