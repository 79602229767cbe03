-- ===== src/Web/Actions.antt =====
-- The handlers that start work: `handleBackup` of api.go and `handleRemoteMigrate` of migrate.go.
use oracle_backup.Base.{ℕ, Bool, true, false, not, ◌&&◌, [], ◌∷◌, Option, none, some, if◌then◌else◌}
use oracle_backup.Text.{Text, codes, same, trim_space}
use oracle_backup.Runner.Gate.{Runner, try_lock, set_running}
use oracle_backup.Migrate.Remote.{valid_remote_name, valid_remote_path}
use oracle_backup.Migrate.Start.{launched, refused, start, tidy_path}
use oracle_backup.Web.Request.{
  Env, str, status, text, json, not_started, Handler, check_csrf, audited,
}
use oracle_backup.Web.Settings.{is_method}

-- `RunBackup` up to the start of its goroutine; `false` is the busy error.
unfoldable pub run_backup : Runner → Bool × Runner
run_backup r =
    let (won, r') = try_lock r in if won then (true, set_running true r') else (false, r')

pub record MigrateBody : Type 0 where
  pub remote : Text
  pub path : Text
  pub password : Text
  pub confirm : Text

module _ (env : Env) where
  unfoldable pub start_backup : Handler
  start_backup r s =
      let (won, runner) = run_backup s.shared.runner in
      let s₁ = record s { shared = record (s.shared) { runner = runner } } in
      if won
      then (
        json 202 ((codes "status", str (codes "started")) ∷ []),
        audited env r (codes "backup") (codes "started") s₁,
      )
      else (text 409 (codes "busy"), audited env r (codes "backup") (codes "busy") s₁)

  unfoldable pub handle_backup : Handler
  handle_backup r s =
      if not (is_method (codes "POST") r)
      then (text 405 (codes "method"), s)
      else if not (check_csrf env r)
      then (text 403 (codes "csrf"), s)
      else start_backup r s

  module _ (conf : Option Text) (from_path : Text) (now : ℕ) where
    -- The part behind the checks of the handler.
    unfoldable pub start_migration : MigrateBody → Handler
    start_migration b r s =
        let (o, shared) = start conf from_path now b.remote b.path s.shared in
        let s₁ = record s { shared = shared } in
        elim o [
          | refused e ↦
              (not_started e, audited env r (codes "remote-migrate") (codes "start-fail") s₁)
          | launched l ↦ (
            status shared.world.status,
            audited env r (codes "remote-migrate") (codes "started") s₁,
          )
        ]

    unfoldable pub confirm_migration : MigrateBody → Handler
    confirm_migration b r s =
        if not (same b.confirm (codes "MIGRATE"))
        then (text 400 (codes "confirmation phrase required"), s)
        else if not (env.check_password b.password)
        then (
          text 401 (codes "password re-auth failed"),
          audited env r (codes "remote-migrate") (codes "reauth-fail") s,
        )
        else if not (same b.remote []) && not (valid_remote_name conf (trim_space b.remote))
        then (text 400 (codes "invalid remote"), s)
        else if not (valid_remote_path (tidy_path b.path))
        then (text 400 (codes "invalid path"), s)
        else start_migration b r s

    unfoldable pub handle_remote_migrate : Option MigrateBody → Handler
    handle_remote_migrate body r s =
        if is_method (codes "GET") r
        then (status s.shared.world.status, s)
        else if not (is_method (codes "POST") r)
        then (text 405 (codes "method"), s)
        else if not (check_csrf env r)
        then (text 403 (codes "csrf"), s)
        else elim body [ none ↦ (text 400 (codes "bad"), s) | some b ↦ confirm_migration b r s ]
