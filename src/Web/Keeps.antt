-- ===== src/Web/Keeps.antt =====
-- What each handler changes when the request fails `checkCSRF`.
use oracle_backup.Base.{
  ℕ, Bool, false, not, ◌||◌, ◌≡◌, inl, inr, refl, [], List, Option, none, arith, Bool-cases,
  Option-cases,
}
use oracle_backup.Text.{Text, codes, has_prefix, contains}
use oracle_backup.Store.Table.{audit}
use oracle_backup.Web.Request.{Request, Env, Site, Handler, current_user, require_auth, check_csrf}
use oracle_backup.Web.Settings.{
  is_method, ConfigBody, handle_source_paths, handle_db_jobs, handle_alert_webhook, handle_config,
}
use oracle_backup.Web.Actions.{MigrateBody, handle_backup, handle_remote_migrate}
use oracle_backup.Web.Reads.{handle_logs, handle_excludes}
use oracle_backup.Web.Posts.{post_only}
use oracle_backup.Inputs.DbJobs.{DbJob}
use oracle_backup.Rclone.Engine.{Docker}
use oracle_backup.Web.Listings.{Node, list_directory, handle_snapshot_ls}
use oracle_backup.Web.Remotes.{ActionBody, handle_rclone_gui}
use oracle_backup.Web.Destinations.{
  Remotes, look, list_remote, handle_remote_ls, handle_remote_target,
}
use oracle_backup.Web.Streams.{Walked, handle_restore_download}
use oracle_backup.Web.Pages.{
  LoginBody, without_slash, serve_ui, handle_vendor, handle_root, log_in, handle_login,
}

-- The site without the audit trail and the caches.
abbrev pub settings : Site → Site
settings s = record s {
  store = record { runs = s.store.runs; audits = []; seq = s.store.seq };
  snap_cache = record { snaps = none; at = 0 };
  ls_cache = [];
}

abbrev pub Keeps : Request → Handler → Type 0
Keeps r h = (s : Site) → settings (h r s).1 ≡ settings s

module _ (env : Env) (r : Request) (f : check_csrf env r ≡ false) where
  pub post_only-Keeps :
      {A : Type 0} (body : Option A) (act : A → Handler) → Keeps r (post_only env body act)
  post_only-Keeps body act s = elim (Bool-cases (is_method (codes "POST") r)) [
    | inr n ↦ rw n refl
    | inl y ↦ rw (y, f) refl
  ]

  pub handle_source_paths-Keeps : (b : Option Text) → Keeps r (handle_source_paths env b)
  unfolding handle_source_paths
  handle_source_paths-Keeps b s = ground (arith, f)

  pub handle_db_jobs-Keeps :
      (decode : Text → Option (List DbJob)) (b : Option (List DbJob))
      → Keeps r (handle_db_jobs env decode b)
  unfolding handle_db_jobs
  handle_db_jobs-Keeps decode b s = ground (arith, f)

  pub handle_alert_webhook-Keeps : (b : Option Text) → Keeps r (handle_alert_webhook env b)
  unfolding handle_alert_webhook
  handle_alert_webhook-Keeps b s = ground (arith, f)

  pub handle_config-Keeps : (b : Option ConfigBody) → Keeps r (handle_config env b)
  unfolding handle_config
  handle_config-Keeps b s = ground (arith, f)

  pub handle_excludes-Keeps : (b : Option Text) → Keeps r (handle_excludes env b)
  unfolding handle_excludes
  handle_excludes-Keeps b s = ground (arith, f)

  pub handle_backup-Keeps : Keeps r (handle_backup env)
  unfolding handle_backup
  handle_backup-Keeps s = ground (arith, f)

  pub handle_logs-Keeps :
      (fails : Bool) (file : Text → Option Text) → Keeps r (handle_logs env fails file)
  unfolding handle_logs
  handle_logs-Keeps fails file s = ground (arith, f)

  pub handle_remote_migrate-Keeps :
      (conf : Option Text) (path : Text) (now : ℕ) (b : Option MigrateBody)
      → Keeps r (handle_remote_migrate env conf path now b)
  unfolding handle_remote_migrate
  handle_remote_migrate-Keeps conf path now b s = ground (arith, f)

  pub handle_restore_download-Keeps :
      (e : Option (List Text)) (ws : List Walked) → Keeps r (handle_restore_download env e ws)
  unfolding handle_restore_download audit
  handle_restore_download-Keeps e ws s = ground (arith, f)

  pub handle_rclone_gui-Keeps :
      (d : Docker) (now : ℕ) (b : ActionBody) → Keeps r (handle_rclone_gui env d now b)
  unfolding handle_rclone_gui
  handle_rclone_gui-Keeps d now b s = ground (arith, f)

  pub handle_remote_ls-Keeps : (rc : Remotes) (active : Text) → Keeps r (handle_remote_ls rc active)
  unfolding handle_remote_ls list_remote
  handle_remote_ls-Keeps rc active s = ground (arith, f)

  pub handle_remote_target-Keeps :
      (rc : Remotes) (conf : Option Text) (active : Text)
      → Keeps r (handle_remote_target rc conf active)
  unfolding handle_remote_target look
  handle_remote_target-Keeps rc conf active s = ground (arith, f)

  pub handle_snapshot_ls-Keeps :
      (decode : Text → Option Node) (restic : Text → Text → Option Text)
      → Keeps r (handle_snapshot_ls decode restic)
  unfolding handle_snapshot_ls list_directory
  handle_snapshot_ls-Keeps decode restic s = ground (arith, f)

  pub require_auth-Keeps : (h : Handler) → Keeps r h → Keeps r (require_auth env h)
  unfolding require_auth
  require_auth-Keeps h k s = elim (Option-cases (current_user env env.entered r)) [
    | inl n ↦ rw (require_auth, n) refl
    | inr (user, u) ↦ rw (require_auth, u) (k s)
  ]

  pub serve_ui-Keeps : (name t : Text) → Keeps r (serve_ui env name t)
  unfolding serve_ui
  serve_ui-Keeps name t s = ground arith

  pub handle_vendor-Keeps : Keeps r (handle_vendor env)
  unfolding handle_vendor serve_ui
  handle_vendor-Keeps s =
      let name = without_slash env r.path in
      elim (Bool-cases (not (has_prefix name (codes "vendor/")) || contains name (codes ".."))) [
        | inl y ↦ rw (handle_vendor, y) refl
        | inr n ↦ rw (handle_vendor, n) (serve_ui-Keeps name _ s)
      ]

  pub handle_root-Keeps : Keeps r (handle_root env)
  unfolding handle_root serve_ui
  handle_root-Keeps s = ground arith

  pub handle_login-Keeps : (body : LoginBody) → Keeps r (handle_login env body)
  unfolding handle_login log_in serve_ui audit
  handle_login-Keeps body s = ground arith
