-- ===== src/Web/Routes.antt =====
-- `Routes` of api.go: which handler a path reaches, and which of them stand behind `requireAuth`.
use oracle_backup.Base.{not, ◌&&◌, ◌||◌, ◌++◌, List, [], ◌∷◌, Option, none, some, if◌then◌else◌}
use oracle_backup.Text.{Text, codes, same, has_prefix, has_suffix, clean}
use oracle_backup.Web.Request.{Env, redirect, served, Handler, require_auth}
use oracle_backup.Web.Pages.{
  LoginBody, script, stylesheet, serve_ui, handle_vendor, handle_root, handle_login, handle_logout,
}

-- The handlers that the table wraps in `requireAuth` and that are an argument here.
pub data Api : Type 0 where
  status snapshots snapshot_ls history logs config source_paths alert_webhook : Api
  alert_webhook_test db_jobs excludes backup restore restore_download rclone_gui : Api
  remote_path remote_ls remote_target remote_migrate rclone_remotes rclone_add : Api
  rclone_cli rclone_gui_proxy terminal_ws : Api

pub data Entry : Type 0 where
  healthz login logout app_script login_script style vendor root : Entry
  behind_auth : Api → Entry

abbrev pub api : List (Text × Entry)
api =
    (codes "/healthz", healthz)
    ∷ (codes "/login", login)
    ∷ (codes "/logout", logout)
    ∷ (codes "/app.js", app_script)
    ∷ (codes "/login.js", login_script)
    ∷ (codes "/style.css", style)
    ∷ (codes "/api/status", behind_auth status)
    ∷ (codes "/api/snapshots", behind_auth snapshots)
    ∷ (codes "/api/snapshot-ls", behind_auth snapshot_ls)
    ∷ (codes "/api/history", behind_auth history)
    ∷ (codes "/api/logs", behind_auth logs)
    ∷ (codes "/api/config", behind_auth config)
    ∷ (codes "/api/source-paths", behind_auth source_paths)
    ∷ (codes "/api/alert-webhook", behind_auth alert_webhook)
    ∷ (codes "/api/alert-webhook-test", behind_auth alert_webhook_test)
    ∷ (codes "/api/db-jobs", behind_auth db_jobs)
    ∷ (codes "/api/excludes", behind_auth excludes)
    ∷ (codes "/api/backup", behind_auth backup)
    ∷ (codes "/api/restore", behind_auth restore)
    ∷ (codes "/api/restore-download", behind_auth restore_download)
    ∷ (codes "/api/rclone-gui", behind_auth rclone_gui)
    ∷ (codes "/api/remote-path", behind_auth remote_path)
    ∷ (codes "/api/remote-ls", behind_auth remote_ls)
    ∷ (codes "/api/remote-target", behind_auth remote_target)
    ∷ (codes "/api/remote-migrate", behind_auth remote_migrate)
    ∷ (codes "/api/rclone-remotes", behind_auth rclone_remotes)
    ∷ (codes "/api/rclone-add", behind_auth rclone_add)
    ∷ (codes "/api/rclone-cli", behind_auth rclone_cli)
    ∷ (codes "/ws/terminal", behind_auth terminal_ws)
    ∷ []

unfoldable pub exact : Text → List (Text × Entry) → Option Entry
exact path [] = none
exact path ((p, e) ∷ table) = let rest = exact path table in if same p path then some e else rest

-- The table as `http.ServeMux` reads it: a pattern that ends in a slash stands for all paths under
-- it, any other for one path, and a longer pattern goes first.
unfoldable pub route : Text → Entry
route path = elim (exact path api) [
  | some e ↦ e
  | none ↦
      if has_prefix path (codes "/rclone-gui/")
      then behind_auth rclone_gui_proxy
      else if has_prefix path (codes "/vendor/")
      then vendor
      else root
]

-- The path that `http.ServeMux` sends a browser to before it looks at the table: the clean form, with
-- its last slash kept.
unfoldable pub clean_path : Text → Text
clean_path path =
    let p = clean (if has_prefix path (codes "/") then path else codes "/" ++ path) in
    if has_suffix path (codes "/") && not (same p (codes "/")) then p ++ codes "/" else p

-- Where a path is moved to: its clean form, but for CONNECT, or the directory whose last slash it lacks.
unfoldable pub moved_to : Text → Text → Option Text
moved_to method path =
    if not (same method (codes "CONNECT")) && not (same (clean_path path) path)
    then some (clean_path path)
    else if same path (codes "/rclone-gui") || same path (codes "/vendor")
    then some (path ++ codes "/")
    else none

-- `inner` is what each handler behind `requireAuth` does; `body` is the login's.
module _ (env : Env) (body : LoginBody) (inner : Api → Handler) where
  unfoldable pub dispatch : Entry → Handler
  dispatch healthz = λ r s. (served (codes "ok"), s)
  dispatch login = handle_login env body
  dispatch logout = handle_logout env
  dispatch app_script = serve_ui env (codes "app.js") script
  dispatch login_script = serve_ui env (codes "login.js") script
  dispatch style = serve_ui env (codes "style.css") stylesheet
  dispatch (behind_auth a) = require_auth env (inner a)
  dispatch vendor = require_auth env (handle_vendor env)
  dispatch root = handle_root env

  unfoldable pub serve : Handler
  serve r s = elim (moved_to r.method r.path) [
    | some path ↦ (redirect path, s)
    | none ↦ dispatch (route r.path) r s
  ]
