-- ===== src/Web/Pages.antt =====
-- Pages of the user interface, logging in and logging out.
use oracle_backup.Base.{
  ℕ, Bool, not, ◌&&◌, ◌||◌, map, none, some, ◌==◌, leb, ◌+◌, if◌then◌else◌, drop,
}
use oracle_backup.Text.{Text, codes, same, has_prefix, has_suffix, contains}
use oracle_backup.Auth.Session.{sign_session}
use oracle_backup.Store.Table.{audit}
use oracle_backup.Web.Request.{
  Request, Env, Site, text, page, redirect, cookies, no_cookies, Handler, current_user,
}
use oracle_backup.Web.Settings.{is_method}

-- One rune as `strings.EqualFold` compares it with the letters of "https": the capital letters, and
-- the long s.
abbrev pub fold : ℕ → ℕ
fold c = if leb b'A' c && leb c b'Z' then c + 32 else if c == 0x17f then b's' else c

unfoldable pub is_https : Request → Bool
is_https r = r.tls || same (map fold r.forwarded_proto) (codes "https")

abbrev pub html : Text
html = codes "text/html; charset=utf-8"

abbrev pub script : Text
script = codes "application/javascript; charset=utf-8"

abbrev pub stylesheet : Text
stylesheet = codes "text/css; charset=utf-8"

pub record LoginBody : Type 0 where
  pub user : Text
  pub pass : Text

module _ (env : Env) where
  unfoldable pub serve_ui : Text → Text → Handler
  serve_ui name content_type r s =
      if env.ui_file name then (page name content_type, s) else (text 404 (codes "not found"), s)

  -- `strings.TrimPrefix(path, "/")`
  abbrev pub without_slash : Text → Text
  without_slash path = if has_prefix path (codes "/") then drop 1 path else path

  abbrev pub vendor_type : Text → Text
  vendor_type name =
      if has_suffix name (codes ".js")
      then script
      else if has_suffix name (codes ".css")
      then stylesheet
      else codes "application/octet-stream"

  unfoldable pub handle_vendor : Handler
  handle_vendor r s =
      let name = without_slash r.path in
      if not (has_prefix name (codes "vendor/")) || contains name (codes "..")
      then (text 404 (codes "not found"), s)
      else serve_ui name (vendor_type name) r s

  unfoldable pub handle_root : Handler
  handle_root r s =
      if not (same r.path (codes "/"))
      then (text 404 (codes "not found"), s)
      else elim (current_user env env.later r) [
        | none ↦ (redirect (codes "/login"), s)
        | some user ↦ serve_ui (codes "index.html") html r s
      ]

  -- An entry of the audit log under a name that the request gives.
  abbrev pub audited_as : Text → Text → Text → Site → Site
  audited_as user action result s = record s {
    store = audit env.audit_fails user action result env.now s.store;
  }

  -- A body that does not decode leaves the fields that were read; `body` is what they are then.
  unfoldable pub log_in : LoginBody → Handler
  log_in body r s =
      if not (same body.user env.admin_user)
        || not env.has_admin_hash
        || not (env.check_password body.pass)
      then (
        text 401 (codes "invalid credentials"),
        audited_as body.user (codes "login") (codes "fail") s,
      )
      else (
        cookies
            (sign_session env.hmac env.encode env.decode body.user env.later env.session_ver
              env.session_key)
            env.fresh_token (is_https r),
        audited_as body.user (codes "login") (codes "ok") s,
      )

  unfoldable pub handle_login : LoginBody → Handler
  handle_login body r s =
      if is_method (codes "GET") r
      then elim (current_user env env.later r) [
        | some user ↦ (redirect (codes "/"), s)
        | none ↦ serve_ui (codes "login.html") html r s
      ]
      else if not (is_method (codes "POST") r)
      then (text 405 (codes "method"), s)
      else log_in body r s

  unfoldable pub handle_logout : Handler
  handle_logout r s = (no_cookies, s)
