-- ===== src/Web/Guarded.antt =====
-- What a request without a session gets.
use oracle_backup.Base.{not, ◌||◌, ◌≡◌, ◌⊎◌, inl, inr, refl, none, arith, Bool-cases, Option-cases}
use oracle_backup.Text.{Text, codes, same}
use oracle_backup.Web.Request.{Request, Env, Site, Handler, current_user, require_auth}
use oracle_backup.Web.Settings.{is_method}
use oracle_backup.Web.Pages.{
  LoginBody, audited_as, serve_ui, log_in, handle_login, handle_logout, handle_root,
}
use oracle_backup.Web.Routes.{
  Api, Entry, healthz, login, logout, app_script, login_script, style, vendor, root, behind_auth,
  route, moved_to, dispatch, serve,
}

-- The session is no good, neither when it is checked nor when a handler asks for the user.
pub record Stranger (env : Env) (r : Request) : Type 0 where
  pub at_first : current_user env env.entered r ≡ none
  pub at_last : current_user env env.later r ≡ none

-- Two answers tell the same, and each leaves the site as it was but for the login it tries.
abbrev Blind : Env → LoginBody → Request → Handler → Handler → Type 0
Blind env body r h h' =
    (s s' : Site)
    → ((h r s).0 ≡ (h' r s').0)
      × (((h r s).1 ≡ s)
          ⊎ ((result : Text) × ((h r s).1 ≡ audited_as env body.user (codes "login") result s)))

module _ (env : Env) (body : LoginBody) (r : Request) (v : Stranger env r) where
  require_auth-Blind :
      (h h' : Handler) → Blind env body r (require_auth env h) (require_auth env h')
  unfolding require_auth
  require_auth-Blind h h' s s' = rw (require_auth, v.at_first) (refl, inl refl)

  serve_ui-Blind : (name t : Text) → Blind env body r (serve_ui env name t) (serve_ui env name t)
  unfolding serve_ui
  serve_ui-Blind name t s s' = elim (Bool-cases (env.ui_file name)) [
    | inl y ↦ rw (serve_ui, y) (refl, inl refl)
    | inr n ↦ rw (serve_ui, n) (refl, inl refl)
  ]

  log_in-Blind : Blind env body r (log_in env body) (log_in env body)
  unfolding log_in
  log_in-Blind s s' =
      elim (Bool-cases (
        not (same body.user env.admin_user)
        || not env.has_admin_hash
        || not (env.check_password body.pass))) [
          | inl y ↦ (ground arith, inr (codes "fail", ground arith))
          | inr n ↦ (ground arith, inr (codes "ok", ground arith))
        ]

  handle_login-Blind : Blind env body r (handle_login env body) (handle_login env body)
  unfolding handle_login
  handle_login-Blind s s' = elim (Bool-cases (is_method (codes "GET") r)) [
    | inl y ↦ rw (handle_login, y, v.at_last) (serve_ui-Blind _ _ s s')
    | inr n ↦ elim (Bool-cases (is_method (codes "POST") r)) [
      | inl y ↦ rw (handle_login, n, y) (log_in-Blind s s')
      | inr m ↦ (ground arith, inl (ground arith))
    ]
  ]

  handle_root-Blind : Blind env body r (handle_root env) (handle_root env)
  unfolding handle_root
  handle_root-Blind s s' = elim (Bool-cases (same r.path (codes "/"))) [
    | inl y ↦ (ground (arith, v.at_last), inl (ground (arith, v.at_last)))
    | inr n ↦ (ground arith, inl (ground arith))
  ]

  dispatch-Blind :
      (inner inner' : Api → Handler) (e : Entry)
      → Blind env body r (dispatch env body inner e) (dispatch env body inner' e)
  unfolding dispatch handle_logout
  dispatch-Blind inner inner' healthz s s' = (refl, inl refl)
  dispatch-Blind inner inner' login s s' = handle_login-Blind s s'
  dispatch-Blind inner inner' logout s s' = (refl, inl refl)
  dispatch-Blind inner inner' app_script s s' = serve_ui-Blind _ _ s s'
  dispatch-Blind inner inner' login_script s s' = serve_ui-Blind _ _ s s'
  dispatch-Blind inner inner' style s s' = serve_ui-Blind _ _ s s'
  dispatch-Blind inner inner' vendor s s' = require_auth-Blind _ _ s s'
  dispatch-Blind inner inner' root s s' = handle_root-Blind s s'
  dispatch-Blind inner inner' (behind_auth a) s s' = require_auth-Blind _ _ s s'

-- A request whose session is no good at any time gets an answer that depends neither on what the
-- server stores nor on what the handlers behind `requireAuth` do; it changes nothing, but that an
-- attempt to log in is added to the audit trail under the name that was tried.
pub serve-Stranger :
    (env : Env) (body : LoginBody) (r : Request)
    → Stranger env r
    → (inner inner' : Api → Handler) (s s' : Site)
    → ((serve env body inner r s).0 ≡ (serve env body inner' r s').0)
      × (((serve env body inner r s).1 ≡ s)
          ⊎ ((result : Text) × ((serve env body inner r s).1
                ≡ audited_as env body.user (codes "login") result s)))
unfolding serve
serve-Stranger env body r v inner inner' s s' = elim (Option-cases (moved_to r.method r.path)) [
  | inr (path, m) ↦ rw (serve, m) (refl, inl refl)
  | inl n ↦ rw (serve, n) (dispatch-Blind env body r v inner inner' (route r.path) s s')
]
