-- ===== src/Web/LoggedIn.antt =====
-- What a login is good for.
use oracle_backup.Base.{
  ℕ, ◌^◌, ◌<◌, Bool, true, false, ◌≡◌, ◌↔◌, inl, inr, refl, some, arith, Bool-cases, Option-cases,
}
use oracle_backup.Base.Int.{pos}
use oracle_backup.Text.{Text, codes, same, same_iff, elem}
use oracle_backup.Auth.Session.{bar, sign_session}
use oracle_backup.Auth.Accepts.{InTime, verify_session-sign_session}
use oracle_backup.Web.Request.{Request, Env, Site, cookies, current_user}
use oracle_backup.Web.Pages.{LoginBody, log_in, handle_login, serve_ui}
use oracle_backup.Web.Settings.{is_method}

-- The session that a login of the admin makes.
abbrev pub session_of : Env → Text → Text
session_of env user =
    sign_session env.hmac env.encode env.decode user env.later env.session_ver env.session_key

-- Who logs in, and what session is handed out.
pub record LogsIn (env : Env) (body : LoginBody) (tok : Text) : Type 0 where
  pub is_admin : body.user ≡ env.admin_user
  pub hashed : env.has_admin_hash ≡ true
  pub password : env.check_password body.pass ≡ true
  pub session : tok ≡ session_of env env.admin_user

log_in_lem :
    (env : Env) (body : LoginBody) (r : Request) (s : Site) (tok csrf : Text) (secure : Bool)
    → (log_in env body r s).0 ≡ cookies tok csrf secure
    → LogsIn env body tok
unfolding log_in
log_in_lem env body r s tok csrf secure h = elim (Bool-cases (same body.user env.admin_user)) [
  | inr a ↦ ground arith
  | inl a ↦ elim (Bool-cases env.has_admin_hash) [
    | inr b ↦ ground arith
    | inl b ↦ elim (Bool-cases (env.check_password body.pass)) [
      | inr c ↦ ground arith
      | inl c ↦ record {
        is_admin = (same_iff body.user env.admin_user).0 a;
        hashed = b;
        password = c;
        session = ground (arith, same_iff body.user env.admin_user);
      }
    ]
  ]
]

handle_login_lem :
    (env : Env) (body : LoginBody) (r : Request) (s : Site) (tok csrf : Text) (secure : Bool)
    → (handle_login env body r s).0 ≡ cookies tok csrf secure
    → LogsIn env body tok
unfolding handle_login serve_ui
handle_login_lem env body r s tok csrf secure h = elim (Bool-cases (is_method (codes "GET") r)) [
  | inl a ↦ elim (Option-cases (current_user env env.later r)) [
    | inl n ↦ elim (Bool-cases (env.ui_file (codes "login.html"))) [
      | inl f ↦ ground arith
      | inr f ↦ ground arith
    ]
    | inr (user, u) ↦ ground arith
  ]
  | inr a ↦ elim (Bool-cases (is_method (codes "POST") r)) [
    | inl b ↦ log_in_lem env body r s tok csrf secure (ground arith)
    | inr b ↦ ground arith
  ]
]

module _ (env : Env) (decode-encode : (t : Text) → env.decode (env.encode t) ≡ some t)
    (no_bar : (t : Text) → elem bar (env.encode t) ≡ false) where
  -- A login hands out a session only to the admin, with the password that checks against the hash; and
  -- the session is that of the admin in every request that carries it, from the time of the login on
  -- for 12 hours and at no other time, as long as the key and the hash stay. The codec reads what it
  -- writes and never writes a bar; the admin's name and the version have no bar; the times are less
  -- than 2^63.
  pub handle_login_session :
      (body : LoginBody) (r r' : Request) (s : Site) (tok csrf : Text) (secure : Bool)
      (issued now : ℕ)
      → (handle_login env body r s).0 ≡ cookies tok csrf secure
      → r'.session ≡ some tok
      → elem bar env.admin_user ≡ false
      → elem bar env.session_ver ≡ false
      → env.later ≡ pos issued
      → issued < 2 ^ 63
      → now < 2 ^ 63
      → LogsIn env body tok
        × ((current_user env (pos now) r' ≡ some env.admin_user) ↔ InTime issued now)
  unfolding current_user
  handle_login_session body r r' s tok csrf secure issued now h h' ub vb t hi hn =
      let l = handle_login_lem env body r s tok csrf secure h in
      (
        l,
        rw (h', l.session, t)
            (verify_session-sign_session env.hmac env.encode env.decode decode-encode no_bar
              env.admin_user env.session_ver env.session_ver env.session_key issued now ub vb
              (inr refl) hi hn),
      )
