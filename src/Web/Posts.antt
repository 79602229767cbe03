-- ===== src/Web/Posts.antt =====
-- The checks that the handlers of dangerous actions make first: POST, the CSRF check and the body.
use oracle_backup.Base.{
  ℕ, ◌≤◌, not, ◌≡◌, ◌⊎◌, inl, inr, Option, none, some, arith, if◌then◌else◌, Bool-cases,
  Option-cases,
}
use oracle_backup.Text.{Text, codes}
use oracle_backup.Web.Request.{
  Request, Env, Site, Response, text, Handler, current_user, require_auth, check_csrf,
}
use oracle_backup.Web.Settings.{is_method}
use oracle_backup.Web.Saved.{Trusted}

-- The body is what the JSON decoder makes of it, `none` for an error.
abbrev pub post_only : Env → {A : Type 0} → Option A → (A → Handler) → Handler
post_only env body act r s =
    if not (is_method (codes "POST") r)
    then (text 405 (codes "method"), s)
    else if not (check_csrf env r)
    then (text 403 (codes "csrf"), s)
    else elim body [ none ↦ (text 400 (codes "bad"), s) | some a ↦ act a r s ]

-- The answer is the text of an error, and nothing at all changes.
abbrev pub Refused : Site → Response × Site → Type 0
Refused s res = ((code : ℕ) × (msg : Text) × (res.0 ≡ text code msg) × (400 ≤ code)) × (res.1 ≡ s)

pub post_only-Refused :
    (env : Env) {A : Type 0} (body : Option A) (act : A → Handler) (r : Request) (s : Site)
    → let res = require_auth env (post_only env body act) r s in
      Refused s res ⊎ (Trusted env (codes "POST") r × (a : A) × (body ≡ some a) × (res ≡ act a r s))
unfolding require_auth
post_only-Refused env body act r s = elim (Option-cases (current_user env env.entered r)) [
  | inl h ↦ inl ((401, codes "unauthorized", ground arith, omega arith), ground arith)
  | inr (user, u) ↦ elim (Bool-cases (is_method (codes "POST") r)) [
    | inr m ↦ inl ((405, codes "method", ground arith, omega arith), ground arith)
    | inl m ↦ elim (Bool-cases (check_csrf env r)) [
      | inr c ↦ inl ((403, codes "csrf", ground arith, omega arith), ground arith)
      | inl c ↦ elim (Option-cases body) [
        | inl b ↦ inl ((400, codes "bad", ground arith, omega arith), ground arith)
        | inr (a, b) ↦
            inr (record { user = user; logged_in = u; meant = m; own = c }, a, b, ground arith)
      ]
    ]
  ]
]

pub post_only_lem :
    (env : Env) {A : Type 0} (body : Option A) (act : A → Handler) (r : Request) (s : Site)
    → ((require_auth env (post_only env body act) r s).1 ≡ s)
      ⊎ (Trusted env (codes "POST") r
          × (a : A) × (body ≡ some a)
          × (require_auth env (post_only env body act) r s ≡ act a r s))
post_only_lem env body act r s = elim (post_only-Refused env body act r s) [
  | inl (_, e) ↦ inl e
  | inr x ↦ inr x
]
