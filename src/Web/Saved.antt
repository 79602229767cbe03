-- ===== src/Web/Saved.antt =====
-- When a setting changes, and to what.
use oracle_backup.Base.{
  true, not, ◌≡◌, ◌⊎◌, inl, inr, sym, ◌∙◌, subst, List, [], ◌∷◌, ◌++◌, Option, none, some, arith,
  if◌then◌else◌, Bool-cases, Option-cases, length,
}
use oracle_backup.Text.{Text, codes, same, same_iff, trim_space, format_nat}
use oracle_backup.Inputs.DbJobs.{DbJob, valid_db_jobs}
use oracle_backup.Inputs.SourcePaths.{valid_source_paths, source_paths_text}
use oracle_backup.Inputs.Texts.{valid_webhook_url}
use oracle_backup.Web.Request.{
  Request, Env, Site, Response, text, Handler, current_user, require_auth, check_csrf, audited,
}
use oracle_backup.Web.Settings.{
  is_method, handle_source_paths, put_source_paths, handle_db_jobs, put_db_jobs,
  handle_alert_webhook, put_alert_webhook,
}

-- The session is good, the method is the one meant and the request passes the CSRF check.
pub record Trusted (env : Env) (method : Text) (r : Request) : Type 0 where
  pub user : Text
  pub logged_in : current_user env env.entered r ≡ some user
  pub meant : is_method method r ≡ true
  pub own : check_csrf env r ≡ true

-- Either nothing changes or something is so.
abbrev pub Unless : Site → Site → Type 0 → Type 0
Unless s s' A = (s' ≡ s) ⊎ A

-- The checks that the handlers of the first three settings make, in front of what each goes on with.
abbrev pub posted : Env → {A : Type 0} → (Site → Response) → Option A → (A → Handler) → Handler
posted env get body put r s =
    if is_method (codes "GET") r
    then (get s, s)
    else if not (is_method (codes "POST") r)
    then (text 405 (codes "method"), s)
    else if not (check_csrf env r)
    then (text 403 (codes "csrf"), s)
    else elim body [ none ↦ (text 400 (codes "bad"), s) | some a ↦ put a r s ]

pub posted_lem :
    (env : Env) {A : Type 0} (get : Site → Response) (body : Option A) (put : A → Handler)
    (r : Request) (s : Site)
    → let s' = (require_auth env (posted env get body put) r s).1 in
      Unless s s' (Trusted env (codes "POST") r × (a : A) × (body ≡ some a) × (s' ≡ (put a r s).1))
unfolding require_auth
posted_lem env get body put r s = elim (Option-cases (current_user env env.entered r)) [
  | inl h ↦ inl (ground arith)
  | inr (user, u) ↦ elim (Bool-cases (is_method (codes "GET") r)) [
    | inl g ↦ inl (ground arith)
    | inr g ↦ elim (Bool-cases (is_method (codes "POST") r)) [
      | inr m ↦ inl (ground arith)
      | inl m ↦ elim (Bool-cases (check_csrf env r)) [
        | inr c ↦ inl (ground arith)
        | inl c ↦ elim (Option-cases body) [
          | inl b ↦ inl (ground arith)
          | inr (a, b) ↦
              inr (record { user = user; logged_in = u; meant = m; own = c }, a, b, ground arith)
        ]
      ]
    ]
  ]
]

put_source_paths_lem :
    (env : Env) (p : Text) (r : Request) (s : Site)
    → Unless s (put_source_paths env p r s).1 (
        (valid_source_paths p ≡ none)
        × ((put_source_paths env p r s).1
            ≡ audited env r
                (codes "source-paths")
                (codes "set")
                (record s { source_paths = some (source_paths_text p) })))
unfolding put_source_paths
put_source_paths_lem env p r s = elim (Option-cases (valid_source_paths p)) [
  | inr (e, h) ↦ inl (ground arith)
  | inl h ↦ elim (Bool-cases env.os_fails) [
    | inl y ↦ inl (ground arith)
    | inr n ↦ inr (h, ground arith)
  ]
]

-- The source paths change only on a POST with a good session that passes the CSRF check and whose
-- body is a valid text of source paths; the file then holds that text, trimmed, and the audit trail
-- names the user. Otherwise, a failed write included, nothing at all changes.
pub handle_source_paths_saves :
    (env : Env) (body : Option Text) (r : Request) (s : Site)
    → let s' = (require_auth env (handle_source_paths env body) r s).1 in
      (s' ≡ s)
      ⊎ (Trusted env (codes "POST") r
          × (p : Text) × (body ≡ some p)
          × (valid_source_paths p ≡ none)
          × (s'
              ≡ audited env r
                  (codes "source-paths")
                  (codes "set")
                  (record s { source_paths = some (source_paths_text p) })))
unfolding handle_source_paths
handle_source_paths_saves env body r s = elim (posted_lem env _ body (put_source_paths env) r s) [
  | inl e ↦ inl e
  | inr (t, p, b, q) ↦ elim (put_source_paths_lem env p r s) [
    | inl e ↦ inl (q ∙ e)
    | inr (v, e) ↦ inr (t, p, b, v, q ∙ e)
  ]
]

put_db_jobs_lem :
    (env : Env) (jobs : List DbJob) (r : Request) (s : Site)
    → Unless s (put_db_jobs env jobs r s).1 (
        (valid_db_jobs jobs ≡ none)
        × (file : Text) × (env.encode_jobs jobs ≡ some file)
        × ((put_db_jobs env jobs r s).1
            ≡ audited env r
                (codes "db-jobs")
                (codes "save:" ++ format_nat (length jobs))
                (record s { db_jobs = some file })))
unfolding put_db_jobs
put_db_jobs_lem env jobs r s = elim (Option-cases (valid_db_jobs jobs)) [
  | inr (e, h) ↦ inl (ground arith)
  | inl h ↦ elim (Option-cases (env.encode_jobs jobs)) [
    | inl k ↦ inl (ground arith)
    | inr (file, k) ↦ elim (Bool-cases env.os_fails) [
      | inl y ↦ inl (ground arith)
      | inr n ↦ inr (h, file, k, ground arith)
    ]
  ]
]

-- The database jobs change only on a POST with a good session that passes the CSRF check and whose
-- body is a valid list of jobs; the file then holds the encoding of that list, and the audit trail
-- names the user and the number of jobs. Otherwise, a failed write included, nothing at all changes.
pub handle_db_jobs_saves :
    (env : Env) (decode_jobs : Text → Option (List DbJob)) (body : Option (List DbJob))
    (r : Request) (s : Site)
    → let s' = (require_auth env (handle_db_jobs env decode_jobs body) r s).1 in
      (s' ≡ s)
      ⊎ (Trusted env (codes "POST") r
          × (jobs : List DbJob) × (body ≡ some jobs)
          × (valid_db_jobs jobs ≡ none)
          × (file : Text) × (env.encode_jobs jobs ≡ some file)
          × (s'
              ≡ audited env r
                  (codes "db-jobs")
                  (codes "save:" ++ format_nat (length jobs))
                  (record s { db_jobs = some file })))
unfolding handle_db_jobs
handle_db_jobs_saves env decode_jobs body r s = elim (posted_lem env _ body (put_db_jobs env) r s) [
  | inl e ↦ inl e
  | inr (t, jobs, b, q) ↦ elim (put_db_jobs_lem env jobs r s) [
    | inl e ↦ inl (q ∙ e)
    | inr (v, file, k, e) ↦ inr (t, jobs, b, v, file, k, q ∙ e)
  ]
]

-- What a webhook request may do: clear it with an empty text, or set it to an acceptable one.
abbrev pub Hooked : Env → Request → Text → Site → Site → Type 0
Hooked env r u s s' =
    ((u ≡ [])
      × (s'
          ≡ audited env r (codes "alert-webhook") (codes "clear")
              (record s { webhook = if env.os_fails then s.webhook else none })))
    ⊎ ((valid_webhook_url u ≡ true)
        × (s'
            ≡ audited env r (codes "alert-webhook") (codes "set")
                (record s { webhook = some (u ++ 10 ∷ []) })))

put_alert_webhook_lem :
    (env : Env) (u : Text) (r : Request) (s : Site)
    → Unless s (put_alert_webhook env u r s).1 (Hooked env r u s (put_alert_webhook env u r s).1)
unfolding put_alert_webhook
put_alert_webhook_lem env u r s = elim (Bool-cases (same u [])) [
  | inl z ↦ inr (inl ((same_iff u []).0 z, ground arith))
  | inr z ↦ elim (Bool-cases (valid_webhook_url u)) [
    | inr v ↦ inl (ground arith)
    | inl v ↦ elim (Bool-cases env.os_fails) [
      | inl y ↦ inl (ground arith)
      | inr n ↦ inr (inr (v, ground arith))
    ]
  ]
]

-- The alert webhook changes only on a POST with a good session that passes the CSRF check: an empty
-- text removes the file, as far as the system lets it, and an acceptable URL is written to it, each
-- with an audit entry. Otherwise, a failed write included, nothing at all changes.
pub handle_alert_webhook_saves :
    (env : Env) (body : Option Text) (r : Request) (s : Site)
    → let s' = (require_auth env (handle_alert_webhook env body) r s).1 in
      (s' ≡ s)
      ⊎ (Trusted env (codes "POST") r
          × (u : Text) × (body ≡ some u)
          × Hooked env r (trim_space u) s s')
unfolding handle_alert_webhook
handle_alert_webhook_saves env body r s =
    elim (posted_lem env _ body (λ u. put_alert_webhook env (trim_space u)) r s) [
      | inl e ↦ inl e
      | inr (t, u, b, q) ↦ elim (put_alert_webhook_lem env (trim_space u) r s) [
        | inl e ↦ inl (q ∙ e)
        | inr h ↦ inr (t, u, b, subst (Hooked env r (trim_space u) s) (sym q) h)
      ]
    ]
