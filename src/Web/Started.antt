-- ===== src/Web/Started.antt =====
-- When a request starts a backup or a migration, and when it changes config.env.
use oracle_backup.Base.{
  ℕ, true, false, not, ◌&&◌, ◌≡◌, ◌⊎◌, inl, inr, ap, ◌∙◌, [], ◌∷◌, Option, none, some, arith,
  Bool-cases, Option-cases,
}
use oracle_backup.Text.{Text, codes, same, same_iff, trim_space}
use oracle_backup.Runner.Gate.{try_lock}
use oracle_backup.Migrate.Remote.{valid_remote_name, valid_remote_path}
use oracle_backup.Migrate.Start.{Launch, Checked, launch_status, start_cases, tidy_path}
use oracle_backup.Config.Load.{Config, load_config}
use oracle_backup.Config.Save.{validate, save_text}
use oracle_backup.Web.Request.{
  Request, Env, Site, json, str, current_user, require_auth, check_csrf, audited,
}
use oracle_backup.Web.Settings.{
  is_method, ConfigBody, with_body, handle_config, put_config, update_config,
}
use oracle_backup.Web.Saved.{Trusted, Unless, posted_lem}
use oracle_backup.Web.Actions.{
  run_backup, start_backup, handle_backup, MigrateBody, start_migration, confirm_migration,
  handle_remote_migrate,
}

-- A backup is started only on a POST with a good session that passes the CSRF check, while the gate
-- is open; it then has the gate, and the answer is 202. Otherwise the gate and the migration are as
-- they were.
pub handle_backup_starts :
    (env : Env) (r : Request) (s : Site)
    → let (resp, s') = require_auth env (handle_backup env) r s in
      (s'.shared ≡ s.shared)
      ⊎ (Trusted env (codes "POST") r
          × (s.shared.runner.gate ≡ false)
          × (s'.shared ≡ record (s.shared) { runner = record { gate = true; running = true } })
          × (resp ≡ json 202 ((codes "status", str (codes "started")) ∷ [])))
unfolding require_auth handle_backup start_backup run_backup try_lock
handle_backup_starts env r s = elim (Option-cases (current_user env env.entered r)) [
  | inl h ↦ inl (ground arith)
  | inr (user, u) ↦ elim (Bool-cases (is_method (codes "POST") r)) [
    | inr m ↦ inl (ground arith)
    | inl m ↦ elim (Bool-cases (check_csrf env r)) [
      | inr c ↦ inl (ground arith)
      | inl c ↦ elim (Bool-cases s.shared.runner.gate) [
        | inl g ↦ inl (ground arith)
        | inr g ↦ inr (
          record { user = user; logged_in = u; meant = m; own = c },
          g,
          ground arith,
          ground arith,
        )
      ]
    ]
  ]
]

-- A configuration is written.
abbrev pub Configured : Env → Request → ConfigBody → Site → Site → Type 0
Configured env r b s s' =
    (c : Config) × (load_config s.config ≡ some c)
    × (validate env.is_cron (with_body b c) ≡ none)
    × (s'
        ≡ audited env r (codes "config-update") (codes "ok")
            (record s { config = some (save_text (with_body b c)) }))

update_config_lem :
    (env : Env) (body : Option ConfigBody) (r : Request) (s : Site)
    → Unless s
        (update_config env body r s).1
        ((b : ConfigBody) × (body ≡ some b) × Configured env r b s (update_config env body r s).1)
unfolding update_config put_config
update_config_lem env body r s = elim (Option-cases (load_config s.config)) [
  | inl h ↦ inl (ground arith)
  | inr (c, h) ↦ elim (Option-cases body) [
    | inl k ↦ inl (ground arith)
    | inr (b, k) ↦ elim (Option-cases (validate env.is_cron (with_body b c))) [
      | inr (e, v) ↦ inl (ground arith)
      | inl v ↦ elim (Bool-cases env.os_fails) [
        | inl y ↦ inl (ground arith)
        | inr n ↦ inr (b, k, (c, h, v, ground arith))
      ]
    ]
  ]
]

-- The configuration changes only on a PUT with a good session that passes the CSRF check, and only
-- to one that is valid: the one that was loaded, with the seven values of the body. It is then saved
-- and the audit trail names the user. Otherwise, a failed write included, nothing at all changes.
pub handle_config_saves :
    (env : Env) (body : Option ConfigBody) (r : Request) (s : Site)
    → let s' = (require_auth env (handle_config env body) r s).1 in
      (s' ≡ s)
      ⊎ (Trusted env (codes "PUT") r × (b : ConfigBody) × (body ≡ some b) × Configured env r b s s')
unfolding require_auth handle_config
handle_config_saves env body r s = elim (Option-cases (current_user env env.entered r)) [
  | inl h ↦ inl (ground arith)
  | inr (user, u) ↦ elim (Bool-cases (is_method (codes "GET") r)) [
    | inl g ↦ inl (elim (Option-cases (load_config s.config)) [
      | inl e ↦ ground arith
      | inr (c, e) ↦ ground arith
    ])
    | inr g ↦ elim (Bool-cases (is_method (codes "PUT") r)) [
      | inr m ↦ inl (ground arith)
      | inl m ↦ elim (Bool-cases (check_csrf env r)) [
        | inr c ↦ inl (ground arith)
        | inl c ↦ elim (update_config_lem env body r s) [
          | inl e ↦ inl (ground arith)
          | inr (b, k, (f, h, v, e)) ↦ inr (
            record { user = user; logged_in = u; meant = m; own = c },
            b,
            k,
            (f, h, v, ground arith),
          )
        ]
      ]
    ]
  ]
]

module _ (env : Env) (conf : Option Text) (from_path : Text) (now : ℕ) where
  -- A migration is launched.
  abbrev Launches : MigrateBody → Site → Site → Type 0
  Launches b s s' =
      (l : Launch) × Checked conf from_path now b.remote b.path s.shared l
      × (s'.shared.runner ≡ record { gate = true; running = true })
      × (s'.shared.world.status ≡ launch_status now l)

  start_migration_lem :
      (b : MigrateBody) (r : Request) (s : Site)
      → let s' = (start_migration env conf from_path now b r s).1 in
        (s'.shared ≡ s.shared) ⊎ Launches b s s'
  unfolding start_migration
  start_migration_lem b r s = elim (start_cases conf from_path now b.remote b.path s.shared) [
    | inl (e, o, same_shared) ↦ inl (ground arith)
    | inr (l, o, checked, runner, status) ↦ inr (l, checked, ground arith, ground arith)
  ]

  confirm_migration_lem :
      (b : MigrateBody) (r : Request) (s : Site)
      → let s' = (confirm_migration env conf from_path now b r s).1 in
        (s'.shared ≡ s.shared)
        ⊎ ((b.confirm ≡ codes "MIGRATE") × (env.check_password b.password ≡ true) × Launches b s s')
  unfolding confirm_migration
  confirm_migration_lem b r s = elim (Bool-cases (same b.confirm (codes "MIGRATE"))) [
    | inr n ↦ inl (ground arith)
    | inl y₁ ↦ elim (Bool-cases (env.check_password b.password)) [
      | inr n ↦ inl (ground arith)
      | inl y₂ ↦
          elim (Bool-cases
            (not (same b.remote []) && not (valid_remote_name conf (trim_space b.remote)))) [
              | inl n ↦ inl (ground arith)
              | inr y₃ ↦ elim (Bool-cases (valid_remote_path (tidy_path b.path))) [
                | inr n ↦ inl (ground arith)
                | inl y₄ ↦ elim (start_migration_lem b r s) [
                  | inl e ↦ inl (ground arith)
                  | inr (l, checked, runner, status) ↦ inr (
                    (same_iff b.confirm (codes "MIGRATE")).0 y₁,
                    y₂,
                    (l, checked, ground arith, ground arith),
                  )
                ]
              ]
            ]
    ]
  ]

-- A migration starts only on a POST with a good session that passes the CSRF check, with the
-- confirmation phrase and with the admin password given again; its launch has then made all the
-- checks of a start, and the gate is taken. Otherwise the migration and the gate are as they were.
pub handle_remote_migrate_starts :
    (env : Env) (conf : Option Text) (from_path : Text) (now : ℕ) (body : Option MigrateBody)
    (r : Request) (s : Site)
    → let s' = (require_auth env (handle_remote_migrate env conf from_path now body) r s).1 in
      (s'.shared ≡ s.shared)
      ⊎ (Trusted env (codes "POST") r
          × (b : MigrateBody) × (body ≡ some b)
          × (b.confirm ≡ codes "MIGRATE")
          × (env.check_password b.password ≡ true)
          × (l : Launch) × Checked conf from_path now b.remote b.path s.shared l
          × (s'.shared.runner ≡ record { gate = true; running = true })
          × (s'.shared.world.status ≡ launch_status now l))
unfolding handle_remote_migrate
handle_remote_migrate_starts env conf from_path now body r s =
    elim (posted_lem env _ body (confirm_migration env conf from_path now) r s) [
      | inl e ↦ inl (ap Site.shared e)
      | inr (t, b, k, q) ↦ elim (confirm_migration_lem env conf from_path now b r s) [
        | inl e ↦ inl (ap Site.shared q ∙ e)
        | inr (phrase, password, (l, checked, runner, status)) ↦
            inr (t, b, k, phrase, password, l, checked, ground arith, ground arith)
      ]
    ]
