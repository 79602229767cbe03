-- ===== src/Web/Settings.antt =====
-- The handlers of the settings: source paths, database jobs, the alert webhook and config.env. The
-- body is what the JSON decoder makes of it, `none` for an error. The scheduler's reload behind a
-- saved configuration is a callback that changes nothing here.
use oracle_backup.Base.{
  Bool, true, false, not, List, [], ◌∷◌, ◌++◌, Option, none, some, if◌then◌else◌, length,
}
use oracle_backup.Base.Int.{ℤ}
use oracle_backup.Text.{Text, codes, same, trim_space, format_nat}
use oracle_backup.Inputs.DbJobs.{DbJob, valid_db_jobs, default_db_jobs}
use oracle_backup.Inputs.SourcePaths.{valid_source_paths, read_source_paths, source_paths_text}
use oracle_backup.Inputs.Texts.{valid_webhook_url}
use oracle_backup.Config.Load.{Config, load_config}
use oracle_backup.Config.Save.{validate, save_text}
use oracle_backup.Web.Request.{
  Value, Request, Env, str, flag, jobs_value, num, text, bad_paths, bad_jobs, bad_config, json,
  Handler, check_csrf, audited,
}

abbrev pub is_method : Text → Request → Bool
is_method m r = same r.method m

-- The jobs of the file, or the defaults; `decode_jobs` is `json.Unmarshal`.
unfoldable pub read_db_jobs : (Text → Option (List DbJob)) → Option Text → List DbJob × Bool
read_db_jobs decode_jobs none = (default_db_jobs, true)
read_db_jobs decode_jobs (some file) = elim (decode_jobs file) [
  | none ↦ (default_db_jobs, true)
  | some jobs ↦ (jobs, false)
]

unfoldable pub read_alert_webhook : Option Text → Text
read_alert_webhook none = []
read_alert_webhook (some file) = trim_space file

-- The fields of `handleConfig`'s body.
pub record ConfigBody : Type 0 where
  pub keep_daily : ℤ
  pub upload_limit : ℤ
  pub min_free_mb : ℤ
  pub backup_schedule : Text
  pub check_schedule : Text
  pub scheduler_enabled : Bool
  pub db_backup_enabled : Bool

abbrev pub with_body : ConfigBody → Config → Config
with_body b c = record c {
  keep_daily = b.keep_daily;
  upload_limit = b.upload_limit;
  min_free_mb = b.min_free_mb;
  backup_schedule = b.backup_schedule;
  check_schedule = b.check_schedule;
  scheduler_on = b.scheduler_enabled;
  db_backup_enabled = b.db_backup_enabled;
}

-- The fields of the answer to a GET.
abbrev pub config_fields : Config → List (Text × Value)
config_fields c =
    (codes "keep_daily", num c.keep_daily)
    ∷ (codes "upload_limit_kbps", num c.upload_limit)
    ∷ (codes "backup_schedule", str c.backup_schedule)
    ∷ (codes "check_schedule", str c.check_schedule)
    ∷ (codes "scheduler_enabled", flag c.scheduler_on)
    ∷ (codes "db_backup_enabled", flag c.db_backup_enabled)
    ∷ (codes "min_free_mb", num c.min_free_mb)
    ∷ []

module _ (env : Env) where
  -- The part of `handleSourcePaths` behind its checks of the request.
  unfoldable pub put_source_paths : Text → Handler
  put_source_paths p r s = elim (valid_source_paths p) [
    | some e ↦ (bad_paths e, s)
    | none ↦ if env.os_fails then (json 500 ((codes "error", str (codes "저장 실패")) ∷ []), s) else (
      json 200 ((codes "paths", str (trim_space p)) ∷ []),
      audited env r (codes "source-paths") (codes "set")
          (record s { source_paths = some (source_paths_text p) }),
    )
  ]

  unfoldable pub handle_source_paths : Option Text → Handler
  handle_source_paths body r s =
      if is_method (codes "GET") r
      then (json 200 ((codes "paths", str (read_source_paths s.source_paths)) ∷ []), s)
      else if not (is_method (codes "POST") r)
      then (text 405 (codes "method"), s)
      else if not (check_csrf env r)
      then (text 403 (codes "csrf"), s)
      else elim body [ none ↦ (text 400 (codes "bad"), s) | some p ↦ put_source_paths p r s ]

  -- `writeDBJobs`: the encoding or the write may fail.
  unfoldable pub put_db_jobs : List DbJob → Handler
  put_db_jobs jobs r s = elim (valid_db_jobs jobs) [
    | some e ↦ (bad_jobs e, s)
    | none ↦ elim (env.encode_jobs jobs) [
      | none ↦ (json 500 ((codes "error", str (codes "저장 실패")) ∷ []), s)
      | some file ↦
          if env.os_fails then (json 500 ((codes "error", str (codes "저장 실패")) ∷ []), s) else (
            json 200 ((codes "jobs", jobs_value jobs) ∷ (codes "defaults", flag false) ∷ []),
            audited env r (codes "db-jobs") (codes "save:" ++ format_nat (length jobs))
                (record s { db_jobs = some file }),
          )
    ]
  ]

  unfoldable pub handle_db_jobs : (Text → Option (List DbJob)) → Option (List DbJob) → Handler
  handle_db_jobs decode_jobs body r s =
      if is_method (codes "GET") r
      then (let (jobs, defaults) = read_db_jobs decode_jobs s.db_jobs in
          (json 200 ((codes "jobs", jobs_value jobs) ∷ (codes "defaults", flag defaults) ∷ []), s))
      else if not (is_method (codes "POST") r)
      then (text 405 (codes "method"), s)
      else if not (check_csrf env r)
      then (text 403 (codes "csrf"), s)
      else elim body [ none ↦ (text 400 (codes "bad"), s) | some jobs ↦ put_db_jobs jobs r s ]

  -- An error of the removal is ignored by the source.
  unfoldable pub put_alert_webhook : Text → Handler
  put_alert_webhook u r s =
      if same u []
      then (
        json 200 ((codes "configured", flag false) ∷ []),
        audited env r (codes "alert-webhook") (codes "clear")
            (record s { webhook = if env.os_fails then s.webhook else none }),
      )
      else if not (valid_webhook_url u)
      then (text 400 (codes "http:// 또는 https:// 로 시작하는 올바른 URL이어야 합니다"), s)
      else if env.os_fails
      then (json 500 ((codes "error", str (codes "저장 실패")) ∷ []), s)
      else (
        json 200 ((codes "configured", flag true) ∷ []),
        audited env r (codes "alert-webhook") (codes "set")
            (record s { webhook = some (u ++ 10 ∷ []) }),
      )

  unfoldable pub handle_alert_webhook : Option Text → Handler
  handle_alert_webhook body r s =
      if is_method (codes "GET") r
      then (json 200 ((codes "url", str (read_alert_webhook s.webhook)) ∷ []), s)
      else if not (is_method (codes "POST") r)
      then (text 405 (codes "method"), s)
      else if not (check_csrf env r)
      then (text 403 (codes "csrf"), s)
      else elim body [
        | none ↦ (text 400 (codes "bad"), s)
        | some u ↦ put_alert_webhook (trim_space u) r s
      ]

  unfoldable pub put_config : Config → Handler
  put_config c r s = elim (validate env.is_cron c) [
    | some e ↦ (bad_config e, s)
    | none ↦ if env.os_fails then (text 500 (codes "save"), s) else (
      json 200 ((codes "status", str (codes "saved")) ∷ []),
      audited env r (codes "config-update") (codes "ok") (record s { config = some (save_text c) }),
    )
  ]

  -- Unlike the others, this handler reads the file before the body.
  unfoldable pub update_config : Option ConfigBody → Handler
  update_config body r s = elim (load_config s.config) [
    | none ↦ (text 500 (codes "cfg"), s)
    | some c ↦ elim body [
      | none ↦ (text 400 (codes "bad"), s)
      | some b ↦ put_config (with_body b c) r s
    ]
  ]

  unfoldable pub handle_config : Option ConfigBody → Handler
  handle_config body r s =
      if is_method (codes "GET") r
      then elim (load_config s.config) [
        | none ↦ (json 500 ((codes "error", str (codes "cfg")) ∷ []), s)
        | some c ↦ (json 200 (config_fields c), s)
      ]
      else if is_method (codes "PUT") r
      then (if not (check_csrf env r) then (text 403 (codes "csrf"), s) else update_config body r s)
      else (text 405 (codes "method"), s)
