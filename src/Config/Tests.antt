-- ===== src/Config/Tests.antt =====
-- A configuration, for the witnesses.
use oracle_backup.Base.{Bool, not, true, ◌≡◌, ◌↔◌, [], none}
use oracle_backup.Base.Int.{pos}
use oracle_backup.Text.{Text, codes, same}
use oracle_backup.Config.Load.{Config}
use oracle_backup.Config.Save.{validate}
use oracle_backup.Config.Valid.{IsConfig, validate_iff}

abbrev pub nightly : Config
nightly = record {
  keep_daily = pos 7;
  upload_limit = pos 0;
  backup_schedule = codes "0 3 * * *";
  check_schedule = [];
  scheduler_on = true;
  db_backup_enabled = true;
  min_free_mb = pos 5000;
  pg_container = codes "pg";
  mongo_container = [];
  redis_container = [];
  raw = [];
  order = [];
}

abbrev is_cron : Text → Bool
is_cron t = not (same t [])

validate_iff_example : (validate is_cron nightly ≡ none) ↔ IsConfig is_cron nightly
validate_iff_example = validate_iff is_cron nightly
