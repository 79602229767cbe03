-- ===== src/Config/Save.antt =====
-- `Validate`, `Save` and `quoteVal`. The cron parser is a parameter.
use oracle_backup.Base.{
  Bool, true, false, not, ◌&&◌, ◌||◌, List, [], ◌∷◌, ◌++◌, Option, none, some, ◌==◌, if◌then◌else◌,
  all,
}
use oracle_backup.Base.Int.{pos, ltb_ℤ}
use oracle_backup.Text.{Text, codes, same, has_prefix, contains_any, is_ident}
use oracle_backup.Auth.Session.{format_int}
use oracle_backup.Config.Load.{Config, Raw, lookup}

pub data ConfigError : Type 0 where
  keep_range : ConfigError
  upload_range : ConfigError
  free_negative : ConfigError
  bad_backup_schedule : ConfigError
  bad_check_schedule : ConfigError
  bad_container : Text → ConfigError

-- The first name that holds a rune outside the class.
unfoldable pub first_bad_name : List Text → Option ConfigError
first_bad_name [] = none
first_bad_name (n ∷ ns) =
    let rest = first_bad_name ns in if all is_ident n then rest else some (bad_container n)

unfoldable pub validate : (Text → Bool) → Config → Option ConfigError
validate is_cron c =
    if ltb_ℤ c.keep_daily (pos 1) || ltb_ℤ (pos 3650) c.keep_daily
    then some keep_range
    else if ltb_ℤ c.upload_limit (pos 0) || ltb_ℤ (pos 10000000) c.upload_limit
    then some upload_range
    else if ltb_ℤ c.min_free_mb (pos 0)
    then some free_negative
    else if not (is_cron c.backup_schedule)
    then some bad_backup_schedule
    else if not (same c.check_schedule []) && not (is_cron c.check_schedule)
    then some bad_check_schedule
    else first_bad_name (c.pg_container ∷ c.mongo_container ∷ c.redis_container ∷ [])

abbrev pub bool_str : Bool → Text
bool_str true = codes "true"
bool_str false = codes "false"

unfoldable pub escape : Text → Text
escape [] = []
escape (c ∷ s) = let rest = escape s in if c == b'"' then b'\\' ∷ b'"' ∷ rest else c ∷ rest

unfoldable pub quote_val : Text → Text
quote_val v =
    if not (same v []) && not (contains_any v (b' ' ∷ 9 ∷ []))
    then v
    else b'"' ∷ (escape v ++ b'"' ∷ [])

unfoldable pub is_listed : Text → List Text → Bool
is_listed k [] = false
is_listed k (o ∷ order) = same o k || is_listed k order

-- The closure `set` of `Save`.
unfoldable pub set : Text → Text → Raw × List Text → Raw × List Text
set k v (raw, order) = ((k, v) ∷ raw, if is_listed k order then order else order ++ k ∷ [])

unfoldable pub set_all : Config → Raw × List Text
set_all c = set (codes "DB_BACKUP_ENABLED") (bool_str c.db_backup_enabled) (
    set (codes "SCHEDULER_ENABLED") (bool_str c.scheduler_on) (
      set (codes "CHECK_SCHEDULE") c.check_schedule (
        set (codes "BACKUP_SCHEDULE") c.backup_schedule (
          set (codes "DB_DUMP_MIN_FREE_MB") (format_int c.min_free_mb) (
            set (codes "UPLOAD_LIMIT_KBPS") (format_int c.upload_limit)
              (set (codes "KEEP_DAILY") (format_int c.keep_daily) (c.raw, c.order)))))))

-- One line of the file, without the newline.
unfoldable pub save_line : Raw → Text → Text
save_line raw o = elim (lookup o raw) [
  | none ↦ o
  | some v ↦
      if not (same o []) && not (has_prefix o (codes "#")) then o ++ (b'=' ∷ quote_val v) else o
]

unfoldable pub save_lines : Raw → List Text → Text
save_lines raw [] = []
save_lines raw (o ∷ order) = save_line raw o ++ (10 ∷ save_lines raw order)

-- What `Save` writes.
unfoldable pub save_text : Config → Text
save_text c = let (raw, order) = set_all c in save_lines raw order
