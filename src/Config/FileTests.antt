-- ===== src/Config/FileTests.antt =====
-- A configuration that is saved and loaded again, for the witness.
use oracle_backup.Base.{arith, List, map, ◌≡◌, refl, [], ◌∷◌, some, All}
use oracle_backup.Text.{
  Text, codes, same, elem, is_space, trim_left, trim_right, keep_left, byte_len, contains_any,
  has_prefix, format_nat, digits,
}
use oracle_backup.Auth.Session.{format_int}
use oracle_backup.Config.Load.{Raw, lookup, load_config, from_raw}
use oracle_backup.Config.Save.{set_all, set, is_listed, save_line, save_text, quote_val, escape}
use oracle_backup.Config.Line.{IsEntry, entered}
use oracle_backup.Config.File.{IsOneLine, load_config-save_text}
use oracle_backup.Config.Tests.{nightly}

abbrev raw : Raw
unfolding set_all set is_listed same format_int format_nat digits
raw = (set_all nightly).0

abbrev entries : List (Text × Text)
entries =
    (codes "KEEP_DAILY", codes "7")
    ∷ (codes "UPLOAD_LIMIT_KBPS", codes "0")
    ∷ (codes "DB_DUMP_MIN_FREE_MB", codes "5000")
    ∷ (codes "BACKUP_SCHEDULE", codes "0 3 * * *")
    ∷ (codes "CHECK_SCHEDULE", codes "")
    ∷ (codes "SCHEDULER_ENABLED", codes "true")
    ∷ (codes "DB_BACKUP_ENABLED", codes "true")
    ∷ []

saved : set_all nightly ≡ (raw, map (λ e. e.0) entries)
unfolding set_all set is_listed same format_int format_nat digits
saved = refl

keep_daily-IsEntry : IsEntry raw (codes "KEEP_DAILY", codes "7")
unfolding raw set_all set is_listed same format_int format_nat digits lookup trim_left trim_right
    keep_left is_space elem
keep_daily-IsEntry = record {
  key = record {
    first = b'K';
    more = codes "EEP_DAILY";
    starts = refl;
    bare = refl;
    no_hash = refl;
    tight = refl;
    no_equals = refl;
  };
  value = record { tight_left = refl; tight_right = refl; no_quotes = (refl, tt) };
  found = refl;
}

upload_limit_kbps-IsEntry : IsEntry raw (codes "UPLOAD_LIMIT_KBPS", codes "0")
unfolding raw set_all set is_listed same format_int format_nat digits lookup trim_left trim_right
    keep_left is_space elem
upload_limit_kbps-IsEntry = record {
  key = record {
    first = b'U';
    more = codes "PLOAD_LIMIT_KBPS";
    starts = refl;
    bare = refl;
    no_hash = refl;
    tight = refl;
    no_equals = refl;
  };
  value = record { tight_left = refl; tight_right = refl; no_quotes = (refl, tt) };
  found = refl;
}

db_dump_min_free_mb-IsEntry : IsEntry raw (codes "DB_DUMP_MIN_FREE_MB", codes "5000")
unfolding raw set_all set is_listed same format_int format_nat digits lookup trim_left trim_right
    keep_left is_space elem
db_dump_min_free_mb-IsEntry = record {
  key = record {
    first = b'D';
    more = codes "B_DUMP_MIN_FREE_MB";
    starts = refl;
    bare = refl;
    no_hash = refl;
    tight = refl;
    no_equals = refl;
  };
  value = record {
    tight_left = refl;
    tight_right = refl;
    no_quotes = (refl, (refl, (refl, (refl, tt))));
  };
  found = refl;
}

backup_schedule-IsEntry : IsEntry raw (codes "BACKUP_SCHEDULE", codes "0 3 * * *")
unfolding raw set_all set is_listed same format_int format_nat digits lookup trim_left trim_right
    keep_left is_space elem
backup_schedule-IsEntry = record {
  key = record {
    first = b'B';
    more = codes "ACKUP_SCHEDULE";
    starts = refl;
    bare = refl;
    no_hash = refl;
    tight = refl;
    no_equals = refl;
  };
  value = record {
    tight_left = refl;
    tight_right = refl;
    no_quotes = (refl, (refl, (refl, (refl, (refl, (refl, (refl, (refl, (refl, tt)))))))));
  };
  found = refl;
}

check_schedule-IsEntry : IsEntry raw (codes "CHECK_SCHEDULE", codes "")
unfolding raw set_all set is_listed same format_int format_nat digits lookup trim_left trim_right
    keep_left is_space elem
check_schedule-IsEntry = record {
  key = record {
    first = b'C';
    more = codes "HECK_SCHEDULE";
    starts = refl;
    bare = refl;
    no_hash = refl;
    tight = refl;
    no_equals = refl;
  };
  value = record { tight_left = refl; tight_right = refl; no_quotes = tt };
  found = refl;
}

scheduler_enabled-IsEntry : IsEntry raw (codes "SCHEDULER_ENABLED", codes "true")
unfolding raw set_all set is_listed same format_int format_nat digits lookup trim_left trim_right
    keep_left is_space elem
scheduler_enabled-IsEntry = record {
  key = record {
    first = b'S';
    more = codes "CHEDULER_ENABLED";
    starts = refl;
    bare = refl;
    no_hash = refl;
    tight = refl;
    no_equals = refl;
  };
  value = record {
    tight_left = refl;
    tight_right = refl;
    no_quotes = (refl, (refl, (refl, (refl, tt))));
  };
  found = refl;
}

db_backup_enabled-IsEntry : IsEntry raw (codes "DB_BACKUP_ENABLED", codes "true")
unfolding raw set_all set is_listed same format_int format_nat digits lookup trim_left trim_right
    keep_left is_space elem
db_backup_enabled-IsEntry = record {
  key = record {
    first = b'D';
    more = codes "B_BACKUP_ENABLED";
    starts = refl;
    bare = refl;
    no_hash = refl;
    tight = refl;
    no_equals = refl;
  };
  value = record {
    tight_left = refl;
    tight_right = refl;
    no_quotes = (refl, (refl, (refl, (refl, tt))));
  };
  found = refl;
}

entries-IsEntry : All (IsEntry raw) entries
entries-IsEntry = (
  keep_daily-IsEntry,
  (
    upload_limit_kbps-IsEntry,
    (
      db_dump_min_free_mb-IsEntry,
      (
        backup_schedule-IsEntry,
        (check_schedule-IsEntry, (scheduler_enabled-IsEntry, (db_backup_enabled-IsEntry, tt))),
      ),
    ),
  ),
)

keep_daily-IsOneLine : IsOneLine (save_line raw (codes "KEEP_DAILY"))
unfolding raw set_all set is_listed same format_int format_nat digits lookup elem save_line
    quote_val escape contains_any has_prefix byte_len
keep_daily-IsOneLine = record { no_newline = refl; no_return = refl; fits = omega arith }

upload_limit_kbps-IsOneLine : IsOneLine (save_line raw (codes "UPLOAD_LIMIT_KBPS"))
unfolding raw set_all set is_listed same format_int format_nat digits lookup elem save_line
    quote_val escape contains_any has_prefix byte_len
upload_limit_kbps-IsOneLine = record { no_newline = refl; no_return = refl; fits = omega arith }

db_dump_min_free_mb-IsOneLine : IsOneLine (save_line raw (codes "DB_DUMP_MIN_FREE_MB"))
unfolding raw set_all set is_listed same format_int format_nat digits lookup elem save_line
    quote_val escape contains_any has_prefix byte_len
db_dump_min_free_mb-IsOneLine = record { no_newline = refl; no_return = refl; fits = omega arith }

backup_schedule-IsOneLine : IsOneLine (save_line raw (codes "BACKUP_SCHEDULE"))
unfolding raw set_all set is_listed same format_int format_nat digits lookup elem save_line
    quote_val escape contains_any has_prefix byte_len
backup_schedule-IsOneLine = record { no_newline = refl; no_return = refl; fits = omega arith }

check_schedule-IsOneLine : IsOneLine (save_line raw (codes "CHECK_SCHEDULE"))
unfolding raw set_all set is_listed same format_int format_nat digits lookup elem save_line
    quote_val escape contains_any has_prefix byte_len
check_schedule-IsOneLine = record { no_newline = refl; no_return = refl; fits = omega arith }

scheduler_enabled-IsOneLine : IsOneLine (save_line raw (codes "SCHEDULER_ENABLED"))
unfolding raw set_all set is_listed same format_int format_nat digits lookup elem save_line
    quote_val escape contains_any has_prefix byte_len
scheduler_enabled-IsOneLine = record { no_newline = refl; no_return = refl; fits = omega arith }

db_backup_enabled-IsOneLine : IsOneLine (save_line raw (codes "DB_BACKUP_ENABLED"))
unfolding raw set_all set is_listed same format_int format_nat digits lookup elem save_line
    quote_val escape contains_any has_prefix byte_len
db_backup_enabled-IsOneLine = record { no_newline = refl; no_return = refl; fits = omega arith }

lines-IsOneLine : All (λ o. IsOneLine (save_line raw o)) (map (λ e. e.0) entries)
lines-IsOneLine = (
  keep_daily-IsOneLine,
  (
    upload_limit_kbps-IsOneLine,
    (
      db_dump_min_free_mb-IsOneLine,
      (
        backup_schedule-IsOneLine,
        (
          check_schedule-IsOneLine,
          (scheduler_enabled-IsOneLine, (db_backup_enabled-IsOneLine, tt)),
        ),
      ),
    ),
  ),
)

load_config-save_text_example :
    load_config (some (save_text nightly))
    ≡ some (from_raw (entered entries []) (map (λ e. e.0) entries))
load_config-save_text_example =
    load_config-save_text nightly raw entries saved entries-IsEntry lines-IsOneLine
