-- ===== src/Config/Load.antt =====
-- `LoadConfig`. The file is its text; `none` is a file that cannot be opened.
use oracle_backup.Base.{
  ℕ, ◌*◌, Bool, true, false, not, ◌||◌, List, [], ◌∷◌, ◌++◌, Option, none, some, ◌==◌,
  if◌then◌else◌,
}
use oracle_backup.Base.Int.{ℤ, pos}
use oracle_backup.Text.{Text, codes, same, has_prefix, elem, trim, trim_space, scan_lines}
use oracle_backup.Auth.Session.{parse_int}

-- A map is the list of its entries, the last write first.
abbrev pub Raw : Type 0
Raw = List (Text × Text)

unfoldable pub lookup : Text → Raw → Option Text
unfolding same
lookup k [] = none
lookup k ((j, v) ∷ raw) = if same k j then some v else lookup k raw

pub record Config : Type 0 where
  pub keep_daily : ℤ
  pub upload_limit : ℤ
  pub backup_schedule : Text
  pub check_schedule : Text
  pub scheduler_on : Bool
  pub db_backup_enabled : Bool
  pub min_free_mb : ℤ
  pub pg_container : Text
  pub mongo_container : Text
  pub redis_container : Text
  pub raw : Raw
  pub order : List Text

abbrev pub equals : ℕ
equals = b'='

-- The text before the first `=`, and the text behind it.
unfoldable pub before : Text → Text
before [] = []
before (c ∷ s) = let rest = before s in if c == equals then [] else c ∷ rest

unfoldable pub behind : Text → Text
behind [] = []
behind (c ∷ s) = let rest = behind s in if c == equals then s else rest

abbrev pub is_quote : ℕ → Bool
is_quote c = c == b'"' || c == 39

-- Blank, a comment, or without `=`.
unfoldable pub is_remark : Text → Bool
is_remark line = same line [] || has_prefix line (codes "#") || not (elem equals line)

unfoldable pub key_of : Text → Text
key_of line = trim_space (before line)

unfoldable pub value_of : Text → Text
value_of line = trim is_quote (trim_space (behind line))

-- The loop over the lines.
unfoldable pub load_lines : List Text → Raw → List Text → Raw × List Text
load_lines [] raw order = (raw, order)
load_lines (l ∷ ls) raw order =
    let line = trim_space l in
    elim (is_remark line) [
      | true ↦ load_lines ls raw (order ++ line ∷ [])
      | false ↦ load_lines ls ((key_of line, value_of line) ∷ raw) (order ++ key_of line ∷ [])
    ]

-- The key's number, or the default where there is no key or no number.
unfoldable pub number_or : Text → ℤ → Raw → ℤ
number_or k d raw = elim (lookup k raw) [
  | none ↦ d
  | some s ↦ elim (parse_int s) [ none ↦ d | some n ↦ n ]
]

-- Reading a map without the key yields the empty text.
unfoldable pub text_at : Text → Raw → Text
text_at k raw = elim (lookup k raw) [ none ↦ [] | some v ↦ v ]

unfoldable pub from_raw : Raw → List Text → Config
from_raw raw order = record {
  keep_daily = number_or (codes "KEEP_DAILY") (pos 7) raw;
  upload_limit = number_or (codes "UPLOAD_LIMIT_KBPS") (pos 0) raw;
  backup_schedule = text_at (codes "BACKUP_SCHEDULE") raw;
  check_schedule = text_at (codes "CHECK_SCHEDULE") raw;
  scheduler_on = not (same (text_at (codes "SCHEDULER_ENABLED") raw) (codes "false"));
  db_backup_enabled = not (same (text_at (codes "DB_BACKUP_ENABLED") raw) (codes "false"));
  min_free_mb = number_or (codes "DB_DUMP_MIN_FREE_MB") (pos 5000) raw;
  pg_container = text_at (codes "PG_CONTAINER") raw;
  mongo_container = text_at (codes "MONGO_CONTAINER") raw;
  redis_container = text_at (codes "REDIS_CONTAINER") raw;
  raw = raw;
  order = order;
}

-- The longest line of a scanner's default buffer.
abbrev pub max_line : ℕ
max_line = 64 * 1024

unfoldable pub load_config : Option Text → Option Config
load_config none = none
load_config (some file) =
    let (raw, order) = load_lines (scan_lines max_line file) [] [] in some (from_raw raw order)
