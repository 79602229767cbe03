-- ===== src/Store/Table.antt =====
-- The tables `runs` and `audit`, and the statements over them.
use mathlib.Core.Option
use oracle_backup.Base.{
  ℕ, suc, ◌<◌, Bool, true, false, List, [], ◌∷◌, map, Option, none, some, ltb, ◌==◌, if◌then◌else◌,
  take, drop,
}
use oracle_backup.Base.Int.{ℤ, pos}
use oracle_backup.Text.{Text, codes, same}

-- A row of `runs`; a column that an INSERT leaves out is NULL, but the two counters default to 0.
pub record Row : Type 0 where
  pub id : ℕ
  pub trigger : Text
  pub status : Text
  pub started_at : Text
  pub finished_at : Option Text
  pub exit_code : ℤ
  pub data_added : ℤ
  pub snapshot_id : Option Text
  pub db_summary : Option Text
  pub log_path : Option Text
  pub error : Option Text

-- The Go struct that a row is scanned into.
pub record Run : Type 0 where
  pub id : ℕ
  pub trigger : Text
  pub status : Text
  pub started_at : Text
  pub finished_at : Text
  pub exit_code : ℤ
  pub data_added : ℤ
  pub snapshot_id : Text
  pub db_summary : Text
  pub log_path : Text
  pub error : Text

pub record AuditRow : Type 0 where
  pub ts : Text
  pub actor : Text
  pub action : Text
  pub result : Text

-- `seq` is the largest id that AUTOINCREMENT has given out. The newest row stands first.
pub record Store : Type 0 where
  pub runs : List Row
  pub audits : List AuditRow
  pub seq : ℕ

-- The tables that the schema creates.
abbrev pub open_store : Store
open_store = record { runs = []; audits = []; seq = 0 }

abbrev pub running : Text
running = codes "running"

abbrev pub interrupted : Text
interrupted = codes "interrupted"

-- The row that the INSERT of `StartRun` makes.
abbrev pub started_row : ℕ → Text → Text → Row
started_row id trigger now = record {
  id = id;
  trigger = trigger;
  status = running;
  started_at = now;
  finished_at = none;
  exit_code = pos 0;
  data_added = pos 0;
  snapshot_id = none;
  db_summary = none;
  log_path = none;
  error = none;
}

-- `LastInsertId`, or the error.
unfoldable pub start_run : Bool → Text → Text → Store → Option ℕ × Store
start_run true trigger now s = (none, s)
start_run false trigger now s =
    let id = suc s.seq in
    (some id, record s { runs = started_row id trigger now ∷ s.runs; seq = id })

-- `UPDATE runs SET … WHERE …`
unfoldable pub update_where : (Row → Bool) → (Row → Row) → List Row → List Row
update_where test change [] = []
update_where test change (r ∷ rs) = (if test r then change r else r) ∷ update_where test change rs

-- What the UPDATE of `FinishRun` sets.
pub record Outcome : Type 0 where
  pub status : Text
  pub exit : ℤ
  pub added : ℤ
  pub snap : Text
  pub dbsum : Text
  pub errmsg : Text

abbrev pub finished_row : Outcome → Text → Row → Row
finished_row o now r = record r {
  status = o.status;
  finished_at = some now;
  exit_code = o.exit;
  data_added = o.added;
  snapshot_id = some o.snap;
  db_summary = some o.dbsum;
  error = some o.errmsg;
}

-- The UPDATE of a store, unless the engine refuses it: `true` is a nil error.
unfoldable pub update : Bool → (Row → Bool) → (Row → Row) → Store → Bool × Store
unfolding update_where
update true test change s = (false, s)
update false test change s = (true, record s { runs = update_where test change s.runs })

unfoldable pub finish_run : Bool → ℕ → Outcome → Text → Store → Bool × Store
finish_run fails id o now = update fails (λ r. r.id == id) (finished_row o now)

unfoldable pub set_log : Bool → ℕ → Text → Store → Bool × Store
set_log fails id path = update fails (λ r. r.id == id) (λ r. record r { log_path = some path })

abbrev pub interrupted_row : Text → Row → Row
interrupted_row now r = record r { status = interrupted; finished_at = some now }

abbrev pub is_running : Row → Bool
is_running r = same r.status running

unfoldable pub reconcile_stuck : Bool → Text → Store → Bool × Store
reconcile_stuck fails now = update fails is_running (interrupted_row now)

-- `IFNULL(column, '')`
abbrev pub if_null : Option Text → Text
if_null none = []
if_null (some t) = t

-- The columns of `runCols`, scanned by `scanRun`.
abbrev pub scan_run : Row → Run
scan_run r = record {
  id = r.id;
  trigger = r.trigger;
  status = r.status;
  started_at = r.started_at;
  finished_at = if_null r.finished_at;
  exit_code = r.exit_code;
  data_added = r.data_added;
  snapshot_id = if_null r.snapshot_id;
  db_summary = if_null r.db_summary;
  log_path = if_null r.log_path;
  error = if_null r.error;
}

-- `WHERE id=?`, the first row.
unfoldable pub find_row : ℕ → List Row → Option Row
find_row id [] = none
find_row id (r ∷ rs) = if r.id == id then some r else find_row id rs

-- `none` is `sql.ErrNoRows`, or the engine's error.
unfoldable pub get_run : Bool → ℕ → Store → Option Run
get_run true id s = none
get_run false id s = Option.map scan_run (find_row id s.runs)

-- `ORDER BY id DESC`
unfoldable pub insert_desc : Row → List Row → List Row
insert_desc r [] = r ∷ []
insert_desc r (q ∷ qs) = if ltb r.id q.id then q ∷ insert_desc r qs else r ∷ q ∷ qs

unfoldable pub sort_desc : List Row → List Row
unfolding insert_desc
sort_desc [] = []
sort_desc (r ∷ rs) = insert_desc r (sort_desc rs)

-- `ORDER BY id DESC LIMIT ? OFFSET ?`, each row scanned; `none` is the engine's error.
unfoldable pub list_runs : Bool → ℕ → ℕ → Store → Option (List Run)
unfolding sort_desc
list_runs true limit offset s = none
list_runs false limit offset s = some (map scan_run (take limit (drop offset (sort_desc s.runs))))

-- An error of the INSERT is ignored.
unfoldable pub audit : Bool → Text → Text → Text → Text → Store → Store
audit true actor action result now s = s
audit false actor action result now s = record s {
  audits = record { ts = now; actor = actor; action = action; result = result } ∷ s.audits;
}

-- Ids are positive, below the bound, and fall from row to row.
abbrev pub Below : ℕ → List Row → Type 0
Below n [] = Unit {0}
Below n (r ∷ rs) = (0 < r.id) × (r.id < n) × Below r.id rs

abbrev pub IsValid : Store → Type 0
IsValid s = Below (suc s.seq) s.runs
