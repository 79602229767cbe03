-- ===== src/Store/Lookup.antt =====
-- The history as a map from ids to runs: what each statement of store.go does to every id.
use mathlib.Core.Option
use oracle_backup.Base.{
  ℕ, suc, ◌≤◌, Bool, true, false, ◌≡◌, refl, List, [], ◌∷◌, Option, none, some, ◌==◌, ap,
  if◌then◌else◌, arith,
}
use oracle_backup.Text.{Text, same}
use oracle_backup.Store.Table.{
  Row, Run, Store, Outcome, started_row, start_run, update_where, update, finished_row, finish_run,
  set_log, interrupted_row, is_running, reconcile_stuck, interrupted, running, scan_run, find_row,
  get_run, Below, IsValid,
}

find_row-update_where :
    (test : Row → Bool) (change : Row → Row)
    → ((r : Row) → (change r).id ≡ r.id)
    → (j : ℕ) (rs : List Row)
    → find_row j (update_where test change rs)
      ≡ Option.map (λ r. if test r then change r else r) (find_row j rs)
unfolding find_row update_where
find_row-update_where test change same_id j [] = refl
find_row-update_where test change same_id j (r ∷ rs) =
    ground (arith, same_id r, find_row-update_where test change same_id j rs)

pub find_row_id : (j : ℕ) (rs : List Row) (r : Row) → find_row j rs ≡ some r → r.id ≡ j
unfolding find_row
find_row_id j [] r e = cc
find_row_id j (q ∷ rs) r e = ground (arith, find_row_id j rs r)

-- An id at or above the bound names no row.
find_row_above : (j n : ℕ) (rs : List Row) → Below n rs → n ≤ j → find_row j rs ≡ none
unfolding find_row
find_row_above j n [] b h = refl
find_row_above j n (r ∷ rs) b h = ground (arith, find_row_above j r.id rs b.2)

-- 0 is the id that `StartRun` returns with an error.
find_row_zero : (n : ℕ) (rs : List Row) → Below n rs → find_row 0 rs ≡ none
unfolding find_row
find_row_zero n [] b = refl
find_row_zero n (r ∷ rs) b = ground (arith, find_row_zero r.id rs b.2)

pub get_run_zero : (s : Store) → IsValid s → get_run false 0 s ≡ none
unfolding get_run
get_run_zero s v = ap (Option.map scan_run) (find_row_zero (suc s.seq) s.runs v)

-- A change of one id's row, read as a change of one run.
read-update_where :
    (change : Row → Row) (g : Run → Run)
    → ((r : Row) → (change r).id ≡ r.id)
    → ((r : Row) → scan_run (change r) ≡ g (scan_run r))
    → (i j : ℕ) (rs : List Row)
    → Option.map scan_run (find_row j (update_where (λ r. r.id == i) change rs)) ≡ (
        if i == j
        then Option.map g (Option.map scan_run (find_row j rs))
        else Option.map scan_run (find_row j rs))
unfolding find_row update_where
read-update_where change g same_id reads i j [] = ground arith
read-update_where change g same_id reads i j (r ∷ rs) =
    ground (arith, same_id r, reads r, read-update_where change g same_id reads i j rs)

-- What a finished run reads as.
abbrev pub finished : Outcome → Text → Run → Run
finished o now r = record r {
  status = o.status;
  finished_at = now;
  exit_code = o.exit;
  data_added = o.added;
  snapshot_id = o.snap;
  db_summary = o.dbsum;
  error = o.errmsg;
}

-- On a valid store `StartRun` gives out an id that named no run, and a run that is read under it is
-- running, with the trigger and the time given and nothing else set; every other id reads as before.
-- When the INSERT fails no id is returned and every id reads as before.
pub get_run-start_run :
    (s : Store) (trigger now : Text)
    → IsValid s
    → (j : ℕ)
    → (get_run false (suc s.seq) s ≡ none)
      × ((start_run false trigger now s).0 ≡ some (suc s.seq))
      × (get_run false j (start_run false trigger now s).1 ≡ (
          if suc s.seq == j
          then some (scan_run (started_row (suc s.seq) trigger now))
          else get_run false j s))
      × (start_run true trigger now s ≡ (none, s))
unfolding start_run get_run find_row
get_run-start_run s trigger now v j = (
  ap (Option.map scan_run) (find_row_above (suc s.seq) (suc s.seq) s.runs v (omega arith)),
  refl,
  ground arith,
  refl,
)

-- `FinishRun` records the outcome on the run of its id and leaves every other id as it was; it
-- makes no run. When the UPDATE fails nothing changes.
pub get_run-finish_run :
    (s : Store) (i j : ℕ) (o : Outcome) (now : Text)
    → (get_run false j (finish_run false i o now s).1
        ≡ (if i == j then Option.map (finished o now) (get_run false j s) else get_run false j s))
      × (finish_run true i o now s ≡ (false, s))
unfolding finish_run update get_run
get_run-finish_run s i j o now = (
  read-update_where (finished_row o now) (finished o now) (λ r. refl) (λ r. refl) i j s.runs,
  refl,
)

-- What a run reads as once its log is named.
abbrev pub logged : Text → Run → Run
logged path r = record r { log_path = path }

-- `SetLog` records the log's path on the run of its id and leaves every other id as it was. When the
-- UPDATE fails nothing changes.
pub get_run-set_log :
    (s : Store) (i j : ℕ) (path : Text)
    → (get_run false j (set_log false i path s).1
        ≡ (if i == j then Option.map (logged path) (get_run false j s) else get_run false j s))
      × (set_log true i path s ≡ (false, s))
unfolding set_log update get_run
get_run-set_log s i j path =
    (read-update_where _ (logged path) (λ r. refl) (λ r. refl) i j s.runs, refl)

-- What a run reads as after the reconciliation.
abbrev pub settled : Text → Run → Run
settled now r =
    if same r.status running then record r { status = interrupted; finished_at = now } else r

read-settled :
    (now : Text) (o : Option Row)
    → Option.map scan_run (Option.map (λ r. if is_running r then interrupted_row now r else r) o)
      ≡ Option.map (settled now) (Option.map scan_run o)
read-settled now none = refl
read-settled now (some r) = ground arith

settled_not_running : (now : Text) (r : Run) → same (settled now r).status running ≡ false
unfolding same
settled_not_running now r = ground arith

-- A run that is found does not read as running.
abbrev pub NotRunning : Option Run → Type 0
NotRunning none = Unit {0}
NotRunning (some r) = same r.status running ≡ false

NotRunning-settled : (now : Text) (o : Option Run) → NotRunning (Option.map (settled now) o)
NotRunning-settled now none = tt
NotRunning-settled now (some r) = settled_not_running now r

-- After `ReconcileStuck` the run of an id is the run it was, but marked interrupted at the given
-- time exactly where it was running; so no id reads as running.
pub get_run-reconcile_stuck :
    (s : Store) (now : Text) (j : ℕ)
    → (get_run false j (reconcile_stuck false now s).1
        ≡ Option.map (settled now) (get_run false j s))
      × NotRunning (get_run false j (reconcile_stuck false now s).1)
unfolding reconcile_stuck update get_run
get_run-reconcile_stuck s now j =
    (law, rw law (NotRunning-settled now (Option.map scan_run (find_row j s.runs))))
  where
    law :
        Option.map scan_run (find_row j (update_where is_running (interrupted_row now) s.runs))
        ≡ Option.map (settled now) (Option.map scan_run (find_row j s.runs))
    law =
        rw (find_row-update_where is_running (interrupted_row now) (λ r. refl) j s.runs)
          (read-settled now (find_row j s.runs))
