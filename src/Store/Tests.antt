-- ===== src/Store/Tests.antt =====
-- A database with a finished and a running run, for the witnesses.
use oracle_backup.Base.{arith, map, take, drop, suc, ◌+◌, false, ◌≡◌, List, [], ◌∷◌, ◌++◌, some}
use oracle_backup.Base.Int.{pos}
use oracle_backup.Text.{codes}
use oracle_backup.Store.Table.{
  Row, started_row, scan_run, Store, Outcome, open_store, list_runs, IsValid,
}
use oracle_backup.Store.Lifecycle.{Call, starts, finishes, steps}
use oracle_backup.Store.Refines.{view, replay_all, steps_refines}
use oracle_backup.Store.Pages.{IsShuffle, nothing, put, Falling, list_runs_pages}

abbrev good : Outcome
good = record {
  status = codes "ok";
  exit = pos 0;
  added = pos 42;
  snap = codes "abcd1234";
  dbsum = [];
  errmsg = [];
}

abbrev calls : List Call
calls =
    starts false (codes "manual") (codes "t0")
    ∷ finishes false 1 good (codes "t1")
    ∷ starts false (codes "schedule") (codes "t2")
    ∷ []

empty-IsValid : IsValid open_store
empty-IsValid = tt

abbrev older : Row
older = started_row 1 (codes "manual") (codes "t0")

abbrev newer : Row
newer = started_row 2 (codes "schedule") (codes "t2")

abbrev ordered : Store
ordered = record { runs = newer ∷ older ∷ []; audits = []; seq = 2 }

abbrev turned : Store
turned = record { runs = older ∷ newer ∷ []; audits = []; seq = 2 }

ordered-IsValid : IsValid ordered
ordered-IsValid = (omega arith, omega arith, (omega arith, omega arith, tt))

turned-IsShuffle : IsShuffle ordered.runs turned.runs
turned-IsShuffle = put newer (older ∷ []) (older ∷ []) [] (put older [] [] [] nothing)

list_runs_pages_example :
    let p = map scan_run (take 1 (drop 0 ordered.runs)) in
    let q = map scan_run (take 1 (drop (0 + 1) ordered.runs)) in
    (list_runs false 1 0 turned ≡ some p)
    × (list_runs false 1 (0 + 1) turned ≡ some q)
    × (list_runs false (1 + 1) 0 turned ≡ some (p ++ q))
    × Falling (suc ordered.seq) (map scan_run ordered.runs)
list_runs_pages_example = list_runs_pages ordered turned 1 1 0 ordered-IsValid turned-IsShuffle

steps_refines_example : view (steps calls open_store) ≡ replay_all calls (view open_store)
steps_refines_example = steps_refines calls open_store empty-IsValid
