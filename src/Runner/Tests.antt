-- ===== src/Runner/Tests.antt =====
-- A running backup and a run of a script, for the witnesses.
use native.Mathlib.Decide.{ℕ_discrete}
use oracle_backup.Base.{ℕ, true, false, ◌≡◌, ◌≢◌, refl, [], Option, none, some}
use oracle_backup.Base.Int.{pos}
use oracle_backup.Text.{Text, codes}
use oracle_backup.Store.Table.{Run, open_store, get_run, IsValid}
use oracle_backup.Collector.Summary.{BackupSummary}
use oracle_backup.Runner.Threads.{
  Task, backup, working, gated, Reach, here, next, pick, won, mark, System, boot, holds, update,
}
use oracle_backup.Runner.Exclusion.{mutual_exclusion}
use oracle_backup.Runner.Exec.{Around, exited, exec_backup, IsEntryOf, get_run-exec_backup}

abbrev manual : Task
manual = backup (codes "manual")

-- Thread 1 runs a backup.
abbrev one_working : System
one_working = record {
  runner = record { gate = true; running = true };
  pc = update (update boot.pc 1 (gated manual)) 1 (working manual);
}

one_working-Reach : Reach boot one_working
unfolding ℕ_discrete
one_working-Reach = next (next here (pick 1 (won manual refl))) (pick 1 mark)

one_working-holds : holds (one_working.pc 1) ≡ true
unfolding ℕ_discrete
one_working-holds = refl

mutual_exclusion_example : holds (one_working.pc 2) ≡ false
mutual_exclusion_example = mutual_exclusion one_working-Reach 1 2 one_working-holds (λ e. cc)

abbrev no_decode : Text → Option BackupSummary
no_decode t = none

abbrev around : Around
around = record {
  started_at = codes "t0";
  stamp = codes "s0";
  finished_at = codes "t1";
  result = exited (pos 2) (codes "exit status 2");
  last_summary = [];
  last_db_summary = [];
}

empty-IsValid : IsValid open_store
empty-IsValid = tt

get_run-exec_backup_example :
    let after =
      exec_backup no_decode (codes "/logs") (codes "manual") false false false around open_store in
    (get_run false 1 open_store ≡ none)
    × ((run : Run) × (get_run false 1 after ≡ some run)
        × IsEntryOf no_decode (codes "/logs") (codes "manual") around 1 run)
    × ((j : ℕ) → 1 ≢ j → get_run false j after ≡ get_run false j open_store)
get_run-exec_backup_example =
    get_run-exec_backup no_decode (codes "/logs") (codes "manual") around open_store empty-IsValid
