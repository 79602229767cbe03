-- ===== src/Runner/Exec.antt =====
-- `execBackup`: what one run of a script leaves in the history.
use oracle_backup.Base.{
  ℕ, suc, Bool, true, false, ◌≡◌, ◌≢◌, refl, ◌∙◌, [], ◌++◌, Option, none, some, arith, ◌==◌,
  if◌then◌else◌,
}
use oracle_backup.Base.Int.{ℤ, pos}
use oracle_backup.Text.{Text, codes, join, redact}
use oracle_backup.Collector.Summary.{BackupSummary, Parsed, found, missing, parse_backup_summary}
use oracle_backup.Store.Table.{
  Run, Store, Outcome, start_run, finish_run, set_log, get_run, scan_run, started_row, IsValid,
}
use oracle_backup.Store.Lookup.{
  get_run_zero, finished, logged, get_run-start_run, get_run-finish_run, get_run-set_log,
}

-- `cmd.Run()`: nil, an `*exec.ExitError` with its code, or another error; with the error's text.
pub data CmdResult : Type 0 where
  success : CmdResult
  exited : ℤ → Text → CmdResult
  broken : Text → CmdResult

-- What happens around one run: the clock's texts, the script's end, and the
-- two state files as they read after it (empty where they cannot be read).
pub record Around : Type 0 where
  pub started_at : Text
  pub stamp : Text
  pub finished_at : Text
  pub result : CmdResult
  pub last_summary : Text
  pub last_db_summary : Text

abbrev pub exit_of : CmdResult → ℤ
exit_of success = pos 0
exit_of (exited code msg) = code
exit_of (broken msg) = pos 0

abbrev pub status_of : CmdResult → Text
status_of success = codes "ok"
status_of (exited code msg) = codes "failed"
status_of (broken msg) = codes "failed"

unfoldable pub message_of : CmdResult → Text
message_of success = []
message_of (exited code msg) = redact msg
message_of (broken msg) = redact msg

-- `fmt.Sprintf("%s-%s.log", trigger, ts)` in the log directory.
unfoldable pub log_path : Text → Text → Text → Text
unfolding join
log_path log_dir trigger stamp = join log_dir (trigger ++ (codes "-" ++ (stamp ++ codes ".log")))

abbrev pub added_of : Parsed → ℤ
added_of missing = pos 0
added_of (found o) = o.data_added

abbrev pub snap_of : Parsed → Text
snap_of missing = []
snap_of (found o) = o.snapshot_id

-- `id, _ := r.store.StartRun(trigger)`: 0 when the row could not be made.
abbrev pub id_or_zero : Option ℕ → ℕ
id_or_zero none = 0
id_or_zero (some id) = id

-- How the end of the script reads in the history.
abbrev pub Ends : CmdResult → Run → Type 0
Ends success run = (run.status ≡ codes "ok") × (run.exit_code ≡ pos 0) × (run.error ≡ [])
Ends (exited code msg) run =
    (run.status ≡ codes "failed") × (run.exit_code ≡ code) × (run.error ≡ redact msg)
Ends (broken msg) run =
    (run.status ≡ codes "failed") × (run.exit_code ≡ pos 0) × (run.error ≡ redact msg)

-- How the summary reads, and what stands there without one.
abbrev pub Counts : Parsed → Run → Type 0
Counts missing run = (run.data_added ≡ pos 0) × (run.snapshot_id ≡ [])
Counts (found o) run = (run.data_added ≡ o.data_added) × (run.snapshot_id ≡ o.snapshot_id)

pub record IsEntryOf (decode : Text → Option BackupSummary) (log_dir trigger : Text) (a : Around)
    (id : ℕ) (run : Run) : Type 0 where
  pub named : run.id ≡ id
  pub triggered : run.trigger ≡ trigger
  pub began : run.started_at ≡ a.started_at
  pub over : run.finished_at ≡ a.finished_at
  pub logged_at : run.log_path ≡ join log_dir (trigger ++ (codes "-" ++ (a.stamp ++ codes ".log")))
  pub ended : Ends a.result run
  pub counted : Counts (parse_backup_summary decode a.last_summary) run
  pub databases : run.db_summary ≡ a.last_db_summary

module _ (decode : Text → Option BackupSummary) (log_dir trigger : Text) where
  -- What is written at the end of the run.
  unfoldable pub outcome : Around → Outcome
  unfolding message_of parse_backup_summary
  outcome a =
      let parsed = parse_backup_summary decode a.last_summary in
      record {
        status = status_of a.result;
        exit = exit_of a.result;
        added = added_of parsed;
        snap = snap_of parsed;
        dbsum = a.last_db_summary;
        errmsg = message_of a.result;
      }

  -- The three flags say which of the three statements the database refuses.
  unfoldable pub exec_backup : Bool → Bool → Bool → Around → Store → Store
  unfolding outcome log_path
  exec_backup start_fails log_fails finish_fails a s =
      let (started, s₁) = start_run start_fails trigger a.started_at s in
      let id = id_or_zero started in
      let s₂ = (set_log log_fails id (log_path log_dir trigger a.stamp) s₁).1 in
      (finish_run finish_fails id (outcome a) a.finished_at s₂).1

  -- The run as it reads once it is over.
  abbrev pub recorded : Around → Store → Run
  recorded a s = finished (outcome a) a.finished_at (
      logged (log_path log_dir trigger a.stamp)
        (scan_run (started_row (suc s.seq) trigger a.started_at)))

  Counts_lem :
      (p : Parsed) (run : Run)
      → run.data_added ≡ added_of p
      → run.snapshot_id ≡ snap_of p
      → Counts p run
  Counts_lem missing run a b = (a, b)
  Counts_lem (found o) run a b = (a, b)

  recorded-Ends : (a : Around) (s : Store) → Ends a.result (recorded a s)
  unfolding outcome message_of
  recorded-Ends a s = elim a.result as (λ x. Ends x (recorded (record a { result = x }) s)) [
    | success ↦ (refl, refl, refl)
    | exited code msg ↦ (refl, refl, refl)
    | broken msg ↦ (refl, refl, refl)
  ]

  recorded-Counts :
      (a : Around) (s : Store) → Counts (parse_backup_summary decode a.last_summary) (recorded a s)
  unfolding outcome
  recorded-Counts a s =
      Counts_lem (parse_backup_summary decode a.last_summary) (recorded a s) refl refl

  recorded-IsEntryOf :
      (a : Around) (s : Store) → IsEntryOf decode log_dir trigger a (suc s.seq) (recorded a s)
  unfolding outcome log_path
  recorded-IsEntryOf a s = record {
    named = refl;
    triggered = refl;
    began = refl;
    over = refl;
    logged_at = refl;
    ended = recorded-Ends a s;
    counted = recorded-Counts a s;
    databases = refl;
  }

  exec_backup_lem :
      (a : Around) (s : Store)
      → IsValid s
      → (j : ℕ)
      → (get_run false (suc s.seq) s ≡ none)
        × (get_run false j (exec_backup false false false a s)
            ≡ (if suc s.seq == j then some (recorded a s) else get_run false j s))
  unfolding exec_backup start_run
  exec_backup_lem a s v j =
      let (free, _, started, _) = get_run-start_run s trigger a.started_at v j in
      let s₁ = (start_run false trigger a.started_at s).1 in
      let path = log_path log_dir trigger a.stamp in
      let log = get_run-set_log s₁ (suc s.seq) j path in
      let done =
        get_run-finish_run (set_log false (suc s.seq) path s₁).1 (suc s.seq) j (outcome a)
          a.finished_at in
      (free, ground (arith, started, log, done))

  -- On a valid store, and when the database takes the three statements, a run adds one entry to the
  -- history, under an id that was free: with the trigger, both times, the log's path in the log
  -- directory, the summary of the databases, the added bytes and the snapshot of the summary, or 0 and
  -- none where the summary does not parse; with status "ok" and no error where the script succeeded,
  -- and "failed" with the masked text of the error where it did not; and with the exit code, 0 where
  -- there is none. Every other id reads as before.
  pub get_run-exec_backup :
      (a : Around) (s : Store)
      → IsValid s
      → let after = exec_backup false false false a s in
        (get_run false (suc s.seq) s ≡ none)
        × ((run : Run) × (get_run false (suc s.seq) after ≡ some run)
            × IsEntryOf decode log_dir trigger a (suc s.seq) run)
        × ((j : ℕ) → suc s.seq ≢ j → get_run false j after ≡ get_run false j s)
  get_run-exec_backup a s v =
      let (free, mine) = exec_backup_lem a s v (suc s.seq) in
      (
        free,
        (recorded a s, ground (arith, mine), recorded-IsEntryOf a s),
        λ j n. ground (arith, (exec_backup_lem a s v j).1, n),
      )

  no_log :
      (fails : Bool) (s : Store) (j : ℕ) (path : Text)
      → get_run false 0 s ≡ none
      → get_run false j (set_log fails 0 path s).1 ≡ get_run false j s
  no_log true s j path z = rw ((get_run-set_log s 0 j path).1)
  no_log false s j path z = ground (arith, (get_run-set_log s 0 j path).0)

  no_finish :
      (fails : Bool) (s : Store) (j : ℕ) (o : Outcome) (now : Text)
      → get_run false 0 s ≡ none
      → get_run false j (finish_run fails 0 o now s).1 ≡ get_run false j s
  no_finish true s j o now z = rw ((get_run-finish_run s 0 j o now).1)
  no_finish false s j o now z = ground (arith, (get_run-finish_run s 0 j o now).0)

  -- On a valid store, a run whose first statement the database refuses leaves every id as it read
  -- before, whether or not the two others are taken: such a run is in the history under no id.
  pub exec_backup_unrecorded :
      (log_fails finish_fails : Bool) (a : Around) (s : Store)
      → IsValid s
      → (j : ℕ) → get_run false j (exec_backup true log_fails finish_fails a s) ≡ get_run false j s
  unfolding exec_backup start_run
  exec_backup_unrecorded log_fails finish_fails a s v j =
      let z = get_run_zero s v in
      let path = log_path log_dir trigger a.stamp in
      no_finish finish_fails (set_log log_fails 0 path s).1 j (outcome a) a.finished_at
        (no_log log_fails s 0 path z ∙ z)
      ∙ no_log log_fails s j path z
