-- ===== src/Web/Reads.antt =====
-- The handlers of the status, the snapshots, the history, the logs and the excludes.
use oracle_backup.Base.{
  ℕ, ◌*◌, Bool, not, ◌&&◌, List, [], ◌∷◌, ◌++◌, Option, none, some, ltb, leb, take, if◌then◌else◌,
}
use oracle_backup.Base.Int.{ℤ, pos, negsuc}
use oracle_backup.Text.{Text, codes, same, has_prefix, trim_space, clean, redact}
use oracle_backup.Auth.Session.{parse_int}
use oracle_backup.Store.Table.{Run, Store, get_run, list_runs}
use oracle_backup.Runner.Gate.{busy}
use oracle_backup.Collector.Cache.{Listed, listed, failed, list_snapshots_cached}
use oracle_backup.Web.Request.{
  Env, Value, str, flag, Response, text, json, served, no_content, runs_found, snaps_found, Handler,
  check_csrf, audited,
}
use oracle_backup.Web.Settings.{is_method}

-- The files of /state and the scheduler, as `handleStatus` reads them; `next_run` is empty for none.
pub record Status : Type 0 where
  pub last_success : Option Text
  pub last_failure : Option Text
  pub next_run : Text
  pub host : Text
  pub scheduler_enabled : Bool

abbrev pub file_field : Text → Option Text → List (Text × Value)
file_field key none = []
file_field key (some file) = (key, str (trim_space file)) ∷ []

-- A JSON object has no order, so the fields stand in the order of the assignments.
unfoldable pub handle_status : Status → Handler
handle_status st r s = (
  json 200 (
      (codes "busy", flag (busy s.shared.runner))
      ∷ (file_field (codes "last_success") st.last_success
          ++ (file_field (codes "last_failure") st.last_failure
              ++ ((if same st.next_run [] then [] else (codes "next_run", str st.next_run) ∷ [])
                  ++ ((codes "host", str st.host)
                      ∷ (codes "scheduler_enabled", flag st.scheduler_enabled)
                      ∷ []))))),
  s,
)

abbrev pub snaps_response : Text → Listed → Response
snaps_response err (listed snaps) = snaps_found snaps
snaps_response err failed = json 502 ((codes "error", str (redact err)) ∷ [])

-- `fetch` is what `ListSnapshots` answers if it is asked, `err` the text of its error, `now` and
-- `later` the clock in nanoseconds.
unfoldable pub handle_snapshots : Listed → Text → ℕ → ℕ → Handler
handle_snapshots fetch err now later r s =
    let fresh = same (r.query (codes "fresh")) (codes "1") in
    let (answer, cache) =
      list_snapshots_cached (15 * 1000000000) fresh now fetch later s.snap_cache s.snap_cache in
    (snaps_response err answer, record s { snap_cache = cache })

-- `n > 0 && n <= 500`
abbrev pub limit_or_default : Option ℤ → ℕ
limit_or_default none = 50
limit_or_default (some (negsuc n)) = 50
limit_or_default (some (pos n)) = if ltb 0 n && leb n 500 then n else 50

unfoldable pub history_limit : Text → ℕ
history_limit l = if same l [] then 50 else limit_or_default (parse_int l)

abbrev pub runs_response : Option (List Run) → Response
runs_response none = json 500 ((codes "error", str (codes "db")) ∷ [])
runs_response (some runs) = runs_found runs

unfoldable pub handle_history : Bool → Handler
handle_history db_fails r s =
    (runs_response (list_runs db_fails (history_limit (r.query (codes "limit"))) 0 s.store), s)

-- No row has a negative id.
unfoldable pub get_run_int : Bool → ℤ → Store → Option Run
get_run_int db_fails (pos id) s = get_run db_fails id s
get_run_int db_fails (negsuc n) s = none

-- The part behind the look-up of the run; `read_file` is `os.ReadFile`.
unfoldable pub show_log : Text → (Text → Option Text) → Run → Response
show_log log_dir read_file run =
    let path = clean run.log_path in
    if same run.log_path []
    then text 404 (codes "no log")
    else if not (has_prefix path (log_dir ++ codes "/"))
    then text 403 (codes "forbidden")
    else elim (read_file path) [
      | none ↦ text 404 (codes "log expired")
      | some file ↦ served (redact file)
    ]

module _ (env : Env) where
  unfoldable pub find_log : Bool → (Text → Option Text) → ℤ → Store → Response
  find_log db_fails read_file id s = elim (get_run_int db_fails id s) [
    | none ↦ text 404 (codes "no log")
    | some run ↦ show_log env.log_dir read_file run
  ]

  unfoldable pub handle_logs : Bool → (Text → Option Text) → Handler
  handle_logs db_fails read_file r s = elim (parse_int (r.query (codes "run"))) [
    | none ↦ (text 400 (codes "bad run id"), s)
    | some id ↦ (find_log db_fails read_file id s.store, s)
  ]

  abbrev pub max_excludes : ℕ
  max_excludes = 256 * 1024

  -- `body` is the bytes that are sent, `none` for an error; the limited reader stops behind the last
  -- byte that it may read, without an error.
  unfoldable pub put_excludes : Option Text → Handler
  put_excludes none r s = (text 400 (codes "read"), s)
  put_excludes (some body) r s = if env.os_fails then (text 500 (codes "save"), s) else (
    no_content,
    audited env r (codes "excludes-update") (codes "ok")
        (record s { excludes = some (take max_excludes body) }),
  )

  abbrev pub text_of : Option Text → Text
  text_of none = []
  text_of (some file) = file

  unfoldable pub handle_excludes : Option Text → Handler
  handle_excludes body r s =
      if is_method (codes "GET") r
      then (served (text_of s.excludes), s)
      else if is_method (codes "PUT") r
      then (if not (check_csrf env r) then (text 403 (codes "csrf"), s) else put_excludes body r s)
      else (text 405 (codes "method"), s)
