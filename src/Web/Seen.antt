-- ===== src/Web/Seen.antt =====
-- What the reading handlers give out.
use oracle_backup.Base.{
  ℕ, suc, ap, ◌≤◌, false, ◌≡◌, inl, inr, refl, List, [], ◌++◌, Option, none, some, arith, length,
  Bool-cases, Option-cases,
}
use oracle_backup.Base.Int.{ℤ, pos, negsuc}
use oracle_backup.Text.{Text, codes, same, has_prefix, has_prefix_sound, clean, redact}
use oracle_backup.Auth.Session.{parse_int}
use oracle_backup.Store.Table.{Run, Store, get_run, IsValid}
use oracle_backup.Store.Pages.{list_runs_page, Falling}
use oracle_backup.Web.Request.{Request, Env, Site, served, runs_found}
use oracle_backup.Web.Reads.{
  history_limit, limit_or_default, runs_response, handle_history, show_log, find_log, handle_logs,
  get_run_int,
}

limit_bounds : (z : Option ℤ) → (1 ≤ limit_or_default z) × (limit_or_default z ≤ 500)
limit_bounds none = (omega arith, omega arith)
limit_bounds (some (negsuc n)) = (omega arith, omega arith)
limit_bounds (some (pos n)) = ground arith

history_limit_bounds : (l : Text) → (1 ≤ history_limit l) × (history_limit l ≤ 500)
unfolding history_limit
history_limit_bounds l = elim (Bool-cases (same l [])) [
  | inl y ↦ rw y (omega arith, omega arith)
  | inr n ↦ rw n (limit_bounds (parse_int l))
]

-- What a log request may give out.
abbrev pub Logged : Env → (Text → Option Text) → Store → Text → Type 0
Logged env read_file s t =
    (id : ℕ) × (run : Run) × (get_run false id s ≡ some run)
    × ((rest : Text) × (clean run.log_path ≡ (env.log_dir ++ codes "/") ++ rest))
    × ((file : Text) × (read_file (clean run.log_path) ≡ some file) × (t ≡ redact file))

show_log_lem :
    (log_dir : Text) (read_file : Text → Option Text) (run : Run) (t : Text)
    → show_log log_dir read_file run ≡ served t
    → ((rest : Text) × (clean run.log_path ≡ (log_dir ++ codes "/") ++ rest))
      × ((file : Text) × (read_file (clean run.log_path) ≡ some file) × (t ≡ redact file))
unfolding show_log
show_log_lem log_dir read_file run t h = elim (Bool-cases (same run.log_path [])) [
  | inl y ↦ absurd (ground arith)
  | inr n ↦ elim (Bool-cases (has_prefix (clean run.log_path) (log_dir ++ codes "/"))) [
    | inr m ↦ absurd (ground arith)
    | inl p ↦ elim (Option-cases (read_file (clean run.log_path))) [
      | inl e ↦ absurd (ground arith)
      | inr (file, e) ↦
          (has_prefix_sound (clean run.log_path) (log_dir ++ codes "/") p, (file, e, ground arith))
    ]
  ]
]

find_log_lem :
    (env : Env) (read_file : Text → Option Text) (id : ℤ) (s : Store) (t : Text)
    → find_log env false read_file id s ≡ served t
    → Logged env read_file s t
unfolding find_log get_run_int
find_log_lem env read_file (negsuc n) s t h = cc h
find_log_lem env read_file (pos id) s t h = elim (Option-cases (get_run false id s)) [
  | inl e ↦ absurd (ground arith)
  | inr (run, e) ↦
      let (place, file) = show_log_lem env.log_dir read_file run t (ground arith) in
      (id, run, e, place, file)
]

-- A log is given out only for a run of the history whose log path, cleaned, lies in the log directory:
-- it is the file of that cleaned path, with its credentials masked.
pub handle_logs_serves :
    (env : Env) (read_file : Text → Option Text) (r : Request) (s : Site) (t : Text)
    → (handle_logs env false read_file r s).0 ≡ served t
    → Logged env read_file s.store t
unfolding handle_logs
handle_logs_serves env read_file r s t h = elim (Option-cases (parse_int (r.query (codes "run")))) [
  | inl e ↦ absurd (ground arith)
  | inr (id, e) ↦ find_log_lem env read_file id s.store t (ground arith)
]

-- Whatever limit a request names, the history of a valid store is answered with at most 500 runs,
-- their ids falling from run to run, the newest first; nothing changes.
pub handle_history_bounds :
    (r : Request) (s : Site)
    → IsValid s.store
    → let (resp, s') = handle_history false r s in
      (p : List Run) × (resp ≡ runs_found p)
      × (length p ≤ 500)
      × Falling (suc s.store.seq) p
      × (s' ≡ s)
unfolding handle_history
handle_history_bounds r s v =
    let limit = history_limit (r.query (codes "limit")) in
    let (p, e, short, falling) = list_runs_page s.store limit 0 v in
    let (_, top) = history_limit_bounds (r.query (codes "limit")) in
    (p, ap runs_response e, omega (arith, short, top), falling, refl)
