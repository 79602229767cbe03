-- ===== src/Web/AccessTests.antt =====
-- A login, a stranger and a restore, for the witnesses.
use oracle_backup.Base.{
  ◌≤◌, false, ◌||◌, ◌≡◌, ◌↔◌, ◌⊎◌, refl, List, [], ◌∷◌, Option, none, some, length, arith, suc,
  if◌then◌else◌,
}
use oracle_backup.Base.Int.{pos}
use oracle_backup.Text.{Text, codes, same, elem, clean, redact, parse_nat, has_prefix}
use oracle_backup.Auth.Session.{bar, parse_int}
use oracle_backup.Auth.Codec.{encode, decode, decode-encode, encode_no_bar}
use oracle_backup.Auth.Accepts.{InTime}
use oracle_backup.Store.Table.{
  Run, Store, open_store, start_run, set_log, get_run, find_row, update, IsValid,
}
use oracle_backup.Store.Lifecycle.{Call, starts, logs, step, steps, steps-IsValid}
use oracle_backup.Store.Pages.{Falling}
use oracle_backup.Web.Request.{
  Request, Env, Site, Handler, cookies, served, runs_found, no_content, current_user,
}
use oracle_backup.Web.Pages.{LoginBody, audited_as, is_https, log_in, handle_login}
use oracle_backup.Web.LoggedIn.{LogsIn, session_of, handle_login_session}
use oracle_backup.Web.Reads.{handle_history, handle_logs, find_log, get_run_int, show_log}
use oracle_backup.Web.Seen.{Logged, handle_history_bounds, handle_logs_serves}
use oracle_backup.Web.Restores.{RestoreBody, Machine}
use oracle_backup.Web.Routes.{Api, serve}
use oracle_backup.Web.Guarded.{Stranger, serve-Stranger}
use oracle_backup.Web.Tests.{env, post, site}

abbrev login_env : Env
login_env = record env { encode = encode; decode = decode; later = pos 100 }

abbrev pub form : LoginBody
form = record { user = codes "admin"; pass = codes "secret" }

abbrev token : Text
token = session_of login_env (codes "admin")

logged_in : (handle_login login_env form post site).0 ≡ cookies token (codes "fresh") false
unfolding handle_login same log_in is_https
logged_in = refl

no_bars : elem bar (codes "admin") ≡ false
unfolding elem
no_bars = refl

no_bars_in_version : elem bar (codes "v1") ≡ false
unfolding elem
no_bars_in_version = refl

abbrev carrier : Request
carrier = record post { session = some token }

handle_login_session_example :
    LogsIn login_env form token
    × ((current_user login_env (pos 200) carrier ≡ some (codes "admin")) ↔ InTime 100 200)
handle_login_session_example =
    handle_login_session login_env decode-encode encode_no_bar form post carrier site token
      (codes "fresh") false 100 200 logged_in refl no_bars no_bars_in_version refl (omega arith)
      (omega arith)

abbrev visitor : Request
visitor = record post { session = none; path = codes "/api/restore" }

visitor-Stranger : Stranger env visitor
unfolding current_user
visitor-Stranger = record { at_first = refl; at_last = refl }

abbrev inner : Api → Handler
inner a r s = (no_content, record s { webhook = none })

abbrev idle : Api → Handler
idle a r s = (no_content, s)

serve-Stranger_example :
    ((serve env form inner visitor site).0 ≡ (serve env form idle visitor site).0)
    × (((serve env form inner visitor site).1 ≡ site)
        ⊎ ((result : Text) × ((serve env form inner visitor site).1
              ≡ audited_as env (codes "admin") (codes "login") result site)))
serve-Stranger_example = serve-Stranger env form visitor visitor-Stranger inner idle site site

abbrev calls : List Call
calls =
    starts false (codes "manual") (codes "t0")
    ∷ logs false 1 (codes "/var/log/backup/x/../manual.log")
    ∷ []

abbrev ran : Store
ran = steps calls open_store

abbrev busy_site : Site
busy_site = record site { store = ran }

abbrev asks : Request
asks = record post { query = λ key. if same key (codes "run") then codes "1" else codes "1000" }

abbrev read_file : Text → Option Text
read_file path = some (codes "at rest:http://u:p@h/")

log_served :
    (handle_logs env false read_file asks busy_site).0 ≡ served (codes "at rest:http://***:***@h/")
unfolding handle_logs parse_int same parse_nat find_log get_run_int get_run find_row set_log update
    start_run show_log has_prefix clean redact steps step
log_served = refl

handle_logs_serves_example : Logged env read_file ran (codes "at rest:http://***:***@h/")
handle_logs_serves_example =
    handle_logs_serves env read_file asks busy_site (codes "at rest:http://***:***@h/") log_served

ran-IsValid : IsValid ran
ran-IsValid = steps-IsValid calls open_store tt

handle_history_bounds_example :
    let (resp, s') = handle_history false asks busy_site in
    (p : List Run) × (resp ≡ runs_found p)
    × (length p ≤ 500)
    × Falling (suc busy_site.store.seq) p
    × (s' ≡ busy_site)
handle_history_bounds_example = handle_history_bounds asks busy_site ran-IsValid

abbrev pub machine : Machine
machine = record {
  os = record {
    cwd = some (codes "/");
    stat = λ p. same p (codes "/") || same p (codes "/restore-out");
    eval_symlinks = λ p. some p;
  };
  clear = λ files. [];
  run = λ args files. record { error = none; out = []; scratch = codes "restored" ∷ [] };
  scripts = codes "/opt/backup/scripts";
}

abbrev restore_body : RestoreBody
restore_body = record {
  snapshot = codes "abcd1234";
  target = [];
  includes = codes "/home/a" ∷ [];
  password = codes "secret";
  confirm = codes "RESTORE";
}
