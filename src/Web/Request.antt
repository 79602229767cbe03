-- ===== src/Web/Request.antt =====
-- A request, the server around it, `currentUser`, `requireAuth` and `checkCSRF`.
use oracle_backup.Base.{ℕ, Bool, false, not, ◌&&◌, List, [], Option, none, some, if◌then◌else◌}
use oracle_backup.Base.Int.{ℤ}
use oracle_backup.Text.{Text, codes, same}
use oracle_backup.Auth.Session.{verify_session}
use oracle_backup.Store.Table.{Run, Store, audit}
use oracle_backup.Runner.Calls.{Call}
use oracle_backup.Collector.Cache.{Snapshot, SnapCache}
use oracle_backup.Restore.Target.{Target}
use oracle_backup.Migrate.Start.{Shared, StartError}
use oracle_backup.Migrate.Status.{MigrationStatus}
use oracle_backup.Rclone.Gui.{Gui}
use oracle_backup.Inputs.DbJobs.{DbJob, JobError}
use oracle_backup.Inputs.SourcePaths.{PathError}
use oracle_backup.Config.Save.{ConfigError}

-- A header that is not sent is empty; a cookie that is not sent is `none`.
pub record Request : Type 0 where
  pub method : Text
  pub path : Text
  pub query : Text → Text  -- a parameter that is not given is empty
  pub tls : Bool
  pub forwarded_proto : Text
  pub session : Option Text
  pub csrf : Option Text
  pub csrf_header : Text
  pub origin : Text
  pub referer : Text
  pub host : Text

-- What a request meets: the libraries that the checks call, the server's keys, and what the clock and
-- the system answer while it is handled. `url_host` is the host of a URL, `none` where it does not
-- parse.
pub record Env : Type 0 where
  pub hmac : Text → Text → Text
  pub encode : Text → Text
  pub decode : Text → Option Text
  pub url_host : Text → Option Text
  pub check_password : Text → Bool  -- against the admin hash
  pub encode_jobs : List DbJob → Option Text  -- `json.MarshalIndent`
  pub is_cron : Text → Bool
  pub ui_file : Text → Bool  -- the embedded files of the user interface
  pub admin_user : Text
  pub has_admin_hash : Bool
  pub fresh_token : Text  -- `randToken`
  pub log_dir : Text
  pub restore_root : Text
  pub session_key : Text
  pub session_ver : Text
  pub entered : ℤ  -- the time when the session is checked
  pub later : ℤ  -- the time when the handler asks for the user
  pub now : Text  -- the time of the audit entry
  pub audit_fails : Bool
  pub os_fails : Bool  -- the write or the removal of the file

-- One line of a directory of a snapshot, and a directory.
pub record Entry : Type 0 where
  pub name : Text
  pub type : Text
  pub path : Text
  pub size : ℤ

pub record Listing : Type 0 where
  pub path : Text
  pub entries : List Entry

-- A folder of a remote.
pub record Folder : Type 0 where
  pub name : Text
  pub path : Text

-- One configured remote.
pub record RemoteInfo : Type 0 where
  pub name : Text
  pub type : Text
  pub active : Bool

-- What the handlers read and change. The containers and files outside, rclone.conf among them, are
-- changed by the calls, which are all kept: commands that only read are left out, and those of a
-- backup, a migration and the GUI stand for themselves in `shared` and `gui`.
pub record Site : Type 0 where
  pub store : Store
  pub shared : Shared
  pub source_paths : Option Text
  pub db_jobs : Option Text
  pub webhook : Option Text
  pub config : Option Text
  pub excludes : Option Text  -- the bytes of the file
  pub snap_cache : SnapCache
  pub ls_cache : List (Text × Listing)
  pub scratch : List Text  -- what is under the restore root
  pub gui : Gui
  pub called : List Call  -- the latest first

pub data Value : Type 0 where
  str : Text → Value
  flag : Bool → Value
  num : ℤ → Value
  jobs_value : List DbJob → Value

-- The status code with a text or a JSON object. The four in between carry an error of a check, whose
-- text is sent with 400 or, for a migration that does not start, as JSON with 409.
pub data Response : Type 0 where
  text : ℕ → Text → Response
  bad_paths : PathError → Response
  bad_jobs : JobError → Response
  bad_config : ConfigError → Response
  not_started : StartError → Response
  json : ℕ → List (Text × Value) → Response
  status : MigrationStatus → Response  -- the JSON object of the status, with 200
  page : Text → Text → Response  -- a file of the user interface and its content type, not cached
  redirect : Text → Response
  cookies : Text → Text → Bool → Response  -- session, CSRF token, and whether they are secure
  no_cookies : Response  -- both cookies deleted, with 204
  no_content : Response
  served : Text → Response  -- plain text, with 200
  runs_found : List Run → Response
  snaps_found : Option (List Snapshot) → Response
  listing : Listing → Response
  folders : Text → List Folder → Response
  remotes : List RemoteInfo → Response
  archive : List (Text × Text) → Response  -- names and bytes
  bad_target : Target → Response  -- 400 with the error's text

unfoldable pub current_user : Env → ℤ → Request → Option Text
current_user env now r = elim r.session [
  | none ↦ none
  | some tok ↦ verify_session env.hmac env.encode env.decode tok env.session_key now env.session_ver
]

-- `user, _ := s.currentUser(r)`: empty where there is none.
abbrev pub text_or_empty : Option Text → Text
text_or_empty none = []
text_or_empty (some user) = user

unfoldable pub user_of : Env → Request → Text
user_of env r = text_or_empty (current_user env env.later r)

abbrev pub Handler : Type 0
Handler = Request → Site → Response × Site

unfoldable pub require_auth : Env → Handler → Handler
require_auth env next r s = elim (current_user env env.entered r) [
  | none ↦ (text 401 (codes "unauthorized"), s)
  | some user ↦ next r s
]

-- `err == nil && u.Host == r.Host`
abbrev pub is_host : Option Text → Text → Bool
is_host none host = false
is_host (some h) host = same h host

unfoldable pub same_origin : Env → Request → Bool
same_origin env r =
    if not (same r.origin [])
    then is_host (env.url_host r.origin) r.host
    else if not (same r.referer [])
    then is_host (env.url_host r.referer) r.host
    else false

-- The cookie's token is not empty and is the header's.
abbrev pub is_token : Option Text → Text → Bool
is_token none header = false
is_token (some token) header = not (same token []) && same header token

unfoldable pub check_csrf : Env → Request → Bool
check_csrf env r = if is_token r.csrf r.csrf_header then same_origin env r else false

-- `s.store.Audit(user, action, result)`
abbrev pub audited : Env → Request → Text → Text → Site → Site
audited env r action result s = record s {
  store = audit env.audit_fails (user_of env r) action result env.now s.store;
}
