-- ===== src/Web/Tests.antt =====
-- A server and requests of a browser, for the witnesses.
use oracle_backup.Base.{true, false, not, ◌≡◌, ◌≢◌, ◌↔◌, ◌⊎◌, [], ◌∷◌, Option, none, some}
use oracle_backup.Base.Int.{pos}
use oracle_backup.Text.{Text, codes, same}
use oracle_backup.Store.Table.{open_store}
use oracle_backup.Runner.Gate.{new_runner}
use oracle_backup.Migrate.Status.{idle_status}
use oracle_backup.Migrate.Start.{Launch, Checked, launch_status}
use oracle_backup.Rclone.Gui.{found_gui}
use oracle_backup.Web.Request.{Request, Env, Site, require_auth, check_csrf}
use oracle_backup.Web.Csrf.{FromHost, check_csrf_iff}
use oracle_backup.Web.Settings.{ConfigBody, handle_config}
use oracle_backup.Web.Saved.{Trusted}
use oracle_backup.Web.Actions.{MigrateBody, handle_remote_migrate}
use oracle_backup.Web.Started.{Configured, handle_config_saves, handle_remote_migrate_starts}

abbrev pub env : Env
env = record {
  hmac = λ key msg. codes "tag";
  encode = λ t. t;
  decode = λ t. some t;
  url_host = λ u. some (codes "nas:8080");
  check_password = λ pw. same pw (codes "secret");
  encode_jobs = λ jobs. some (codes "jobs");
  is_cron = λ t. not (same t []);
  ui_file = λ name. true;
  admin_user = codes "admin";
  has_admin_hash = true;
  fresh_token = codes "fresh";
  log_dir = codes "/var/log/backup";
  restore_root = codes "/restore-out";
  session_key = codes "k";
  session_ver = codes "v1";
  entered = pos 200;
  later = pos 201;
  now = codes "t0";
  audit_fails = false;
  os_fails = false;
}

abbrev pub post : Request
post = record {
  method = codes "POST";
  path = codes "/api/remote-migrate";
  query = λ key. [];
  tls = false;
  forwarded_proto = [];
  session = some (codes "admin|100|v1|tag");
  csrf = some (codes "token");
  csrf_header = codes "token";
  origin = codes "http://nas:8080";
  referer = [];
  host = codes "nas:8080";
}

abbrev put : Request
put = record post { method = codes "PUT" }

abbrev pub site : Site
site = record {
  store = open_store;
  shared = record {
    world = record {
      status = idle_status;
      saved = [];
      name_file = none;
      path_file = none;
      remote_name = codes "gdrive";
      repository = [];
      effects = [];
      calls = 0;
    };
    runner = new_runner;
  };
  source_paths = none;
  db_jobs = none;
  webhook = none;
  config = some (codes "KEEP_DAILY=7\n");
  excludes = none;
  snap_cache = record { snaps = none; at = 0 };
  ls_cache = [];
  scratch = codes "old" ∷ [];
  gui = found_gui false;
  called = [];
}

abbrev conf : Option Text
conf = some (codes "[gdrive]\n[b2]\n")

abbrev body : MigrateBody
body = record {
  remote = codes "b2";
  path = codes "safe";
  password = codes "secret";
  confirm = codes "MIGRATE";
}

abbrev config_body : ConfigBody
config_body = record {
  keep_daily = pos 14;
  upload_limit = pos 0;
  min_free_mb = pos 100;
  backup_schedule = codes "0 3 * * *";
  check_schedule = [];
  scheduler_enabled = true;
  db_backup_enabled = false;
}

check_csrf_iff_example :
    (check_csrf env post ≡ true)
    ↔ ((post.csrf_header ≢ []) × (post.csrf ≡ some post.csrf_header) × FromHost env post)
check_csrf_iff_example = check_csrf_iff env post

handle_config_saves_example :
    let s' = (require_auth env (handle_config env (some config_body)) put site).1 in
    (s' ≡ site)
    ⊎ (Trusted env (codes "PUT") put
        × (b : ConfigBody) × (some config_body ≡ some b)
        × Configured env put b site s')
handle_config_saves_example = handle_config_saves env (some config_body) put site

handle_remote_migrate_starts_example :
    let s' =
      (require_auth env
        (handle_remote_migrate env conf (codes "backups/a") 7 (some body))
        post
        site).1 in
    (s'.shared ≡ site.shared)
    ⊎ (Trusted env (codes "POST") post
        × (b : MigrateBody) × (some body ≡ some b)
        × (b.confirm ≡ codes "MIGRATE")
        × (env.check_password b.password ≡ true)
        × (l : Launch) × Checked conf (codes "backups/a") 7 b.remote b.path site.shared l
        × (s'.shared.runner ≡ record { gate = true; running = true })
        × (s'.shared.world.status ≡ launch_status 7 l))
handle_remote_migrate_starts_example =
    handle_remote_migrate_starts env conf (codes "backups/a") 7 (some body) post site
