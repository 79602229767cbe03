-- ===== src/Web/ForgedTests.antt =====
-- A request from another site, for the witness.
use oracle_backup.Base.{true, false, [], none, some}
use oracle_backup.Text.{codes}
use oracle_backup.Collector.Cache.{listed}
use oracle_backup.Web.Request.{Request, served}
use oracle_backup.Web.Bound.{Bodies, World}
use oracle_backup.Web.Tests.{post}
use oracle_backup.Web.AccessTests.{machine}
use oracle_backup.Web.DockerTests.{remotes, docker, decode, restic}

abbrev bodies : Bodies
bodies = record {
  source_paths = some (codes "/home");
  db_jobs = some [];
  webhook = some (codes "https://h/x");
  config = none;
  excludes = some (codes "*.tmp");
  restore = none;
  migrate = none;
  add = none;
  command = some (codes "lsd nas:");
  action = record { action = codes "start" };
}

abbrev world : World
world = record {
  status = record {
    last_success = none;
    last_failure = none;
    next_run = [];
    host = codes "nas";
    scheduler_enabled = false;
  };
  snapshots = listed (some []);
  snapshots_error = [];
  now = 1;
  later = 2;
  decode_node = decode;
  restic = restic;
  db_fails = false;
  read_file = λ p. none;
  decode_jobs = λ t. some [];
  remotes = remotes;
  machine = machine;
  entries = some [];
  walked = [];
  docker = docker;
  active = codes "nas";
  repo_path = codes "repo";
  conf = none;
  forward = λ r. served [];
  terminal_name = codes "engine";
  terminal_starts = true;
  upgrade = served [];
}

abbrev forged : Request
forged = record post { csrf_header = codes "guess"; path = codes "/api/excludes" }
