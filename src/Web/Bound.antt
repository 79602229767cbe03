-- ===== src/Web/Bound.antt =====
-- The handlers of the model behind the names of the table of `Routes`.
use oracle_backup.Base.{ℕ, Bool, List, Option}
use oracle_backup.Text.{Text}
use oracle_backup.Collector.Cache.{Listed}
use oracle_backup.Inputs.DbJobs.{DbJob}
use oracle_backup.Rclone.Engine.{Docker}
use oracle_backup.Terminal.Session.{handle_terminal_ws}
use oracle_backup.Web.Request.{Request, Env, Response, Handler}
use oracle_backup.Web.Settings.{
  ConfigBody, handle_source_paths, handle_db_jobs, handle_alert_webhook, handle_config,
}
use oracle_backup.Web.Actions.{MigrateBody, handle_backup, handle_remote_migrate}
use oracle_backup.Web.Reads.{
  Status, handle_status, handle_snapshots, handle_history, handle_logs, handle_excludes,
}
use oracle_backup.Web.Restores.{RestoreBody, Machine, handle_restore}
use oracle_backup.Web.Listings.{Node, handle_snapshot_ls}
use oracle_backup.Web.Remotes.{
  AddBody, ActionBody, handle_rclone_remotes, handle_rclone_add, handle_rclone_cli,
  handle_rclone_gui,
}
use oracle_backup.Web.Destinations.{
  Remotes, handle_remote_path, handle_remote_ls, handle_remote_target, handle_alert_webhook_test,
}
use oracle_backup.Web.Streams.{Walked, handle_restore_download, handle_rclone_gui_proxy}
use oracle_backup.Web.Routes.{
  Api, status, snapshots, snapshot_ls, history, logs, config, source_paths, alert_webhook,
  alert_webhook_test, db_jobs, excludes, backup, restore, restore_download, rclone_gui, remote_path,
  remote_ls, remote_target, remote_migrate, rclone_remotes, rclone_add, rclone_cli,
  rclone_gui_proxy, terminal_ws,
}

-- The body of the request, as each handler decodes it.
pub record Bodies : Type 0 where
  pub source_paths : Option Text
  pub db_jobs : Option (List DbJob)
  pub webhook : Option Text
  pub config : Option ConfigBody
  pub excludes : Option Text
  pub restore : Option RestoreBody
  pub migrate : Option MigrateBody
  pub add : Option AddBody
  pub command : Option Text
  pub action : ActionBody

-- What the libraries, the system and the programs that are called answer.
pub record World : Type 0 where
  pub status : Status
  pub snapshots : Listed
  pub snapshots_error : Text
  pub now : ℕ
  pub later : ℕ
  pub decode_node : Text → Option Node
  pub restic : Text → Text → Option Text
  pub db_fails : Bool
  pub read_file : Text → Option Text
  pub decode_jobs : Text → Option (List DbJob)
  pub remotes : Remotes
  pub machine : Machine
  pub entries : Option (List Text)
  pub walked : List Walked
  pub docker : Docker
  pub active : Text
  pub repo_path : Text
  pub conf : Option Text
  pub forward : Request → Response
  pub terminal_name : Text
  pub terminal_starts : Bool
  pub upgrade : Response

unfoldable pub handler_of : Env → World → Bodies → Api → Handler
handler_of env w b status = handle_status w.status
handler_of env w b snapshots = handle_snapshots w.snapshots w.snapshots_error w.now w.later
handler_of env w b snapshot_ls = handle_snapshot_ls w.decode_node w.restic
handler_of env w b history = handle_history w.db_fails
handler_of env w b logs = handle_logs env w.db_fails w.read_file
handler_of env w b config = handle_config env b.config
handler_of env w b source_paths = handle_source_paths env b.source_paths
handler_of env w b alert_webhook = handle_alert_webhook env b.webhook
handler_of env w b alert_webhook_test = handle_alert_webhook_test env w.remotes b.webhook
handler_of env w b db_jobs = handle_db_jobs env w.decode_jobs b.db_jobs
handler_of env w b excludes = handle_excludes env b.excludes
handler_of env w b backup = handle_backup env
handler_of env w b restore = handle_restore w.machine env b.restore
handler_of env w b restore_download = handle_restore_download env w.entries w.walked
handler_of env w b rclone_gui = handle_rclone_gui env w.docker w.now b.action
handler_of env w b remote_path = handle_remote_path w.remotes w.active w.repo_path
handler_of env w b remote_ls = handle_remote_ls w.remotes w.active
handler_of env w b remote_target = handle_remote_target w.remotes w.conf w.active
handler_of env w b remote_migrate = handle_remote_migrate env w.conf w.repo_path w.now b.migrate
handler_of env w b rclone_remotes = handle_rclone_remotes w.active w.conf
handler_of env w b rclone_add = handle_rclone_add env w.docker b.add
handler_of env w b rclone_cli = handle_rclone_cli env w.docker b.command
handler_of env w b rclone_gui_proxy = handle_rclone_gui_proxy w.forward
handler_of env w b terminal_ws =
    handle_terminal_ws env w.docker w.terminal_name w.terminal_starts w.upgrade
