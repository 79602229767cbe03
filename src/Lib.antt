-- ===== src/Lib.antt =====
-- The verification library of the backup engine's web server (engine/web, Go).
--
-- The engine keeps a restic repository on an rclone remote. The web server starts the backup
-- scripts, records each run in an SQLite database, answers a browser behind a session cookie, and
-- can move the repository to another place. One run gate keeps backups, checks, restores and
-- migrations from overlapping.
--
-- Which file models what:
--
--   Base, Text          lists, tests, signed integers; Go strings as lists of code points, and
--                       the functions of package strings, path/filepath and bufio that are used;
--                       Text/Redact is engine/web/redact.go, Text/Matches what a credential is.
--   Store               engine/web/store.go. The table runs is a list of rows, the newest first;
--                       AUTOINCREMENT is the counter seq. A Boolean argument says whether the
--                       database refuses the statement. StartRun is start_run, FinishRun
--                       finish_run, SetLog set_log, ReconcileStuck reconcile_stuck, GetRun get_run,
--                       ListRuns list_runs, which sorts (Pages), Audit audit; Refines reads them as a map
--                       of runs.
--   Collector           engine/web/collector.go: ParseBackupSummary (Summary) and
--                       ListSnapshots and ListSnapshotsCached (Cache). What restic prints and the JSON
--                       decoder are parameters.
--   Runner              engine/web/actions.go: the gate as sequential code (Gate) and as
--                       interleaved threads (Threads, Exclusion); execBackup (Exec); and the calls of
--                       scripts, containers and other servers that the handlers keep a record of
--                       (Calls). The gate is taken by Migrate/Start, the runs are written to Store.
--   Migrate             engine/web/migrate.go: remotes and paths (Remote), the status (Status),
--                       run (Job), Start (Start), and one migration after another (Again). What
--                       rclone, restic and the file system answer is a record of answers; the
--                       effects are a list, the newest first.
--   Auth                engine/web/auth.go: signSession and verifySession (Session, Accepts),
--                       pickAdminHash and randPassword (Admin). HMAC-SHA256, base64, SHA-256, bcrypt
--                       and the random bytes are parameters.
--   Inputs              the checks of what a browser sends: engine/web/dbjobs.go (DbJobs),
--                       srcpaths.go (SourcePaths), alerts.go and actions.go (Texts).
--   Restore             safeRestoreTarget of engine/web/actions.go (Target), its loop over the
--                       directories above a path (Ancestor), and what it accepts (Lineage, Confined). The
--                       working directory, Stat and EvalSymlinks are parameters.
--   Rclone              splitArgs of engine/web/rclonegui.go and the decision of handleRcloneCLI in
--                       api.go (Cli); the containers that rclonegui.go starts (Engine) and the GUI
--                       with its timer as a step relation (Gui, Guarded). What docker answers to a
--                       command is a function of the command.
--   Config              engine/web/config.go: LoadConfig (Load), Validate and Save (Save), what
--                       comes back from a line (Line) and from the file (File). The cron parser is
--                       a parameter.
--   Web                 engine/web/api.go: a request, the site, requireAuth and checkCSRF (Request,
--                       Csrf), the table of Routes (Routes, Guarded) and its handlers
--                       (Bound, Keeps, Forged). They stand in Pages (user interface, login),
--                       Settings, Actions (backup, migration), Reads (status, history, logs,
--                       excludes), Restores, Listings (snapshots' directories), Remotes (rclone; Added,
--                       Switched), Destinations and Streams, with their parts in actions.go, dbjobs.go,
--                       srcpaths.go, alerts.go and migrate.go; the other modules are about them. A
--                       handler takes a request and the site to a response and the site; the decoded
--                       body is an argument. What RunRestore does to the restore root is a function
--                       of its command. rclone.conf and the containers are not part of the site: the
--                       calls that change them are, in order, and the commands that only read are
--                       left out.
--   Server              engine/web/main.go: loadSessionKey and resolveAdminHash (Boot, Restart), and
--                       reload (Schedule).
--   Terminal            engine/web/terminal.go: who opens a session (Session), the slots (Slots) and
--                       what a message does (Message).
--
-- The loop of safeRestoreTarget is given as many rounds as the path has runes and one more; each
-- round drops a rune or ends the loop. The decimal digits of a number are given the number itself
-- plus one. Every other loop is a recursion on the list that it reads. A Scanner's buffer limit is
-- kept (64 KiB for config.env, 8 MiB for restic's output). Go's int64 keeps its bounds where a
-- session token is parsed and its age computed, and uint16 wraps around where a terminal gets its
-- size.
--
-- Not modelled: the HTTP server, JSON and the static files; the wiring and the signals of main.go;
-- what cron, docker, restic and the scripts do, of which only the answers are kept; the pseudo
-- terminal, its timeouts and pings; the signals to a script's process group; the shell scripts. The
-- temporary file of an atomic write is not kept: a write that fails leaves the file as it was. A
-- purge that fails is taken to leave the source as it was. A wait, such as the second behind a
-- failed login, is left out.
pub mod Base
pub mod Text
pub mod Config
pub mod Store
pub mod Collector
pub mod Runner
pub mod Migrate
pub mod Auth
pub mod Inputs
pub mod Restore
pub mod Rclone
pub mod Web
pub mod Server
pub mod Terminal
