-- ===== src/Migrate/Tests.antt =====
-- Migrations of a small repository, for the witnesses.
use oracle_backup.Base.{ℕ, true, false, ◌≡◌, ◌≢◌, ◌⊎◌, refl, [], ◌∷◌, none, some}
use oracle_backup.Text.{Text, codes}
use oracle_backup.Runner.Gate.{new_runner}
use oracle_backup.Migrate.Remote.{repo_url_on, migrate_mode}
use oracle_backup.Migrate.Status.{
  World, idle_status, done, failed, purged, set_env, wrote_path, wrote_name, copied,
}
use oracle_backup.Migrate.Job.{
  Answers, counted, uncounted, place, run, choose_mode, transfer, copy_and_verify, switch_over,
  clean_up,
}
use oracle_backup.Migrate.Rules.{has_purge, Verified, Untouched}
use oracle_backup.Migrate.Safety.{purge_last, run_ends, run_switches, Switched, HalfSwitched}
use oracle_backup.Migrate.Start.{
  Shared, Launch, refused, launched, Checked, start, launch_status, start_cases, finish_job,
  StartError, Started,
}

abbrev tick : ℕ → ℕ
tick n = n

abbrev old_remote : Text
old_remote = codes "gdrive"

abbrev old_path : Text
old_path = codes "backups/a"

abbrev new_remote : Text
new_remote = codes "b2"

abbrev new_path : Text
new_path = codes "safe"

abbrev fine : Answers
fine = record {
  connected = true;
  to_exists = false;
  from_exists = true;
  old_count = counted 3;
  copy_lines = codes "50%" ∷ [] ∷ [];
  copy_error = none;
  to_opens = true;
  new_count = counted 3;
  name_error = none;
  path_error = none;
  purge_error = none;
}

abbrev path_fails : Answers
path_fails = record fine { to_exists = true; path_error = some (codes "disk full") }

abbrev count_fails : Answers
count_fails = record fine { old_count = uncounted (codes "timeout"); new_count = counted 0 }

abbrev before : World
before = record {
  status = idle_status;
  saved = [];
  name_file = none;
  path_file = none;
  remote_name = old_remote;
  repository = codes "rclone:gdrive:backups/a";
  effects = [];
  calls = 0;
}

abbrev conf : Text
conf = codes "[gdrive]\ntype = drive\n[b2]\ntype = b2\n"

abbrev shared : Shared
shared = record { world = before; runner = new_runner }

abbrev launch : Launch
launch = record {
  from_remote = old_remote;
  from_path = old_path;
  to_remote = new_remote;
  to_path = new_path;
}

none_purged : has_purge before.effects ≡ false
unfolding has_purge
none_purged = refl

fine-has_purge :
    has_purge (run tick fine old_remote old_path new_remote new_path before).1.effects ≡ true
unfolding has_purge run choose_mode transfer copy_and_verify switch_over clean_up migrate_mode
fine-has_purge = refl

purge_last_example :
    Verified tick fine old_remote old_path new_remote new_path
    × ((run tick fine old_remote old_path new_remote new_path before).1.effects
        ≡ purged (place old_remote old_path)
          ∷ set_env (codes "RESTIC_REPOSITORY") (repo_url_on new_remote new_path)
          ∷ set_env (codes "REMOTE_NAME") new_remote
          ∷ wrote_path new_path
          ∷ wrote_name new_remote
          ∷ copied (place old_remote old_path) (place new_remote new_path)
          ∷ [])
purge_last_example =
    purge_last tick fine old_remote old_path new_remote new_path before none_purged fine-has_purge

run_ends_example :
    let (r, w') = run tick path_fails old_remote old_path new_remote new_path before in
    (w'.status.active ≡ false)
    × (((r ≡ some tt) × (w'.status.phase ≡ done)) ⊎ ((r ≡ none) × (w'.status.phase ≡ failed)))
run_ends_example = run_ends tick path_fails old_remote old_path new_remote new_path before

run_switches_example :
    let (r, w') = run tick fine old_remote old_path new_remote new_path before in
    ((r ≡ some tt) × Switched tick fine old_remote old_path new_remote new_path w')
    ⊎ (((r ≡ none) × Untouched before w')
        ⊎ ((r ≡ none)
            × (fine.name_error ≡ none)
            × (fine.path_error ≢ none)
            × HalfSwitched tick fine old_remote old_path new_remote new_path before w'))
run_switches_example = run_switches tick fine old_remote old_path new_remote new_path before

start_cases_example :
    let (r, s') = start (some conf) old_path 7 new_remote new_path shared in
    ((e : StartError) × (r ≡ refused e) × (s' ≡ shared))
    ⊎ ((l : Launch) × (r ≡ launched l)
        × Checked (some conf) old_path 7 new_remote new_path shared l
        × (s'.runner ≡ record { gate = true; running = true })
        × (s'.world.status ≡ launch_status 7 l))
start_cases_example = start_cases (some conf) old_path 7 new_remote new_path shared

-- The repository goes to the new place and back again.
abbrev begun : Started × Shared
begun = start (some conf) old_path 7 new_remote new_path shared

abbrev over : Shared
over = finish_job tick fine launch begun.1
