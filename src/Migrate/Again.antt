-- ===== src/Migrate/Again.antt =====
-- One migration after another: `Start`, the goroutine, and the next `Start`.
use oracle_backup.Base.{true, false, ◌&&◌, ◌≡◌, Option}
use oracle_backup.Text.{Text, same}
use oracle_backup.Migrate.Remote.{valid_remote_path, valid_remote_name}
use oracle_backup.Migrate.Start.{Shared, tidy_path, target_remote}

-- The arguments of a start are in order: the path, the remote, and a place other than the current one.
pub record Acceptable (conf : Option Text) (from_path to_remote to_path : Text) (s : Shared)
    : Type 0 where
  pub path_valid : valid_remote_path (tidy_path to_path) ≡ true
  pub remote_known : valid_remote_name conf (target_remote s.world.remote_name to_remote) ≡ true
  pub moves :
      (same (target_remote s.world.remote_name to_remote) s.world.remote_name
        && same (tidy_path to_path) from_path)
      ≡ false
