-- ===== src/Migrate/Status.antt =====
-- `MigrationStatus`, the state around a migration, and the methods of `Migrator` that change it.
use oracle_backup.Base.{ℕ, suc, Bool, true, false, List, [], ◌∷◌, Option, none, some, if◌then◌else◌}
use oracle_backup.Text.{Text}
use oracle_backup.Migrate.Remote.{Mode}

pub data Phase : Type 0 where
  idle preflight copy verify switch cleanup done failed : Phase

pub record MigrationStatus : Type 0 where
  pub active : Bool
  pub phase : Phase
  pub mode : Option Mode  -- `none` is the empty text
  pub from_remote : Text
  pub from : Text
  pub to_remote : Text
  pub to : Text
  pub stats : Text
  pub error : Text
  pub started : ℕ
  pub updated : ℕ

abbrev pub idle_status : MigrationStatus
idle_status = record {
  active = false;
  phase = idle;
  mode = none;
  from_remote = [];
  from = [];
  to_remote = [];
  to = [];
  stats = [];
  error = [];
  started = 0;
  updated = 0;
}

-- What a migration does outside the status: one entry for each command or write that took effect.
pub data Effect : Type 0 where
  copied : Text → Text → Effect
  wrote_name : Text → Effect
  wrote_path : Text → Effect
  set_env : Text → Text → Effect
  purged : Text → Effect

-- The state that a migration can touch. `name_file` and `path_file` are what the entrypoint reads at
-- the next start, `remote_name` and `repository` the environment of the running engine. The newest
-- effect stands first. `calls` counts the readings of the clock.
pub record World : Type 0 where
  pub status : MigrationStatus
  pub saved : List MigrationStatus  -- what was persisted, the newest first
  pub name_file : Option Text
  pub path_file : Option Text
  pub remote_name : Text
  pub repository : Text
  pub effects : List Effect
  pub calls : ℕ

-- The status file is written after each change; an error of that is ignored by the source.
abbrev pub persist : World → World
persist w = record w { saved = w.status ∷ w.saved }

abbrev pub is_final : Phase → Bool
is_final done = true
is_final failed = true
is_final p = false

module _ (clock : ℕ → ℕ) where
  -- Each change takes the time.
  abbrev pub stamp : (MigrationStatus → MigrationStatus) → World → World
  stamp change w = persist (record w {
    status = record (change w.status) { updated = clock w.calls };
    calls = suc w.calls;
  })

  unfoldable pub set_phase : Phase → World → World
  set_phase p = stamp λ s. record s { phase = p; active = if is_final p then false else s.active }

  unfoldable pub set_stats : Text → World → World
  set_stats [] w = w
  set_stats (c ∷ line) w = stamp (λ s. record s { stats = c ∷ line }) w

  unfoldable pub set_mode : Mode → World → World
  set_mode m = stamp λ s. record s { mode = some m }

  -- `fail`, with the text already formatted.
  unfoldable pub fail : Text → World → World
  fail message = stamp λ s. record s { error = message; phase = failed; active = false }
