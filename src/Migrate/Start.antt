-- ===== src/Migrate/Start.antt =====
-- `Migrator.Start` and the goroutine that it launches, with the run gate.
use oracle_backup.Base.{
  ℕ, true, false, not, ◌&&◌, ◌≡◌, refl, ◌⊎◌, inl, inr, Option, arith, if◌then◌else◌, Bool-cases,
}
use oracle_backup.Text.{Text, codes, same, elem, trim, trim_space}
use oracle_backup.Runner.Gate.{Runner, acquire_for_maintenance, release_maintenance}
use oracle_backup.Migrate.Remote.{valid_remote_path, valid_remote_name, nonempty_or}
use oracle_backup.Migrate.Status.{MigrationStatus, idle_status, preflight, World, persist}
use oracle_backup.Migrate.Job.{Answers, run}

pub data StartError : Type 0 where
  bad_path unknown_remote same_place in_progress runner_busy : StartError

-- What `Start` reads and changes: the migrator's world and the runner that it shares with backups.
pub record Shared : Type 0 where
  pub world : World
  pub runner : Runner

-- A launched migration, with the four arguments of its goroutine.
pub record Launch : Type 0 where
  pub from_remote : Text
  pub from_path : Text
  pub to_remote : Text
  pub to_path : Text

pub data Started : Type 0 where
  launched : Launch → Started
  refused : StartError → Started

-- `strings.Trim(strings.TrimSpace(toPath), "/")`
unfoldable pub tidy_path : Text → Text
unfolding trim_space trim elem
tidy_path p = trim (λ c. elem c (codes "/")) (trim_space p)

-- The remote that is meant: an empty one is the active one.
unfoldable pub target_remote : Text → Text → Text
unfolding nonempty_or trim_space
target_remote active to_remote = nonempty_or (trim_space to_remote) active

-- The status that a launch writes, at the time `now`.
abbrev pub launch_status : ℕ → Launch → MigrationStatus
launch_status now l = record idle_status {
  active = true;
  phase = preflight;
  from_remote = l.from_remote;
  from = l.from_path;
  to_remote = l.to_remote;
  to = l.to_path;
  started = now;
  updated = now;
}

-- `conf` is the text of rclone.conf, `from_path` what `currentRepoPath` answers, `now` the clock.
module _ (conf : Option Text) (from_path : Text) (now : ℕ) where
  -- The part behind the checks of the arguments.
  unfoldable pub claim : Launch → Shared → Started × Shared
  claim l s =
      if s.world.status.active
      then (refused in_progress, s)
      else let (won, r) = acquire_for_maintenance s.runner in
        if won
        then (
          launched l,
          record {
            world = persist (record (s.world) { status = launch_status now l });
            runner = r;
          },
        )
        else (refused runner_busy, record s { runner = r })

  unfoldable pub start : Text → Text → Shared → Started × Shared
  start to_remote to_path s =
      let from_remote = s.world.remote_name in
      let remote = target_remote from_remote to_remote in
      let path = tidy_path to_path in
      if not (valid_remote_path path)
      then (refused bad_path, s)
      else if not (valid_remote_name conf remote)
      then (refused unknown_remote, s)
      else if same remote from_remote && same path from_path
      then (refused same_place, s)
      else claim
          (record {
            from_remote = from_remote;
            from_path = from_path;
            to_remote = remote;
            to_path = path;
          })
          s

  -- What a launch has checked.
  pub record Checked (to_remote to_path : Text) (s : Shared) (l : Launch) : Type 0 where
    pub from_remote : l.from_remote ≡ s.world.remote_name
    pub from_path' : l.from_path ≡ from_path
    pub to_remote' : l.to_remote ≡ target_remote s.world.remote_name to_remote
    pub to_path' : l.to_path ≡ tidy_path to_path
    pub path_valid : valid_remote_path l.to_path ≡ true
    pub remote_known : valid_remote_name conf l.to_remote ≡ true
    pub moves : (same l.to_remote l.from_remote && same l.to_path l.from_path) ≡ false
    pub was_idle : s.world.status.active ≡ false
    pub gate_open : s.runner.gate ≡ false

  claim_cases :
      (l : Launch) (s : Shared)
      → ((e : StartError) × (claim l s ≡ (refused e, s)))
        ⊎ ((s.world.status.active ≡ false)
            × (s.runner.gate ≡ false)
            × (claim l s ≡ (
              launched l,
              record {
                world = persist (record (s.world) { status = launch_status now l });
                runner = record { gate = true; running = true };
              },
            )))
  unfolding claim acquire_for_maintenance
  claim_cases l s = elim (Bool-cases s.world.status.active) [
    | inl y ↦ inl (in_progress, ground arith)
    | inr n ↦ elim (Bool-cases s.runner.gate) [
      | inl g ↦ inl (runner_busy, ground arith)
      | inr o ↦ inr (n, o, ground arith)
    ]
  ]

  -- A refused start changes nothing: neither the status nor the gate. A start is launched only with
  -- an acceptable path, a remote that rclone.conf names, a target other than the current place, no
  -- migration active and the gate open; it then has the gate, the runner reads as busy, and the status
  -- is active, in the preflight phase and names both places.
  pub start_cases :
      (to_remote to_path : Text) (s : Shared)
      → let (r, s') = start to_remote to_path s in
        ((e : StartError) × (r ≡ refused e) × (s' ≡ s))
        ⊎ ((l : Launch) × (r ≡ launched l)
            × Checked to_remote to_path s l
            × (s'.runner ≡ record { gate = true; running = true })
            × (s'.world.status ≡ launch_status now l))
  unfolding start
  start_cases to_remote to_path s = elim (Bool-cases (valid_remote_path path)) [
    | inr n ↦ inl (bad_path, ground arith, ground arith)
    | inl y₁ ↦ elim (Bool-cases (valid_remote_name conf remote)) [
      | inr n ↦ inl (unknown_remote, ground arith, ground arith)
      | inl y₂ ↦ elim (Bool-cases (same remote s.world.remote_name && same path from_path)) [
        | inl n ↦ inl (same_place, ground arith, ground arith)
        | inr y₃ ↦ elim (claim_cases l s) [
          | inl (e, q) ↦ inl (e, ground arith, ground arith)
          | inr (i, g, q) ↦ inr (
            l,
            ground arith,
            record {
              from_remote = refl;
              from_path' = refl;
              to_remote' = refl;
              to_path' = refl;
              path_valid = y₁;
              remote_known = y₂;
              moves = y₃;
              was_idle = i;
              gate_open = g;
            },
            ground arith,
            ground arith,
          )
        ]
      ]
    ]
  ]
    where
      remote : Text
      remote = target_remote s.world.remote_name to_remote

      path : Text
      path = tidy_path to_path

      l : Launch
      l = record {
        from_remote = s.world.remote_name;
        from_path = from_path;
        to_remote = remote;
        to_path = path;
      }

-- The goroutine: `run`, then the deferred release of the gate.
unfoldable pub finish_job : (ℕ → ℕ) → Answers → Launch → Shared → Shared
unfolding release_maintenance
finish_job clock a l s = record {
  world = (run clock a l.from_remote l.from_path l.to_remote l.to_path s.world).1;
  runner = release_maintenance s.runner;
}
