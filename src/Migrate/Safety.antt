-- ===== src/Migrate/Safety.antt =====
-- What a migration does to the repository and to the switch files, on every path through `run`.
use oracle_backup.Base.{
  ℕ, true, false, ◌≡◌, ◌≢◌, refl, ◌⊎◌, inl, inr, [], ◌∷◌, ◌++◌, Option, none, some, arith,
}
use oracle_backup.Text.{Text, codes}
use oracle_backup.Migrate.Remote.{repo_url_on, migrate_mode}
use oracle_backup.Migrate.Status.{
  done, failed, copied, wrote_name, wrote_path, set_env, purged, World,
}
use oracle_backup.Migrate.Rules.{Untouched, has_purge, Verified, run_rule}
use oracle_backup.Migrate.Job.{
  Answers, place, choose_mode, copy_and_verify, transfer, switch_over, clean_up, run,
}

module _ (clock : ℕ → ℕ) (a : Answers) (from_remote from_path to_remote to_path : Text) where
  -- A purge among the effects, and then what must have come before it.
  abbrev Purges : World → Option (Unit {0}) × World → Type 0
  Purges w r =
      has_purge r.1.effects ≡ true
      → Verified clock a from_remote from_path to_remote to_path
        × (r.1.effects
            ≡ purged (place from_remote from_path)
              ∷ set_env (codes "RESTIC_REPOSITORY") (repo_url_on to_remote to_path)
              ∷ set_env (codes "REMOTE_NAME") to_remote
              ∷ wrote_path to_path
              ∷ wrote_name to_remote
              ∷ copied (place from_remote from_path) (place to_remote to_path)
              ∷ w.effects)

  -- The source is purged only behind a verified copy and a complete switch: if `run` purges anything,
  -- the target was reachable and held no repository, the source held one, the copy succeeded, the new
  -- repository opens and has the number of snapshots that was counted at the source (0 where that
  -- count failed), and what took effect is exactly, in this order: the copy, the write of the remote's
  -- name, the write of the path, the two settings of the environment, and the purge of the source.
  pub purge_last :
      (w : World)
      → has_purge w.effects ≡ false
      → has_purge (run clock a from_remote from_path to_remote to_path w).1.effects ≡ true
      → Verified clock a from_remote from_path to_remote to_path
        × ((run clock a from_remote from_path to_remote to_path w).1.effects
            ≡ purged (place from_remote from_path)
              ∷ set_env (codes "RESTIC_REPOSITORY") (repo_url_on to_remote to_path)
              ∷ set_env (codes "REMOTE_NAME") to_remote
              ∷ wrote_path to_path
              ∷ wrote_name to_remote
              ∷ copied (place from_remote from_path) (place to_remote to_path)
              ∷ w.effects)
  unfolding has_purge switch_over clean_up
  purge_last w z = run_rule clock a from_remote from_path to_remote to_path (Purges w) w (record {
    no_mode = λ w' u e h. ground arith;
    skipped = λ w' u e h. ground arith;
    unverified = λ w' u e h. ground arith;
    verified = λ w' u v e h. ground arith;
  })

  -- Every migration ends: the status is no longer active, and its phase is done when `run` got to its
  -- last line and failed when it returned early.
  pub run_ends :
      (w : World)
      → let (r, w') = run clock a from_remote from_path to_remote to_path w in
        (w'.status.active ≡ false)
        × (((r ≡ some tt) × (w'.status.phase ≡ done)) ⊎ ((r ≡ none) × (w'.status.phase ≡ failed)))
  unfolding run choose_mode transfer copy_and_verify switch_over clean_up migrate_mode
  run_ends w = ground arith

  -- The entrypoint's files and the environment name the target.
  pub record Switched (w' : World) : Type 0 where
    pub name_file : w'.name_file ≡ some (to_remote ++ 10 ∷ [])
    pub path_file : w'.path_file ≡ some (to_path ++ 10 ∷ [])
    pub remote_name : w'.remote_name ≡ to_remote
    pub repository : w'.repository ≡ repo_url_on to_remote to_path

  -- The remote's name is written and nothing else.
  pub record HalfSwitched (w w' : World) : Type 0 where
    pub name_file : w'.name_file ≡ some (to_remote ++ 10 ∷ [])
    pub path_file : w'.path_file ≡ w.path_file
    pub remote_name : w'.remote_name ≡ w.remote_name
    pub repository : w'.repository ≡ w.repository

  abbrev Switches : World → Option (Unit {0}) × World → Type 0
  Switches w r =
      ((r.0 ≡ some tt) × Switched r.1)
      ⊎ (((r.0 ≡ none) × Untouched w r.1)
          ⊎ ((r.0 ≡ none) × (a.name_error ≡ none) × (a.path_error ≢ none) × HalfSwitched w r.1))

  -- A migration that gets to its last line has switched both files and the environment to the target.
  -- One that returns early leaves all four as they were, with one exception: where the name was
  -- written and the write of the path failed, the name's file stays switched.
  pub run_switches :
      (w : World)
      → let (r, w') = run clock a from_remote from_path to_remote to_path w in
        ((r ≡ some tt) × Switched w')
        ⊎ (((r ≡ none) × Untouched w w')
            ⊎ ((r ≡ none) × (a.name_error ≡ none) × (a.path_error ≢ none) × HalfSwitched w w'))
  unfolding switch_over clean_up
  run_switches w = run_rule clock a from_remote from_path to_remote to_path (Switches w) w (record {
    no_mode = λ w' u e. inr (inl (refl, u));
    skipped = λ w' u e. ground arith;
    unverified = λ w' u e. inr (inl (refl, u));
    verified = λ w' u v e. ground arith;
  })
