-- ===== src/Rclone/Tests.antt =====
-- Commands, for the witnesses.
use oracle_backup.Base.{none, some, true, false, ◌≡◌, ◌≢◌, refl, List, [], ◌∷◌, All}
use oracle_backup.Text.{Text, codes, elem, has_prefix, same}
use oracle_backup.Inputs.DbJobs.{has_key}
use oracle_backup.Rclone.Engine.{
  Docker, engine_env, self_ref, docker_inspect, env_of, checked_env, rclone_dir,
}
use oracle_backup.Rclone.Gui.{
  Gui, found_gui, start_rclone_gui, stop_rclone_gui, start, Reached, boot, then_step,
}
use oracle_backup.Rclone.Guarded.{IsWatched, gui-IsWatched}
use oracle_backup.Rclone.Cli.{split_args, cli_allowed, is_flag, first_word, runs, judge}
use oracle_backup.Rclone.Args.{IsArg, split_args_nonempty}
use oracle_backup.Rclone.Allowed.{}

abbrev words : List Text
words = codes "ls" ∷ codes "remote:a b" ∷ []

words-IsArg : All IsArg words
unfolding elem
words-IsArg = (ls-IsArg, (place-IsArg, tt))
  where
    ls-IsArg : IsArg (codes "ls")
    ls-IsArg = record { some_rune = λ e. cc; no_quote = refl }

    place-IsArg : IsArg (codes "remote:a b")
    place-IsArg = record { some_rune = λ e. cc; no_quote = refl }

split_args_nonempty_example : All (λ a. a ≢ []) (split_args (codes "ls  \"\" x"))
split_args_nonempty_example = split_args_nonempty (codes "ls  \"\" x")

words_run : judge words ≡ runs (codes "ls")
unfolding judge first_word has_key has_prefix same
words_run = refl

-- The flag takes the word behind it as its value, and the subcommand is the destructive one.
abbrev destructive : List Text
destructive = codes "purge" ∷ codes "remote:backups" ∷ []

flag_is_flag : is_flag (codes "--config") ≡ true
unfolding has_prefix
flag_is_flag = refl

word_is_none : is_flag (codes "ls") ≡ false
unfolding has_prefix
word_is_none = refl

ls_allowed : has_key cli_allowed (codes "ls") ≡ true
unfolding has_key same
ls_allowed = refl

abbrev docker : Docker
docker = record {
  run = λ args. (none, codes "ok");
  decode = λ out. some (
      record {
        mounts = record { source = codes "/srv/rclone"; destination = codes "/etc/rclone" } ∷ [];
        image = codes "engine";
        running = true;
        networks = codes "net" ∷ [];
      }
      ∷ []);
  self_container = codes "engine";
  hostname = none;
}

-- A GUI that is started 5 seconds behind the boot.
abbrev started : Gui
started = (start_rclone_gui docker 5 (stop_rclone_gui docker (found_gui true)).1).1

started_test : started.active ≡ true
unfolding start_rclone_gui engine_env self_ref same docker_inspect env_of checked_env rclone_dir
    has_prefix
started_test = refl

started-Reached : Reached (λ d. d ≡ docker) started
started-Reached =
    then_step (boot docker true refl)
      (start docker 5 (stop_rclone_gui docker (found_gui true)).1 refl)

gui-IsWatched_example : IsWatched started
gui-IsWatched_example = gui-IsWatched started-Reached
