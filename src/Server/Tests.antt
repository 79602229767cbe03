-- ===== src/Server/Tests.antt =====
-- Two starts of a server, for the witnesses.
use oracle_backup.Base.{
  Option, ℕ, ap, ◌∙◌, ◌≤◌, Bool, true, false, ◌≡◌, refl, List, [], ◌∷◌, ◌++◌, none, some, length,
  arith,
}
use oracle_backup.Text.{Text, codes, same, same_refl, trim_right, keep_left}
use oracle_backup.Auth.Admin.{pick_admin_hash}
use oracle_backup.Config.Load.{Config}
use oracle_backup.Server.Boot.{
  Saves, KeyStart, load_session_key, HashStart, trim_end, is_blank, read, plain_password, pick,
  resolve_admin_hash,
}
use oracle_backup.Server.Restart.{IsHash, load_session_key_restart, resolve_admin_hash_restart}
use oracle_backup.Server.Schedule.{Job, Scheduler}

abbrev fine : Saves
fine = record { write_fails = false; rename_fails = false }

abbrev broken : Saves
broken = record { write_fails = true; rename_fails = true }

abbrev new_random : Text
new_random = codes "0123456789abcdef0123456789abcdef"

abbrev first_start : KeyStart
first_start = record {
  env_key = codes "short";
  file = some (codes "cut off");
  random = new_random;
  saves = fine;
}

first_key : load_session_key first_start ≡ some (new_random, some new_random)
unfolding load_session_key
first_key = refl

load_session_key_restart_example :
    (32 ≤ length new_random)
    × (load_session_key (record first_start { file = some new_random; random = []; saves = broken })
        ≡ some (new_random, some new_random))
load_session_key_restart_example =
    load_session_key_restart first_start new_random (some new_random) (omega arith) first_key []
      broken

abbrev hash : Text → Text × Bool
hash pw = (codes "h" ++ (pw ++ codes "#"), false)

abbrev check : Text → Text → Bool
check h pw = same h (codes "h" ++ (pw ++ codes "#"))

keep : (d : ℕ) (s : Text) → keep_left is_blank d (s ++ (b'#' ∷ [])) ≡ d ∷ (s ++ (b'#' ∷ []))
unfolding keep_left
keep d [] = refl
keep d (x ∷ s) = refl

ends : (s : Text) → trim_end (s ++ (b'#' ∷ [])) ≡ s ++ (b'#' ∷ [])
unfolding trim_end trim_right keep_left
ends [] = refl
ends (d ∷ s) = ap (keep_left is_blank d) (ends s) ∙ keep d s

hash-IsHash : IsHash hash check
hash-IsHash = record {
  nonempty = λ pw ok e. cc e;
  checks = λ pw ok. same_refl (codes "h" ++ (pw ++ codes "#"));
  tight = λ pw ok. ends (codes "h" ++ pw);
}

abbrev first_hash : HashStart
first_hash = record {
  secrets_file = none;
  state_file = none;
  env_pw = codes "secret";
  pw_name = [];
  pw_file = none;
  random = codes "gen";
  saves = fine;
}

hashed : (pick hash check first_hash).failed ≡ false
unfolding pick_admin_hash same read plain_password
hashed = refl

resolve_admin_hash_restart_example :
    let (used, file) = resolve_admin_hash hash check first_hash in
    resolve_admin_hash hash check
      (record first_hash { state_file = file; random = codes "other"; saves = broken })
    ≡ (used, file)
resolve_admin_hash_restart_example =
    resolve_admin_hash_restart hash check first_hash hash-IsHash hashed refl refl (codes "other")
      broken

abbrev is_cron : Text → Bool
is_cron t = same t (codes "0 3 * * *")

abbrev first_next : Job → List Job → Option Text
first_next j js = some (codes "03:00")

abbrev before : Scheduler
before = record { next = none; entries = [] }
