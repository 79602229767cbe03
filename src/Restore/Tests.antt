-- ===== src/Restore/Tests.antt =====
-- A restore target on a disk without symbolic links, for the witnesses.
use oracle_backup.Base.{true, ◌≡◌, ◌≢◌, ◌↔◌, refl, subst, some, ◌||◌}
use oracle_backup.Text.{Text, codes, same, has_prefix, has_suffix, contains, abs, clean, dir}
use oracle_backup.Inputs.Texts.{within}
use oracle_backup.Restore.Target.{
  Os, unfinished, safe, abs_of, confine, resolve, ancestor, safe_restore_target,
}
use oracle_backup.Restore.Lineage.{RootedCwd, Confines}
use oracle_backup.Restore.Confined.{safe_restore_target_iff, safe_restore_target_ends}

abbrev os : Os
os = record {
  cwd = some (codes "/srv");
  stat = λ p. same p (codes "/") || same p (codes "/restore-out");
  eval_symlinks = λ p. some p;
}

abbrev root : Text
root = codes "/restore-out"

abbrev target : Text
target = codes "/restore-out/home/a"

os-RootedCwd : RootedCwd os
unfolding has_prefix
os-RootedCwd c e =
    let cwd : codes "/srv" ≡ c = cc e in subst (λ t. has_prefix t (codes "/") ≡ true) cwd refl

safe_restore_target_test : safe_restore_target os root target ≡ safe target
unfolding safe_restore_target contains has_prefix abs_of confine within same abs clean has_suffix
    resolve ancestor dir
safe_restore_target_test = refl

safe_restore_target_iff_example :
    (safe_restore_target os root target ≡ safe target) ↔ Confines os root target target
safe_restore_target_iff_example = safe_restore_target_iff os os-RootedCwd root target target

safe_restore_target_ends_example : safe_restore_target os root target ≢ unfinished
safe_restore_target_ends_example = safe_restore_target_ends os os-RootedCwd root target
