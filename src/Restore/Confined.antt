-- ===== src/Restore/Confined.antt =====
-- Which restore targets are accepted.
use oracle_backup.Base.{
  true, ◌≡◌, ◌≢◌, ◌↔◌, inl, inr, refl, sym, ap, subst, ◌∙◌, [], some, arith, Bool-cases,
  Option-cases,
}
use oracle_backup.Text.{Text, codes, contains, clean}
use oracle_backup.Inputs.Spec.{NoDotDot, contains_iff}
use oracle_backup.Inputs.Texts.{within}
use oracle_backup.Restore.Target.{
  Os, unfinished, safe, abs_of, ancestor, or_else, resolve, confine, safe_restore_target,
}
use oracle_backup.Restore.Lineage.{
  deepest, Confines, RootedCwd, abs_of-Cleaned, resolve_iff, resolve_finished, confine-clean,
}

module _ (os : Os) (rooted_cwd : RootedCwd os) (root target : Text) where
  abbrev root_path : Text
  root_path = or_else [] (abs_of os.cwd (clean root))

  to_safe : (p : Text) → safe_restore_target os root target ≡ safe p → Confines os root target p
  unfolding safe_restore_target
  to_safe p h = elim (Bool-cases (contains target (codes ".."))) [
    | inl y ↦ absurd (ground arith)
    | inr n ↦ elim (Option-cases (abs_of os.cwd (clean target))) [
      | inl e ↦ absurd (ground arith)
      | inr (path, e) ↦
          let (q, rooted, c) = abs_of-Cleaned os.cwd (clean target) path rooted_cwd e in
          elim (Bool-cases (within root_path path)) [
            | inr w ↦ absurd (ground (arith, confine-clean os root_path path q rooted c))
            | inl w ↦
                let (same_path, lineage) =
                  (resolve_iff os root_path path (deepest os q) p).0
                    (ground (arith, confine-clean os root_path path q rooted c)) in
                record {
                  plain = (contains_iff target).0 n;
                  source = q;
                  rooted = rooted;
                  cleaned = sym same_path ∙ c;
                  absolute = e ∙ ap some same_path;
                  inside = subst (λ t. within root_path t ≡ true) same_path w;
                  lineage = lineage;
                }
          ]
    ]
  ]

  of_safe : (p : Text) → Confines os root target p → safe_restore_target os root target ≡ safe p
  unfolding safe_restore_target
  of_safe p v =
      let n = (contains_iff target).1 v.plain in
      let c = confine-clean os root_path p v.source v.rooted v.cleaned in
      let r = (resolve_iff os root_path p (deepest os v.source) p).1 (refl, v.lineage) in
      ground (arith, n, v.absolute, v.inside, c, r)

  -- With a rooted working directory or none, a target is accepted as a path exactly when it holds no
  -- "..", its absolute form is that path and lies within the root, and the deepest of the path, its
  -- directory and so on that exists (the file system's root where none does) leads, behind its
  -- symbolic links, to a place on the lineage of the root: at it, under it or above it. A link that
  -- cannot be followed is let through.
  pub safe_restore_target_iff :
      (p : Text) → (safe_restore_target os root target ≡ safe p) ↔ Confines os root target p
  safe_restore_target_iff p = (to_safe p, of_safe p)

  -- With a rooted working directory or none, the check always comes to an end: its loop over the
  -- ancestors stops within as many rounds as the path has runes and one more, whatever exists.
  pub safe_restore_target_ends : safe_restore_target os root target ≢ unfinished
  unfolding safe_restore_target
  safe_restore_target_ends h = elim (Bool-cases (contains target (codes ".."))) [
    | inl y ↦ ground arith
    | inr n ↦ elim (Option-cases (abs_of os.cwd (clean target))) [
      | inl e ↦ ground arith
      | inr (path, e) ↦
          let (q, rooted, c) = abs_of-Cleaned os.cwd (clean target) path rooted_cwd e in
          ground (
            arith,
            confine-clean os root_path path q rooted c,
            resolve_finished os root_path path (deepest os q),
          )
    ]
  ]

-- A symbolic link at the target that leads above the root is let through: where the target exists and
-- leads to a place that the resolved root lies within, it is accepted whenever it lies within the root
-- by its text, though what is restored there is written outside the root.
pub target_above_root :
    (os : Os) (root target path real : Text)
    → NoDotDot target
    → abs_of os.cwd (clean target) ≡ some path
    → let root_abs = or_else [] (abs_of os.cwd (clean root)) in
      within root_abs path ≡ true
      → os.stat path ≡ true
      → os.eval_symlinks path ≡ some real
      → within real (or_else root_abs (os.eval_symlinks root_abs)) ≡ true
      → safe_restore_target os root target ≡ safe path
unfolding safe_restore_target confine ancestor resolve
target_above_root os root target path real n a w s e v =
    let plain = (contains_iff target).1 n in ground (arith, plain)
