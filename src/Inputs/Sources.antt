-- ===== src/Inputs/Sources.antt =====
-- `validSourcePaths` decides what a valid list of source paths is; and what it lets through.
use mathlib.Core.List.{tail}
use oracle_backup.Base.{
  ℕ, Bool, true, false, not, ◌&&◌, ◌≡◌, ◌≢◌, ◌↔◌, ◌⊎◌, inl, inr, refl, ap, sym, subst, ◌∙◌, List,
  [], ◌∷◌, ◌++◌, Option, none, some, arith, all, All, both, false_of_not,
}
use oracle_backup.Text.{
  Text, codes, same, same_iff, elem, trim_right, trim_right-append, trim_right_of_append, fields,
}
use oracle_backup.Migrate.Remote.{nonempty_or}
use oracle_backup.Inputs.Spec.{Rooted, NoDotDot, has_prefix_iff, contains_iff}
use oracle_backup.Inputs.DbJobs.{has_key}
use oracle_backup.Inputs.SourcePaths.{
  PathError, dangerous, trimmed, valid_source_path, first_error, valid_each, valid_source_paths,
}

-- The text is the directory, with any number of slashes behind it.
abbrev pub SlashedDir : Text → Text → Type 0
SlashedDir d p = (tail : Text) × (p ≡ d ++ tail) × All (λ c. elem c (codes "/") ≡ true) tail

pub record IsSource (p : Text) : Type 0 where
  pub rooted : Rooted p
  pub plain : NoDotDot p
  pub harmless : All (λ d. ¬ SlashedDir d p) dangerous

abbrev is_slash : ℕ → Bool
is_slash c = elem c (codes "/")

abbrev bare : Text → Text
bare = trim_right is_slash

nonempty_or-eq : (t d e : Text) → d ≢ e → nonempty_or t e ≡ d → t ≡ d
unfolding nonempty_or
nonempty_or-eq [] d e h q = absurd (h (sym q))
nonempty_or-eq (c ∷ t) d e h q = q

nonempty_or_self : (t e : Text) → t ≢ [] → nonempty_or t e ≡ t
unfolding nonempty_or
nonempty_or_self [] e n = absurd (n refl)
nonempty_or_self (c ∷ t) e n = refl

-- A directory of the list but the root: it has no slash at its end.
trimmed_dir : (d p : Text) → bare d ≡ d → d ≢ [] → d ≢ codes "/" → (trimmed p ≡ d) ↔ SlashedDir d p
unfolding trimmed
trimmed_dir d p e h k = (
  λ q.
      let (tail, split, a) = trim_right-append is_slash p in
      (tail, split ∙ ap (λ t. t ++ tail) (nonempty_or-eq (bare p) d (codes "/") k q), a),
  λ (tail, q, a).
      ap (λ t. nonempty_or (bare t) (codes "/")) q
      ∙ ap (λ t. nonempty_or t (codes "/")) (trim_right_of_append is_slash d tail a ∙ e)
      ∙ nonempty_or_self d (codes "/") h,
)

bare_idem : (p : Text) → bare (bare p) ≡ bare p
bare_idem p =
    let (tail, split, a) = trim_right-append is_slash p in
    sym (ap bare split ∙ trim_right_of_append is_slash (bare p) tail a)

bare_slash : bare (codes "/") ≡ []
unfolding trim_right elem
bare_slash = refl

nonempty_or_root : (t : Text) → nonempty_or t (codes "/") ≡ codes "/" → (t ≡ []) ⊎ (t ≡ codes "/")
unfolding nonempty_or
nonempty_or_root [] q = inl refl
nonempty_or_root (c ∷ t) q = inr q

bare_root : (p : Text) → nonempty_or (bare p) (codes "/") ≡ codes "/" → bare p ≡ []
bare_root p q = elim (nonempty_or_root (bare p) q) [
  | inl e ↦ e
  | inr e ↦ sym (bare_idem p) ∙ ap bare e ∙ bare_slash
]

-- A text that starts with a slash is trimmed to the root exactly when it is nothing but slashes.
trimmed_root : (p : Text) → Rooted p → (trimmed p ≡ codes "/") ↔ SlashedDir (codes "/") p
unfolding trimmed
trimmed_root p (rest, r) = (
  λ q.
      let (tail, split, a) = trim_right-append is_slash p in
      let all_slash = sym (split ∙ ap (λ t. t ++ tail) (bare_root p q)) ∙ r in
      (rest, r, (subst (All (λ c. is_slash c ≡ true)) all_slash a).1),
  λ (tail, q, a).
      ap (λ t. nonempty_or (bare t) (codes "/")) q
      ∙ ap (λ t. nonempty_or t (codes "/"))
          (trim_right_of_append is_slash (codes "/") tail a ∙ bare_slash)
      ∙ unfold nonempty_or in refl,
)

has_key-false : (ks : List Text) (t : Text) → (has_key ks t ≡ false) ↔ All (λ k. ¬ (t ≡ k)) ks
unfolding has_key
has_key-false [] t = (λ h. tt, λ h. refl)
has_key-false (k ∷ ks) t =
    let rest = has_key-false ks t in
    let here = same_iff k t in
    (
      λ h. ((λ e. ground (arith, here.1 (sym e))), rest.0 (ground arith)),
      λ v. ground (arith, false_of_not (same k t) (λ y. v.0 (sym (here.0 y))), rest.1 v.1),
    )

-- The directories of a list that are not the root, and have no slash at the end.
abbrev Plain : Text → Type 0
Plain d = (bare d ≡ d) × (d ≢ []) × (d ≢ codes "/")

not_dirs :
    (ds : List Text) (p : Text)
    → All Plain ds
    → All (λ d. ¬ (trimmed p ≡ d)) ds ↔ All (λ d. ¬ SlashedDir d p) ds
not_dirs [] p a = (λ h. tt, λ h. tt)
not_dirs (d ∷ ds) p ((e, n, k), a) =
    let rest = not_dirs ds p a in
    let here = trimmed_dir d p e n k in
    (λ h. ((λ w. h.0 (here.1 w)), rest.0 h.1), λ h. ((λ w. h.0 (here.0 w)), rest.1 h.1))

abbrev dirs : List Text
dirs = tail dangerous

is_plain : Text → Bool
is_plain d = same (bare d) d && (not (same d []) && not (same d (codes "/")))

Plain-of : (d : Text) → is_plain d ≡ true → Plain d
unfolding is_plain
Plain-of d h = ground (arith, same_iff (bare d) d, same_iff d [], same_iff d (codes "/"))

dirs-is_plain : all is_plain dirs ≡ true
unfolding is_plain trim_right elem same
dirs-is_plain = refl

All-Plain : (ds : List Text) → all is_plain ds ≡ true → All Plain ds
All-Plain [] h = tt
All-Plain (d ∷ ds) h =
    let (here, there) = both (is_plain d) (all is_plain ds) h in
    (Plain-of d here, All-Plain ds there)

not_dangerous_iff :
    (p : Text)
    → Rooted p
    → (has_key dangerous (trimmed p) ≡ false) ↔ All (λ d. ¬ SlashedDir d p) dangerous
not_dangerous_iff p r =
    let keys = has_key-false dangerous (trimmed p) in
    let root = trimmed_root p r in
    let others = not_dirs dirs p (All-Plain dirs dirs-is_plain) in
    (
      λ h. let k = keys.0 h in ((λ w. k.0 (root.1 w)), others.0 k.1),
      λ v. keys.1 ((λ e. v.0 (root.0 e)), others.1 v.1),
    )

valid_source_path_iff : (p : Text) → (valid_source_path p ≡ none) ↔ IsSource p
unfolding valid_source_path
valid_source_path_iff p =
    let rooted = has_prefix_iff p (codes "/") in
    let dots = contains_iff p in
    (
      λ h.
          let r = rooted.0 (ground arith) in
          record {
            rooted = r;
            plain = dots.0 (ground arith);
            harmless = (not_dangerous_iff p r).0 (ground arith);
          },
      λ v.
          ground
            (arith, rooted.1 v.rooted, dots.1 v.plain, (not_dangerous_iff p v.rooted).1 v.harmless),
    )

first_error_iff :
    (e later : Option PathError) → (first_error e later ≡ none) ↔ ((e ≡ none) × (later ≡ none))
first_error_iff none later = ground arith
first_error_iff (some e) later = ground arith

valid_each_iff : (ps : List Text) → (valid_each ps ≡ none) ↔ All IsSource ps
unfolding valid_each
valid_each_iff [] = (λ h. tt, λ h. refl)
valid_each_iff (p ∷ ps) =
    let e = first_error_iff (valid_source_path p) (valid_each ps) in
    let here = valid_source_path_iff p in
    let rest = valid_each_iff ps in
    (λ h. (here.0 (e.0 h).0, rest.0 (e.0 h).1), λ v. e.1 (here.1 v.0, rest.1 v.1))

-- A text of source paths is accepted exactly when it has a field, and every field starts with a
-- slash, holds no ".." and is none of the twelve dangerous directories, with or without slashes at
-- its end.
pub valid_source_paths_iff :
    (s : Text) → (valid_source_paths s ≡ none) ↔ ((fields s ≢ []) × All IsSource (fields s))
unfolding valid_source_paths
valid_source_paths_iff s = go (fields s) refl
  where
    go :
        (ps : List Text)
        → fields s ≡ ps
        → (elim ps as (λ _. Option PathError) [
          | [] ↦ some PathError.empty
          | p ∷ ps ↦ valid_each (p ∷ ps)
        ]
            ≡ none)
          ↔ ((ps ≢ []) × All IsSource ps)
    go [] e = (λ h. cc, λ v. absurd (v.0 refl))
    go (p ∷ ps) e =
        let each = valid_each_iff (p ∷ ps) in (λ h. ((λ q. cc), each.0 h), λ v. each.1 v.1)
