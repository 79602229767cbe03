-- ===== src/Inputs/DoubleSlash.antt =====
-- What `validSourcePaths` lets through, though `filepath.Clean` makes a dangerous directory of it.
use oracle_backup.Base.{ℕ, Bool, false, ◌≡◌, ◌≢◌, refl, [], ◌∷◌, none, arith, any, neither, ◌==◌}
use oracle_backup.Text.{
  Text, codes, same, has_prefix, contains, elem, is_space, trim_right, keep_left, fields,
  fields_open, flush, split_plain, slash, clean,
}
use oracle_backup.Migrate.Remote.{nonempty_or}
use oracle_backup.Inputs.DbJobs.{has_key}
use oracle_backup.Inputs.SourcePaths.{trimmed, valid_source_path, valid_each, valid_source_paths}

-- One component of a path: not empty, and with no slash, no dot and no white space.
pub record IsPlainName (name : Text) : Type 0 where
  pub some_rune : name ≢ []
  pub no_slash : elem slash name ≡ false
  pub no_dot : elem b'.' name ≡ false
  pub no_space : any is_space name ≡ false

abbrev pub doubled : Text → Text
doubled name = slash ∷ slash ∷ name

fields_open_plain : (s : Text) → any is_space s ≡ false → fields_open s ≡ (s, [])
unfolding fields_open
fields_open_plain [] h = refl
fields_open_plain (c ∷ s) h =
    let (here, there) = neither (is_space c) (any is_space s) h in
    rw (fields_open_plain s there, here)

keep_left_kept : (drop : ℕ → Bool) (c : ℕ) (t : Text) → drop c ≡ false → keep_left drop c t ≡ c ∷ t
unfolding keep_left
keep_left_kept drop c [] h = rw h
keep_left_kept drop c (d ∷ t) h = refl

trim_right_plain : (s : Text) → elem slash s ≡ false → trim_right (λ c. elem c (codes "/")) s ≡ s
unfolding trim_right elem
trim_right_plain [] h = refl
trim_right_plain (c ∷ s) h =
    let (here, there) = neither (slash == c) (elem slash s) h in
    rw (trim_right_plain s there) (keep_left_kept (λ x. elem x (codes "/")) c s (ground arith))

no_dots : (s : Text) → elem b'.' s ≡ false → contains s (codes "..") ≡ false
unfolding contains elem has_prefix
no_dots [] h = refl
no_dots (c ∷ s) h = ground (arith, no_dots s)

-- What is trimmed off the end of a doubled name: nothing.
trimmed-doubled :
    (c : ℕ) (s : Text) → elem slash (c ∷ s) ≡ false → trimmed (doubled (c ∷ s)) ≡ doubled (c ∷ s)
unfolding trimmed trim_right nonempty_or
trimmed-doubled c s h = rw (trim_right_plain (c ∷ s) h)

fields-doubled : (s : Text) → any is_space s ≡ false → fields (doubled s) ≡ doubled s ∷ []
unfolding fields flush
fields-doubled s h = rw (fields_open_plain s h)

accepted : (c : ℕ) (s : Text) → IsPlainName (c ∷ s) → valid_source_path (doubled (c ∷ s)) ≡ none
unfolding valid_source_path has_prefix has_key same elem
accepted c s v = rw (no_dots (doubled (c ∷ s)) v.no_dot, trimmed-doubled c s v.no_slash)

clean-doubled : (c : ℕ) (s : Text) → IsPlainName (c ∷ s) → clean (doubled (c ∷ s)) ≡ slash ∷ c ∷ s
unfolding clean same elem
clean-doubled c s v = rw (split_plain slash (c ∷ s) v.no_slash) (ground arith)

one_path :
    (s p : Text) → fields s ≡ p ∷ [] → valid_source_path p ≡ none → valid_source_paths s ≡ none
unfolding valid_source_paths valid_each
one_path s p e h = rw (e, valid_source_paths) (rw h)

-- A path of two slashes and a plain name is accepted whatever the name, "etc" and "root" included,
-- though it cleans to the directory of that name under the root, and the code means to refuse the
-- dangerous ones among these.
pub doubled_accepted :
    (name : Text)
    → IsPlainName name
    → (valid_source_paths (doubled name) ≡ none) × (clean (doubled name) ≡ slash ∷ name)
doubled_accepted [] v = absurd (v.some_rune refl)
doubled_accepted (c ∷ s) v = (
  one_path _ (doubled (c ∷ s)) (fields-doubled (c ∷ s) v.no_space) (accepted c s v),
  clean-doubled c s v,
)
