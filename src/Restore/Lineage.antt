-- ===== src/Restore/Lineage.antt =====
-- The lineage of the restore root, and what the part behind the lexical checks makes of a path.
use oracle_backup.Base.{
  true, false, not, ◌≡◌, ◌≢◌, ◌↔◌, ◌⊎◌, inl, inr, refl, ap, subst, [], ◌∷◌, ◌++◌, Option, none,
  some, arith, Bool-cases, if◌then◌else◌,
}
use oracle_backup.Text.{Text, same_iff, codes, has_prefix, clean, abs, join, elements, slash}
use oracle_backup.Inputs.Spec.{NoDotDot}
use oracle_backup.Inputs.Texts.{within}
use oracle_backup.Restore.Target.{
  Os, Target, outside, escapes, unfinished, safe, abs_of, or_else, diverges, resolve, confine,
}
use oracle_backup.Restore.Ancestor.{ancestors, first_existing, ancestor-clean}

-- At the root, under it or above it.
abbrev pub OnLine : Text → Text → Type 0
OnLine root real = (real ≡ root) ⊎ (within root real ≡ true) ⊎ (within real root ≡ true)

diverges_iff : (root real : Text) → (diverges root real ≡ false) ↔ OnLine root real
diverges_iff root real = ground (arith, same_iff real root)

-- Where the ancestor is, once its symbolic links are followed: not known, or on the root's lineage.
abbrev pub Lineage : Os → Text → Text → Type 0
Lineage os root_abs anc =
    (os.eval_symlinks anc ≡ none)
    ⊎ ((real : Text) × (os.eval_symlinks anc ≡ some real)
        × OnLine (or_else root_abs (os.eval_symlinks root_abs)) real)

-- The deepest path among the target and those above it that exists.
abbrev pub deepest : Os → Text → Text
deepest os q = first_existing os.stat (ancestors (elements q))

pub record Confines (os : Os) (root target path : Text) : Type 0 where
  pub plain : NoDotDot target
  pub source : Text
  pub rooted : has_prefix source (codes "/") ≡ true
  pub cleaned : path ≡ clean source
  pub absolute : abs_of os.cwd (clean target) ≡ some path
  pub inside : within (or_else [] (abs_of os.cwd (clean root))) path ≡ true
  pub lineage : Lineage os (or_else [] (abs_of os.cwd (clean root))) (deepest os source)

-- The working directory is rooted.
abbrev pub RootedCwd : Os → Type 0
RootedCwd os = (c : Text) → os.cwd ≡ some c → has_prefix c (codes "/") ≡ true

abbrev Cleaned : Text → Type 0
Cleaned path = (q : Text) × (has_prefix q (codes "/") ≡ true) × (path ≡ clean q)

has_prefix-append_slash :
    (c t : Text) → has_prefix c (codes "/") ≡ true → has_prefix (c ++ t) (codes "/") ≡ true
unfolding has_prefix
has_prefix-append_slash [] t h = cc h
has_prefix-append_slash (d ∷ c) t h = h

-- A rooted directory with something nonempty under it.
join-Cleaned : (c t : Text) → has_prefix c (codes "/") ≡ true → Cleaned (join c t)
join-Cleaned [] t h = cc (h, no_prefix)
  where
    no_prefix : has_prefix [] (codes "/") ≡ false
    no_prefix = unfold has_prefix in refl
join-Cleaned (d ∷ c) [] h = (d ∷ c, h, unfold join in refl)
join-Cleaned (d ∷ c) (e ∷ t) h = (
  (d ∷ c) ++ (slash ∷ e ∷ t),
  has_prefix-append_slash (d ∷ c) (slash ∷ e ∷ t) h,
  unfold join in refl,
)

pub abs_of-Cleaned :
    (cwd : Option Text) (t path : Text)
    → ((c : Text) → cwd ≡ some c → has_prefix c (codes "/") ≡ true)
    → abs_of cwd t ≡ some path
    → Cleaned path
unfolding abs_of abs
abs_of-Cleaned none t path h e = elim (Bool-cases (has_prefix t (codes "/"))) [
  | inl y ↦ (t, y, ground arith)
  | inr n ↦ absurd (ground arith)
]
abs_of-Cleaned (some c) t path h e = elim (Bool-cases (has_prefix t (codes "/"))) [
  | inl y ↦ (t, y, ground arith)
  | inr n ↦ subst Cleaned (ground arith) (join-Cleaned c t (h c refl))
]

pub resolve_iff :
    (os : Os) (root_abs path anc p : Text)
    → (resolve os root_abs path (some anc) ≡ safe p) ↔ ((path ≡ p) × Lineage os root_abs anc)
unfolding resolve
resolve_iff os root_abs path anc p = go (os.eval_symlinks anc) refl
  where
    go :
        (o : Option Text)
        → os.eval_symlinks anc ≡ o
        → (elim o as (λ _. Target) [
          | none ↦ safe path
          | some real_anc ↦
              if diverges (or_else root_abs (os.eval_symlinks root_abs)) real_anc
              then escapes
              else safe path
        ]
            ≡ safe p)
          ↔ ((path ≡ p) × Lineage os root_abs anc)
    go none e = (λ h. (cc, inl e), λ h. ap safe h.0)
    go (some real) e =
        elim (Bool-cases (diverges (or_else root_abs (os.eval_symlinks root_abs)) real)) [
          | inl y ↦ (
            λ h. absurd (ground arith),
            λ (q, lin). elim lin [
              | inl n ↦ absurd (ground arith)
              | inr (real', e', d) ↦
                  let w : real' ≡ real = ground arith in
                  let c =
                    (diverges_iff (or_else root_abs (os.eval_symlinks root_abs)) real).1
                      (subst (OnLine (or_else root_abs (os.eval_symlinks root_abs))) w d) in
                  absurd (ground arith)
            ],
          )
          | inr n ↦ (
            λ h. (
              ground arith,
              inr (real, e, (diverges_iff (or_else root_abs (os.eval_symlinks root_abs)) real).0 n),
            ),
            λ v. ground (arith, v.0),
          )
        ]

pub resolve_finished :
    (os : Os) (root_abs path anc : Text) → resolve os root_abs path (some anc) ≢ unfinished
unfolding resolve
resolve_finished os root_abs path anc = go (os.eval_symlinks anc)
  where
    go :
        (o : Option Text)
        → elim o as (λ _. Target) [
          | none ↦ safe path
          | some real_anc ↦
              if diverges (or_else root_abs (os.eval_symlinks root_abs)) real_anc
              then escapes
              else safe path
        ]
          ≢ unfinished
    go none h = cc h
    go (some real) h = ground arith

-- The loop's answer put in.
pub confine-clean :
    (os : Os) (root_abs path q : Text)
    → has_prefix q (codes "/") ≡ true
    → path ≡ clean q
    → confine os root_abs path ≡ (
        if not (within root_abs path)
        then outside
        else resolve os root_abs path (some (deepest os q)))
unfolding confine
confine-clean os root_abs path q h e = rw (e, ancestor-clean os.stat q h) refl
