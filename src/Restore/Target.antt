-- ===== src/Restore/Target.antt =====
-- `safeRestoreTarget`. What the system says of paths is an argument.
use oracle_backup.Base.{
  ℕ, zero, suc, Bool, not, ◌&&◌, [], Option, none, some, length, if◌then◌else◌,
}
use oracle_backup.Text.{Text, codes, same, has_prefix, contains, clean, abs, dir}
use oracle_backup.Inputs.Texts.{within}

pub record Os : Type 0 where
  pub cwd : Option Text  -- `os.Getwd`
  pub stat : Text → Bool  -- `os.Stat` succeeds
  pub eval_symlinks : Text → Option Text  -- `filepath.EvalSymlinks`

-- The five ways to end. `unfinished` is of the model only: the loop's fuel ran out.
pub data Target : Type 0 where
  has_dots no_cwd outside escapes unfinished : Target
  safe : Text → Target

-- `filepath.Abs`: an error only for a path that is not rooted, without a working directory.
unfoldable pub abs_of : Option Text → Text → Option Text
abs_of none path = if has_prefix path (codes "/") then some (abs [] path) else none
abs_of (some cwd) path = some (abs cwd path)

-- The loop for the deepest ancestor that exists, the path itself included; the root where none does.
unfoldable pub ancestor : ℕ → (Text → Bool) → Text → Option Text
ancestor zero stat anc = none
ancestor (suc fuel) stat anc =
    let rest = ancestor fuel stat (dir anc) in
    if stat anc then some anc else if same (dir anc) anc then some anc else rest

abbrev pub or_else : Text → Option Text → Text
or_else d none = d
or_else d (some t) = t

-- `realAnc != realRoot && !within(realRoot, realAnc) && !within(realAnc, realRoot)`
abbrev pub diverges : Text → Text → Bool
diverges real_root real_anc =
    not (same real_anc real_root)
    && not (within real_root real_anc)
    && not (within real_anc real_root)

-- The part behind the loop.
unfoldable pub resolve : Os → Text → Text → Option Text → Target
resolve os root_abs path none = unfinished
resolve os root_abs path (some anc) = elim (os.eval_symlinks anc) [
  | none ↦ safe path
  | some real_anc ↦
      if diverges (or_else root_abs (os.eval_symlinks root_abs)) real_anc
      then escapes
      else safe path
]

-- The part behind the lexical checks.
unfoldable pub confine : Os → Text → Text → Target
confine os root_abs path =
    if not (within root_abs path)
    then outside
    else resolve os root_abs path (ancestor (suc (length path)) os.stat path)

-- An error of the root's `Abs` is ignored, and leaves the empty text.
unfoldable pub safe_restore_target : Os → Text → Text → Target
safe_restore_target os root target =
    if contains target (codes "..") then has_dots else elim (abs_of os.cwd (clean target)) [
      | none ↦ no_cwd
      | some path ↦ confine os (or_else [] (abs_of os.cwd (clean root))) path
    ]
