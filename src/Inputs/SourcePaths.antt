-- ===== src/Inputs/SourcePaths.antt =====
-- engine/web/srcpaths.go: the paths that a backup covers.
use oracle_backup.Base.{not, List, [], ◌∷◌, ◌++◌, Option, none, some, if◌then◌else◌}
use oracle_backup.Text.{Text, codes, has_prefix, contains, elem, trim_right, trim_space, fields}
use oracle_backup.Migrate.Remote.{nonempty_or}
use oracle_backup.Inputs.DbJobs.{has_key}

pub data PathError : Type 0 where
  empty not_absolute dot_dot dangerous_path : PathError

abbrev pub dangerous : List Text
dangerous =
    codes "/"
    ∷ codes "/etc"
    ∷ codes "/root"
    ∷ codes "/var"
    ∷ codes "/boot"
    ∷ codes "/usr"
    ∷ codes "/bin"
    ∷ codes "/sbin"
    ∷ codes "/lib"
    ∷ codes "/proc"
    ∷ codes "/sys"
    ∷ codes "/dev"
    ∷ []

-- `readSourcePaths`: `none` where the file cannot be read.
unfoldable pub read_source_paths : Option Text → Text
unfolding nonempty_or trim_space
read_source_paths none = codes "/home"
read_source_paths (some b) = nonempty_or (trim_space b) (codes "/home")

-- What `writeSourcePaths` writes.
unfoldable pub source_paths_text : Text → Text
source_paths_text s = trim_space s ++ 10 ∷ []

-- The path without its trailing slashes, "/" for one of slashes alone.
unfoldable pub trimmed : Text → Text
unfolding nonempty_or trim_right elem
trimmed p = nonempty_or (trim_right (λ c. elem c (codes "/")) p) (codes "/")

-- One round of the loop of `validSourcePaths`.
unfoldable pub valid_source_path : Text → Option PathError
valid_source_path p =
    if not (has_prefix p (codes "/"))
    then some not_absolute
    else if contains p (codes "..")
    then some dot_dot
    else if has_key dangerous (trimmed p)
    then some dangerous_path
    else none

-- The first error of a loop that returns at one.
abbrev pub first_error : Option PathError → Option PathError → Option PathError
first_error (some e) later = some e
first_error none later = later

unfoldable pub valid_each : List Text → Option PathError
valid_each [] = none
valid_each (p ∷ ps) = first_error (valid_source_path p) (valid_each ps)

unfoldable pub valid_source_paths : Text → Option PathError
valid_source_paths s = elim (fields s) [ [] ↦ some empty | p ∷ ps ↦ valid_each (p ∷ ps) ]
