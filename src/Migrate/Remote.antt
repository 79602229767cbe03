-- ===== src/Migrate/Remote.antt =====
-- Remotes and paths: what names a repository, and which names are accepted.
use oracle_backup.Base.{
  ℕ, Bool, true, false, not, ◌&&◌, ◌||◌, List, [], ◌∷◌, ◌++◌, Option, none, some, if◌then◌else◌,
  all, length, take, drop, ◌-◌,
}
use oracle_backup.Text.{
  Text, codes, same, has_prefix, has_suffix, contains, elem, is_control, trim_space, split,
}

-- "backups/" and the HOST_TAG of the environment.
unfoldable pub default_repo_path : Text → Text
default_repo_path host_tag = codes "backups/" ++ host_tag

-- A file's text if it can be read, trimmed, unless that is empty.
unfoldable pub nonempty_or : Text → Text → Text
nonempty_or [] d = d
nonempty_or (c ∷ s) d = c ∷ s

-- `currentRepoPathFrom`: `none` where the override file cannot be read.
unfoldable pub current_repo_path : Text → Option Text → Text
unfolding nonempty_or default_repo_path trim_space
current_repo_path host_tag none = default_repo_path host_tag
current_repo_path host_tag (some b) = nonempty_or (trim_space b) (default_repo_path host_tag)

unfoldable pub repo_url_on : Text → Text → Text
repo_url_on remote path = codes "rclone:" ++ (remote ++ (codes ":" ++ path))

-- The runes of the `switch` of `validRemotePath`.
abbrev pub remote_meta : Text
remote_meta = codes "`$;|&<>\"'\\*?:"

unfoldable pub is_remote_rune : ℕ → Bool
unfolding elem
is_remote_rune r = not (is_control r || elem r remote_meta)

unfoldable pub is_remote_path : Text → Bool
is_remote_path p =
    if same p [] || has_prefix p (codes "/") || has_prefix p (codes "-")
    then false
    else if contains p (codes "..")
    then false
    else all is_remote_rune p

unfoldable pub valid_remote_path : Text → Bool
valid_remote_path p = is_remote_path (trim_space p)

-- The text without its first and its last rune, for a text that has both.
unfoldable pub between_brackets : Text → Text
between_brackets t = take (length t - 2) (drop 1 t)

-- The names in the section headers of rclone.conf.
unfoldable pub remote_names : List Text → List Text
unfolding between_brackets has_prefix has_suffix trim_space
remote_names [] = []
remote_names (line ∷ lines) =
    let t = trim_space line in
    let rest = remote_names lines in
    if has_prefix t (codes "[") && has_suffix t (codes "]")
    then trim_space (between_brackets t) ∷ rest
    else rest

-- `none` where rclone.conf cannot be read.
unfoldable pub configured_remote_names : Option Text → List Text
unfolding remote_names split
configured_remote_names none = []
configured_remote_names (some b) = remote_names (split 10 b)

unfoldable pub remote_name_in : Text → List Text → Bool
unfolding same
remote_name_in name [] = false
remote_name_in name (n ∷ ns) =
    let rest = remote_name_in name ns in if same n name then true else rest

unfoldable pub valid_remote_name : Option Text → Text → Bool
unfolding configured_remote_names remote_name_in
valid_remote_name conf name =
    not (same name []) && remote_name_in name (configured_remote_names conf)

pub data Mode : Type 0 where
  adopt move : Mode

-- `none` is the error: the target cannot be reached.
unfoldable pub migrate_mode : Bool → Bool → Option Mode
migrate_mode to_reachable to_has_repo =
    if not to_reachable then none else if to_has_repo then some adopt else some move
