-- ===== src/Text/FilePath.antt =====
-- Package path/filepath on Unix: `Clean`, `Join`, `Dir`, `Abs`.
use oracle_backup.Base.{ℕ, Bool, ◌||◌, List, [], ◌∷◌, ◌++◌, ◌==◌, if◌then◌else◌}
use oracle_backup.Text.Defs.{Text, codes, same, has_prefix, split}

abbrev pub slash : ℕ
slash = b'/'

-- The parts, with a separator between them.
unfoldable pub join_slash : List Text → Text
join_slash [] = []
join_slash (p ∷ []) = p
join_slash (p ∷ q ∷ ps) = p ++ (slash ∷ join_slash (q ∷ ps))

-- `..` takes the last element away, unless there is none or it is `..` itself.
unfoldable pub go_up : Bool → List Text → List Text
go_up rooted [] = if rooted then [] else codes ".." ∷ []
go_up rooted (top ∷ stack) = if same top (codes "..") then codes ".." ∷ top ∷ stack else stack

-- One element of the path; the stack has the last element first.
unfoldable pub clean_part : Bool → List Text → Text → List Text
unfolding go_up
clean_part rooted stack part =
    if same part [] || same part (codes ".")
    then stack
    else if same part (codes "..")
    then go_up rooted stack
    else part ∷ stack

unfoldable pub clean_parts : Bool → List Text → List Text → List Text
unfolding clean_part
clean_parts rooted stack [] = stack
clean_parts rooted stack (p ∷ ps) = clean_parts rooted (clean_part rooted stack p) ps

unfoldable pub reverse_onto : List Text → List Text → List Text
reverse_onto [] out = out
reverse_onto (p ∷ ps) out = reverse_onto ps (p ∷ out)

-- The empty result is written ".".
unfoldable pub or_dot : Text → Text
or_dot [] = codes "."
or_dot (c ∷ s) = c ∷ s

-- `filepath.Clean`
unfoldable pub clean : Text → Text
unfolding clean_parts join_slash reverse_onto or_dot has_prefix split same
clean path =
    let rooted = has_prefix path (codes "/") in
    let body = join_slash (reverse_onto (clean_parts rooted [] (split slash path)) []) in
    if rooted then slash ∷ body else or_dot body

-- `filepath.Join(dir, name)`: empty elements are left out.
unfoldable pub join : Text → Text → Text
join [] [] = []
join [] (c ∷ name) = clean (c ∷ name)
join (d ∷ dir) [] = clean (d ∷ dir)
join (d ∷ dir) (c ∷ name) = clean ((d ∷ dir) ++ (slash ∷ c ∷ name))

-- `filepath.Abs`, where `cwd` is the working directory.
unfoldable pub abs : Text → Text → Text
abs cwd path = if has_prefix path (codes "/") then clean path else join cwd path

-- One rune in front of a text that is cut behind its last slash.
unfoldable pub keep_dir : ℕ → Text → Text
keep_dir c [] = if c == slash then c ∷ [] else []
keep_dir c (d ∷ t) = c ∷ d ∷ t

-- The text up to its last slash, that slash included.
unfoldable pub up_to_slash : Text → Text
unfolding keep_dir
up_to_slash [] = []
up_to_slash (c ∷ s) = keep_dir c (up_to_slash s)

-- `filepath.Dir`
unfoldable pub dir : Text → Text
unfolding clean up_to_slash
dir path = clean (up_to_slash path)
