-- ===== src/Rclone/Cli.antt =====
-- The web command line: splitting a command and deciding whether rclone may run it.
use oracle_backup.Base.{
  ℕ, Bool, true, false, not, ◌&&◌, ◌||◌, List, [], ◌∷◌, ◌++◌, ◌==◌, if◌then◌else◌,
}
use oracle_backup.Text.{Text, codes, same, has_prefix, flush, trim_space}
use oracle_backup.Inputs.DbJobs.{has_key}

abbrev pub quote : ℕ
quote = b'"'

abbrev pub is_blank : ℕ → Bool
is_blank r = r == b' ' || r == 9

-- The loop of `splitArgs`: `inq` and the argument that is open.
unfoldable pub args_from : Bool → Text → Text → List Text
args_from inq cur [] = flush cur []
args_from inq cur (r ∷ s) = elim (r == quote) [
  | true ↦ args_from (not inq) cur s
  | false ↦ elim (is_blank r && not inq) [
    | true ↦ flush cur (args_from inq [] s)
    | false ↦ args_from inq (cur ++ r ∷ []) s
  ]
]

unfoldable pub split_args : Text → List Text
split_args s = args_from false [] s

abbrev pub cli_allowed : List Text
cli_allowed =
    codes "config"
    ∷ codes "listremotes"
    ∷ codes "lsd"
    ∷ codes "ls"
    ∷ codes "lsl"
    ∷ codes "lsf"
    ∷ codes "lsjson"
    ∷ codes "tree"
    ∷ codes "about"
    ∷ codes "size"
    ∷ codes "version"
    ∷ codes "cat"
    ∷ codes "hashsum"
    ∷ codes "md5sum"
    ∷ codes "sha1sum"
    ∷ []

abbrev pub is_flag : Text → Bool
is_flag a = has_prefix a (codes "-")

-- The first argument that is no flag; empty where there is none.
unfoldable pub first_word : List Text → Text
first_word [] = []
first_word (a ∷ as') = let rest = first_word as' in if is_flag a then rest else a

-- The first word behind a `config`, `seen` saying that one was passed; `config` itself is skipped.
unfoldable pub config_word : Bool → List Text → Text
config_word seen [] = []
config_word seen (a ∷ as') = elim (same a (codes "config")) [
  | true ↦ config_word true as'
  | false ↦ elim (seen && not (is_flag a)) [ true ↦ a | false ↦ config_word seen as' ]
]

-- The words that would start the interactive wizard.
abbrev pub is_interactive : Text → Bool
is_interactive w = same w [] || same w (codes "edit") || same w (codes "reconnect")

pub data Verdict : Type 0 where
  runs : Text → Verdict  -- with the subcommand, for the audit
  no_command : Verdict
  not_allowed : Text → Verdict
  interactive : Verdict

unfoldable pub judge : List Text → Verdict
judge [] = no_command
judge (a ∷ as') =
    let sub = first_word (a ∷ as') in
    if not (has_key cli_allowed sub)
    then not_allowed sub
    else if same sub (codes "config") && is_interactive (config_word false (a ∷ as'))
    then interactive
    else runs sub

-- The decision about the text of a request.
unfoldable pub judge_command : Text → Verdict
judge_command cmd = judge (split_args (trim_space cmd))
