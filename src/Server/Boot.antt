-- ===== src/Server/Boot.antt =====
-- `loadSessionKey`, `resolveAdminHash`, `trimSpace` and `writeFile0600` of main.go. A file that cannot
-- be read is `none`.
use oracle_backup.Base.{
  ℕ, Bool, not, ◌||◌, [], ◌∷◌, ◌++◌, Option, none, some, ◌==◌, leb, length, if◌then◌else◌,
}
use oracle_backup.Text.{Text, same, trim_right}
use oracle_backup.Auth.Admin.{Pick, pick_admin_hash}

-- What a temporary file and its renaming do to a file; the errors of both.
pub record Saves : Type 0 where
  pub write_fails : Bool
  pub rename_fails : Bool

-- What a start finds: WEB_SESSION_KEY, /state/session.key, and 32 random bytes. A text of this record,
-- a key, is the list of its bytes.
pub record KeyStart : Type 0 where
  pub env_key : Text
  pub file : Option Text
  pub random : Text
  pub saves : Saves

abbrev pub new_key : KeyStart → Option (Text × Option Text)
new_key k =
    if k.saves.write_fails
    then none
    else if k.saves.rename_fails
    then none
    else some (k.random, some k.random)

-- The key and the file behind the start; `none` where the server ends with a fatal error.
unfoldable pub load_session_key : KeyStart → Option (Text × Option Text)
load_session_key k = if leb 32 (length k.env_key) then some (k.env_key, k.file) else elim k.file [
  | none ↦ new_key k
  | some b ↦ if leb 32 (length b) then some (b, k.file) else new_key k
]

abbrev pub is_blank : ℕ → Bool
is_blank c = c == 10 || c == 13 || c == b' '

-- `trimSpace`
unfoldable pub trim_end : Text → Text
trim_end b = trim_right is_blank b

unfoldable pub read : Option Text → Text
read none = []
read (some b) = trim_end b

-- The file behind `writeFile0600`, whose errors are only logged.
unfoldable pub write_file_0600 : Saves → Option Text → Text → Option Text
write_file_0600 saves file content =
    if saves.write_fails
    then file
    else if saves.rename_fails
    then file
    else some (content ++ (10 ∷ []))

-- What a start finds: the two hash files, the password of the environment, the name of a password
-- file, that file, and what `randPassword` gives.
pub record HashStart : Type 0 where
  pub secrets_file : Option Text
  pub state_file : Option Text
  pub env_pw : Text
  pub pw_name : Text
  pub pw_file : Option Text
  pub random : Text
  pub saves : Saves

-- The password of the file goes first, if it has one.
unfoldable pub plain_password : HashStart → Text
plain_password h =
    if not (same h.pw_name [])
    then (if not (same (read h.pw_file) []) then read h.pw_file else h.env_pw)
    else h.env_pw

module _ (hash : Text → Text × Bool) (check : Text → Text → Bool) where
  abbrev pub pick : HashStart → Pick
  pick h =
      pick_admin_hash hash check (read h.secrets_file) (read h.state_file) (plain_password h)
        h.random

  -- The hash in use, empty where none could be made, and the state file behind the start.
  unfoldable pub resolve_admin_hash : HashStart → Text × Option Text
  resolve_admin_hash h =
      let p = pick h in
      if p.failed
      then ([], h.state_file)
      else if not (same p.persist [])
      then (p.use_hash, write_file_0600 h.saves h.state_file p.persist)
      else (p.use_hash, h.state_file)
