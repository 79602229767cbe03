-- ===== src/Inputs/Texts.antt =====
-- Single values: the webhook's URL, a snapshot's id, a path in a snapshot, a path on a remote, and
-- containment of paths.
use oracle_backup.Base.{
  ℕ, ◌≤◌, Bool, true, false, not, ◌&&◌, ◌||◌, ◌≡◌, ◌≢◌, ◌↔◌, ◌⊎◌, inl, inr, [], ◌∷◌, ◌++◌, arith,
  ◌==◌, ltb, leb, all, All, length, Bool-cases, false_of_not, if◌then◌else◌,
}
use oracle_backup.Text.{
  Text, codes, same, same_iff, has_prefix, has_suffix, contains, elem, is_control, byte_len, slash,
  trim_space,
}
use oracle_backup.Inputs.Spec.{NoDotDot, Printable, Rooted, has_prefix_iff, contains_iff, all_iff}
use oracle_backup.Migrate.Remote.{is_remote_rune, remote_meta, is_remote_path, valid_remote_path}

-- `validWebhookURL`
unfoldable pub valid_webhook_url : Text → Bool
unfolding byte_len
valid_webhook_url u =
    if byte_len u == 0 || ltb 2048 (byte_len u)
    then false
    else if not (has_prefix u (codes "http://")) && not (has_prefix u (codes "https://"))
    then false
    else all (λ r. not (is_control r || r == b' ')) u

-- `[a-f0-9]`
abbrev pub is_hex : ℕ → Bool
is_hex c = (leb b'a' c && leb c b'f') || (leb b'0' c && leb c b'9')

-- `validSnapID`
unfoldable pub valid_snap_id : Text → Bool
valid_snap_id s = same s (codes "latest") || (leb 8 (length s) && leb (length s) 64 && all is_hex s)

-- The runes of the `switch` of `safeResticPath`.
abbrev pub shell_meta : Text
shell_meta = codes "`$;|&<>\"'\\*?"

abbrev pub is_restic_rune : ℕ → Bool
is_restic_rune r = not (is_control r || elem r shell_meta)

unfoldable pub safe_restic_path : Text → Bool
safe_restic_path p =
    if same p [] then true else if contains p (codes "..") then false else all is_restic_rune p

-- `within`
unfoldable pub within : Text → Text → Bool
within parent child =
    if same parent child
    then true
    else has_prefix child
        (if not (has_suffix parent (codes "/")) then parent ++ (slash ∷ []) else parent)

-- A rune that is neither a control rune nor in the list.
abbrev pub Allowed : Text → ℕ → Type 0
Allowed meta c = Printable c × (elem c meta ≡ false)

Allowed-iff : (meta : Text) (c : ℕ) → (not (is_control c || elem c meta) ≡ true) ↔ Allowed meta c
Allowed-iff meta c = ground arith

-- A path in a snapshot is accepted exactly when it is empty or holds no "..", no control rune and
-- none of the shell's metacharacters.
pub safe_restic_path_iff :
    (p : Text)
    → (safe_restic_path p ≡ true) ↔ ((p ≡ []) ⊎ (NoDotDot p × All (Allowed shell_meta) p))
unfolding safe_restic_path
safe_restic_path_iff p =
    let runes = all_iff is_restic_rune (Allowed shell_meta) (Allowed-iff shell_meta) p in
    let dots = contains_iff p in
    let empty = same_iff p [] in
    (
      λ h. elim (Bool-cases (same p [])) [
        | inl y ↦ inl (empty.0 y)
        | inr n ↦ inr (dots.0 (ground arith), runes.0 (ground arith))
      ],
      λ v. elim v [ inl e ↦ rw (empty.1 e) | inr (d, r) ↦ ground (arith, dots.1 d, runes.1 r) ],
    )

-- A path on a remote is accepted exactly when, trimmed of white space, it is not empty, starts with
-- neither a slash nor a dash, and holds no "..", no control rune and none of the metacharacters of
-- the shell and of rclone, the colon included.
pub valid_remote_path_iff :
    (p : Text)
    → (valid_remote_path p ≡ true) ↔ (
        (trim_space p ≢ [])
        × (¬ Rooted (trim_space p))
        × (¬ ((rest : Text) × (trim_space p ≡ codes "-" ++ rest)))
        × NoDotDot (trim_space p)
        × All (Allowed remote_meta) (trim_space p))
unfolding valid_remote_path is_remote_path is_remote_rune
valid_remote_path_iff p =
    let t = trim_space p in
    let runes = all_iff is_remote_rune (Allowed remote_meta) (Allowed-iff remote_meta) t in
    let dots = contains_iff t in
    let empty = same_iff t [] in
    let rooted = has_prefix_iff t (codes "/") in
    let dashed = has_prefix_iff t (codes "-") in
    (
      λ h. (
        (λ e. ground (arith, empty.1 e)),
        (λ e. ground (arith, rooted.1 e)),
        (λ e. ground (arith, dashed.1 e)),
        dots.0 (ground arith),
        runes.0 (ground arith),
      ),
      λ (e, r, d, n, a). ground (
        arith,
        false_of_not (same t []) (λ y. e (empty.0 y)),
        false_of_not (has_prefix t (codes "/")) (λ y. r (rooted.0 y)),
        false_of_not (has_prefix t (codes "-")) (λ y. d (dashed.0 y)),
        dots.1 n,
        runes.1 a,
      ),
    )

-- A URL is accepted as a webhook exactly when it has 1 to 2048 bytes, starts with http:// or
-- https://, and holds no control rune and no blank.
pub valid_webhook_url_iff :
    (u : Text)
    → (valid_webhook_url u ≡ true) ↔ (
        (1 ≤ byte_len u)
        × (byte_len u ≤ 2048)
        × (((rest : Text) × (u ≡ codes "http://" ++ rest))
            ⊎ ((rest : Text) × (u ≡ codes "https://" ++ rest)))
        × All (λ c. Printable c × (c ≢ b' ')) u)
unfolding valid_webhook_url
valid_webhook_url_iff u =
    let runes =
      all_iff (λ r. not (is_control r || r == b' ')) (λ c. Printable c × (c ≢ b' '))
        (λ c. ground arith) u in
    let plain = has_prefix_iff u (codes "http://") in
    let secure = has_prefix_iff u (codes "https://") in
    (
      λ h. (
        ground arith,
        ground arith,
        elim (Bool-cases (has_prefix u (codes "http://"))) [
          | inl y ↦ inl (plain.0 y)
          | inr n ↦ inr (secure.0 (ground arith))
        ],
        runes.0 (ground arith),
      ),
      λ (low, high, scheme, a). elim scheme [
        | inl s ↦ ground (arith, plain.1 s, runes.1 a)
        | inr s ↦ ground (arith, secure.1 s, runes.1 a)
      ],
    )

-- A snapshot id is accepted exactly when it is the word "latest" or has 8 to 64 runes, all lower-case
-- hexadecimal digits.
pub valid_snap_id_iff :
    (s : Text)
    → (valid_snap_id s ≡ true)
      ↔ ((s ≡ codes "latest") ⊎ ((8 ≤ length s) × (length s ≤ 64) × All (λ c. is_hex c ≡ true) s))
unfolding valid_snap_id
valid_snap_id_iff s =
    let runes = all_iff is_hex (λ c. is_hex c ≡ true) (λ c. (λ h. h, λ h. h)) s in
    let latest = same_iff s (codes "latest") in
    (
      λ h. elim (Bool-cases (same s (codes "latest"))) [
        | inl y ↦ inl (latest.0 y)
        | inr n ↦ inr (ground arith, ground arith, runes.0 (ground arith))
      ],
      λ v. elim v [ inl e ↦ rw (latest.1 e) | inr (low, high, a) ↦ ground (arith, runes.1 a) ],
    )

-- The directory with the slash that ends it.
abbrev pub as_dir : Text → Text
as_dir parent = if has_suffix parent (codes "/") then parent else parent ++ (slash ∷ [])

-- `within` holds exactly of the directory itself and of the texts that begin with the directory and
-- a slash: a sibling whose name merely begins like the directory's is not within it.
pub within_iff :
    (parent child : Text)
    → (within parent child ≡ true)
      ↔ ((parent ≡ child) ⊎ ((rest : Text) × (child ≡ as_dir parent ++ rest)))
unfolding within
within_iff parent child =
    let equal = same_iff parent child in
    let below = has_prefix_iff child (as_dir parent) in
    (
      λ h. elim (Bool-cases (same parent child)) [
        | inl y ↦ inl (equal.0 y)
        | inr n ↦ inr (below.0 (ground arith))
      ],
      λ v. elim v [ inl e ↦ rw (equal.1 e) | inr w ↦ ground (arith, below.1 w) ],
    )
