-- ===== src/Web/Listings.antt =====
-- `handleSnapshotLs` of api.go: one directory of a snapshot, and the cache of such listings.
use oracle_backup.Base.{
  ℕ, zero, suc, Bool, true, false, not, ◌||◌, List, [], ◌∷◌, ◌++◌, Option, none, some, ltb,
  if◌then◌else◌,
}
use oracle_backup.Base.Int.{ℤ}
use oracle_backup.Text.{Text, codes, same, split, trim_space, has_prefix}
use oracle_backup.Inputs.Texts.{valid_snap_id, safe_restic_path}
use oracle_backup.Web.Request.{Entry, Listing, str, text, json, listing, Handler}

-- What a line of `restic ls --json` decodes to.
pub record Node : Type 0 where
  pub name : Text
  pub type : Text
  pub path : Text
  pub size : ℤ
  pub struct_type : Text

-- Go's order of strings.
unfoldable pub before : Text → Text → Bool
before s [] = false
before [] (d ∷ t) = true
before (c ∷ s) (d ∷ t) =
    let rest = before s t in if ltb c d then true else if ltb d c then false else rest

-- The function that `sort.Slice` gets: directories first, then by name.
abbrev pub is_dir : Entry → Bool
is_dir e = same e.type (codes "dir")

unfoldable pub less : Entry → Entry → Bool
less a b =
    if is_dir a
    then (if is_dir b then before a.name b.name else true)
    else if is_dir b
    then false
    else before a.name b.name

-- `sort.Slice` leaves open how elements are ordered of which none is less; here they keep their order.
module _ {A : Type 0} (less_than : A → A → Bool) where
  unfoldable pub insert : A → List A → List A
  insert e [] = e ∷ []
  insert e (f ∷ fs) = let rest = insert e fs in if less_than f e then f ∷ rest else e ∷ f ∷ fs

  unfoldable pub sort_slice : List A → List A
  sort_slice [] = []
  sort_slice (e ∷ es) = insert e (sort_slice es)

abbrev pub entry_of_node : Node → Entry
entry_of_node n = record { name = n.name; type = n.type; path = n.path; size = n.size }

abbrev pub max_entries : ℕ
max_entries = 1000

abbrev pub cache_key : Text → Text → Text
cache_key snap path = snap ++ (0 ∷ path)

abbrev pub path_or_root : Text → Text
path_or_root path = if same path [] then codes "/" else path

unfoldable pub find_listing : Text → List (Text × Listing) → Option Listing
find_listing key [] = none
find_listing key ((k, l) ∷ cache) =
    let rest = find_listing key cache in if same k key then some l else rest

-- `decode` is `json.Unmarshal` into a node.
module _ (decode : Text → Option Node) where
  -- The entry of a line; `none` for the lines that the loop skips.
  unfoldable pub line_entry : Text → Text → Option Entry
  line_entry path line =
      if not (has_prefix (trim_space line) (codes "{"))
      then none
      else elim (decode (trim_space line)) [
        | none ↦ none
        | some n ↦
            if not (same n.struct_type (codes "node"))
            then none
            else if same n.path path
            then none
            else some (entry_of_node n)
      ]

  -- The loop over the lines, with the number of entries that are still taken.
  unfoldable pub entries_from : ℕ → Text → List Text → List Entry
  entries_from zero path lines = []
  entries_from (suc room) path [] = []
  entries_from (suc room) path (line ∷ lines) = elim (line_entry path line) [
    | none ↦ entries_from (suc room) path lines
    | some e ↦ e ∷ entries_from room path lines
  ]

  unfoldable pub listing_of : Text → Text → Listing
  listing_of path out = record {
    path = path;
    entries = sort_slice less (entries_from max_entries path (split 10 out));
  }

  -- `restic` is the output of `restic ls`, `none` for an error.
  module _ (restic : Text → Text → Option Text) where
    unfoldable pub list_directory : Text → Text → Handler
    list_directory snap path r s = elim (find_listing (cache_key snap path) s.ls_cache) [
      | some l ↦ (listing l, s)
      | none ↦ elim (restic snap path) [
        | none ↦ (json 502 ((codes "error", str (codes "ls failed")) ∷ []), s)
        | some out ↦
            let l = listing_of path out in
            (listing l, record s { ls_cache = (cache_key snap path, l) ∷ s.ls_cache })
      ]
    ]

    unfoldable pub handle_snapshot_ls : Handler
    handle_snapshot_ls r s =
        let snap = r.query (codes "id") in
        let path = r.query (codes "path") in
        if not (valid_snap_id snap) || not (safe_restic_path path)
        then (text 400 (codes "bad params"), s)
        else list_directory snap (path_or_root path) r s
