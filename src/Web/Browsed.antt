-- ===== src/Web/Browsed.antt =====
-- What a listing of a snapshot's directory shows, and how long.
use oracle_backup.Base.{
  ℕ, zero, suc, true, false, ◌≡◌, inl, inr, refl, sym, ap, subst, List, [], ◌∷◌, Option, some, all,
  arith, Bool-cases, Option-cases, ◌≢◌,
}
use mathlib.Core.List.{Perm}
use oracle_backup.Text.{Text, codes, same, same_iff, split, elem, has_prefix, trim_space}
use oracle_backup.Inputs.Texts.{is_hex, valid_snap_id}
use oracle_backup.Web.Request.{Entry, Listing}
use oracle_backup.Web.Listings.{
  Node, max_entries, cache_key, line_entry, entries_from, listing_of, entry_of_node,
}
use oracle_backup.Web.Sorted.{IsSorted, sort_slice-perm, sort_slice-IsSorted}

-- A line shows an entry: it is a JSON object, the object is a node, and the node is not the directory
-- itself.
pub record Shown (decode : Text → Option Node) (path line : Text) (e : Entry) : Type 0 where
  pub node : Node
  pub braced : has_prefix (trim_space line) (codes "{") ≡ true
  pub decoded : decode (trim_space line) ≡ some node
  pub is_node : node.struct_type ≡ codes "node"
  pub below : node.path ≢ path
  pub entry : e ≡ entry_of_node node

-- The first entries that the lines show, at most so many.
pub data Picks (decode : Text → Option Node) (path : Text)
    : ℕ → List Text → List Entry → Type 0 where
  full : (lines : List Text) → Picks decode path 0 lines []
  ends : (n : ℕ) → Picks decode path (suc n) [] []
  skips :
      {n : ℕ} {line : Text} {lines : List Text} {es : List Entry}
      → ((e : Entry) → ¬ Shown decode path line e)
      → Picks decode path (suc n) lines es
      → Picks decode path (suc n) (line ∷ lines) es
  picks :
      {n : ℕ} {line : Text} {lines : List Text} {e : Entry} {es : List Entry}
      → Shown decode path line e
      → Picks decode path n lines es
      → Picks decode path (suc n) (line ∷ lines) (e ∷ es)

line_entry-Shown :
    (decode : Text → Option Node) (path line : Text) (e : Entry)
    → line_entry decode path line ≡ some e
    → Shown decode path line e
unfolding line_entry
line_entry-Shown decode path line e h =
    elim (Bool-cases (has_prefix (trim_space line) (codes "{"))) [
      | inr n ↦ absurd (ground arith)
      | inl y ↦ elim (Option-cases (decode (trim_space line))) [
        | inl d ↦ absurd (ground arith)
        | inr (node, d) ↦ elim (Bool-cases (same node.struct_type (codes "node"))) [
          | inr n ↦ absurd (ground arith)
          | inl k ↦ elim (Bool-cases (same node.path path)) [
            | inl n ↦ absurd (ground arith)
            | inr p ↦ record {
              node = node;
              braced = y;
              decoded = d;
              is_node = (same_iff node.struct_type (codes "node")).0 k;
              below = λ q. ground (arith, same_iff node.path path);
              entry = ground arith;
            }
          ]
        ]
      ]
    ]

Shown-line_entry :
    (decode : Text → Option Node) (path line : Text) (e : Entry)
    → Shown decode path line e
    → line_entry decode path line ≡ some e
unfolding line_entry
Shown-line_entry decode path line e v =
    let k = (same_iff v.node.struct_type (codes "node")).1 v.is_node in
    let p : same v.node.path path ≡ false = ground (arith, v.below, same_iff v.node.path path) in
    rw (line_entry, v.braced, v.decoded, k, p) (ap some (sym v.entry))

entries_from-Picks :
    (decode : Text → Option Node) (n : ℕ) (path : Text) (lines : List Text)
    → Picks decode path n lines (entries_from decode n path lines)
unfolding entries_from
entries_from-Picks decode zero path lines = full lines
entries_from-Picks decode (suc n) path [] = ends n
entries_from-Picks decode (suc n) path (line ∷ lines) =
    elim (Option-cases (line_entry decode path line)) [
      | inl e ↦
          rw (entries_from, e)
            (skips (λ x v. cc (e, Shown-line_entry decode path line x v))
              (entries_from-Picks decode (suc n) path lines))
      | inr (x, e) ↦
          rw (entries_from, e)
            (picks (line_entry-Shown decode path line x e) (entries_from-Picks decode n path lines))
    ]

-- The entries are in order and are, but for the order, the first 1000 that the lines show.
pub record Lists (decode : Text → Option Node) (path out : Text) (l : Listing) : Type 0 where
  pub shown : l.path ≡ path
  pub sorted : IsSorted l.entries
  pub picked : List Entry
  pub found : Picks decode path 1000 (split 10 out) picked
  pub same_entries : Perm l.entries picked

pub listing_of-Lists :
    (decode : Text → Option Node) (path out : Text)
    → Lists decode path out (listing_of decode path out)
unfolding listing_of
listing_of-Lists decode path out = record {
  shown = refl;
  sorted = sort_slice-IsSorted (entries_from decode max_entries path (split 10 out));
  picked = entries_from decode max_entries path (split 10 out);
  found = entries_from-Picks decode max_entries path (split 10 out);
  same_entries = sort_slice-perm (entries_from decode max_entries path (split 10 out));
}

-- No rune of a valid snapshot id is 0.
no_zero : (s : Text) → all is_hex s ≡ true → elem 0 s ≡ false
unfolding elem
no_zero [] h = refl
no_zero (c ∷ s) h = ground (arith, no_zero s)

pub valid_snap_id-no_zero : (s : Text) → valid_snap_id s ≡ true → elem 0 s ≡ false
unfolding valid_snap_id
valid_snap_id-no_zero s h = elim (Bool-cases (same s (codes "latest"))) [
  | inl y ↦
      subst (λ t. elem 0 t ≡ false) (sym ((same_iff s (codes "latest")).0 y)) (unfold elem in refl)
  | inr n ↦ no_zero s (ground arith)
]

pub cache_key_injective :
    (s s' p p' : Text)
    → elem 0 s ≡ false
    → elem 0 s' ≡ false
    → cache_key s p ≡ cache_key s' p'
    → (s ≡ s') × (p ≡ p')
unfolding elem
cache_key_injective [] [] p p' h h' e = (refl, cc e)
cache_key_injective [] (d ∷ s') p p' h h' e = absurd (ground arith)
cache_key_injective (c ∷ s) [] p p' h h' e = absurd (ground arith)
cache_key_injective (c ∷ s) (d ∷ s') p p' h h' e =
    let (a, b) = cache_key_injective s s' p p' (ground arith) (ground arith) (cc e) in
    (cc (e, a), b)
