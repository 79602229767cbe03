-- ===== src/Web/Sorted.antt =====
-- The order of a listing.
use oracle_backup.Base.{
  true, false, ◌≡◌, inl, inr, refl, List, [], ◌∷◌, arith, Bool-cases, All, ◌≢◌, ◌↔◌, ◌⊎◌,
}
use mathlib.Core.List.{Perm}
use mathlib.Core.List.Perm
use oracle_backup.Text.{Text, codes, same_iff}
use oracle_backup.Web.Request.{Entry}
use oracle_backup.Web.Listings.{before, less, insert, sort_slice}

before_trans : (a b c : Text) → before b a ≡ false → before c b ≡ false → before c a ≡ false
unfolding before
before_trans [] b c h k = refl
before_trans (x ∷ a) [] c h k = absurd (ground arith)
before_trans (x ∷ a) (y ∷ b) [] h k = absurd (ground arith)
before_trans (x ∷ a) (y ∷ b) (z ∷ c) h k = ground (arith, before_trans a b c)

before_asym : (a b : Text) → before a b ≡ true → before b a ≡ false
unfolding before
before_asym [] [] h = absurd (ground arith)
before_asym [] (y ∷ b) h = refl
before_asym (x ∷ a) [] h = absurd (ground arith)
before_asym (x ∷ a) (y ∷ b) h = ground (arith, before_asym a b)

less_trans : (a b c : Entry) → less b a ≡ false → less c b ≡ false → less c a ≡ false
unfolding less
less_trans a b c h k = ground (arith, before_trans a.name b.name c.name)

less_asym : (a b : Entry) → less a b ≡ true → less b a ≡ false
unfolding less
less_asym a b h = ground (arith, before_asym a.name b.name)

-- No entry belongs in front of an earlier one, as the code compares them.
abbrev Unbroken : List Entry → Type 0
Unbroken [] = Unit
Unbroken (e ∷ es) = All (λ f. less f e ≡ false) es × Unbroken es

insert-perm : (e : Entry) (es : List Entry) → Perm (insert less e es) (e ∷ es)
unfolding insert
insert-perm e [] = Perm.rfl
insert-perm e (f ∷ fs) = elim (Bool-cases (less f e)) [
  | inl y ↦ rw (insert, y) (Perm.trans (Perm.cons f (insert-perm e fs)) (Perm.swap e f fs))
  | inr n ↦ rw (insert, n) Perm.rfl
]

pub sort_slice-perm : (es : List Entry) → Perm (sort_slice less es) es
unfolding sort_slice
sort_slice-perm [] = Perm.rfl
sort_slice-perm (e ∷ es) =
    Perm.trans (insert-perm e (sort_slice less es)) (Perm.cons e (sort_slice-perm es))

All-insert :
    (P : Entry → Type 0) (e : Entry) (es : List Entry) → P e → All P es → All P (insert less e es)
unfolding insert
All-insert P e [] p h = (p, tt)
All-insert P e (f ∷ fs) p (q, h) = elim (Bool-cases (less f e)) [
  | inl y ↦ rw (insert, y) (q, All-insert P e fs p h)
  | inr n ↦ rw (insert, n) (p, (q, h))
]

All-imp : {P Q : Entry → Type 0} (es : List Entry) → ((e : Entry) → P e → Q e) → All P es → All Q es
All-imp [] f h = tt
All-imp (e ∷ es) f (p, h) = (f e p, All-imp es f h)

insert-Unbroken : (e : Entry) (es : List Entry) → Unbroken es → Unbroken (insert less e es)
unfolding insert
insert-Unbroken e [] h = (tt, tt)
insert-Unbroken e (f ∷ fs) (b, h) = elim (Bool-cases (less f e)) [
  | inl y ↦ rw (insert, y) (All-insert _ e fs (less_asym f e y) b, insert-Unbroken e fs h)
  | inr n ↦ rw (insert, n) ((n, All-imp fs (λ g. less_trans e f g n) b), (b, h))
]

sort_slice-Unbroken : (es : List Entry) → Unbroken (sort_slice less es)
unfolding sort_slice
sort_slice-Unbroken [] = tt
sort_slice-Unbroken (e ∷ es) = insert-Unbroken e (sort_slice less es) (sort_slice-Unbroken es)

-- One entry may stand in front of another: it is a directory and the other is none, or both are or
-- none is and the other's name does not come before its own.
abbrev pub InOrder : Entry → Entry → Type 0
InOrder e f =
    ((e.type ≡ codes "dir") × (f.type ≢ codes "dir"))
    ⊎ (((e.type ≡ codes "dir") ↔ (f.type ≡ codes "dir")) × (before f.name e.name ≡ false))

less-InOrder : (e f : Entry) → less f e ≡ false → InOrder e f
unfolding less
less-InOrder e f h = ground (arith, same_iff e.type (codes "dir"), same_iff f.type (codes "dir"))

-- Every entry may stand in front of all later ones.
abbrev pub IsSorted : List Entry → Type 0
IsSorted [] = Unit
IsSorted (e ∷ es) = All (InOrder e) es × IsSorted es

Unbroken-IsSorted : (es : List Entry) → Unbroken es → IsSorted es
Unbroken-IsSorted [] h = tt
Unbroken-IsSorted (e ∷ es) (b, h) = (All-imp es (less-InOrder e) b, Unbroken-IsSorted es h)

pub sort_slice-IsSorted : (es : List Entry) → IsSorted (sort_slice less es)
sort_slice-IsSorted es = Unbroken-IsSorted (sort_slice less es) (sort_slice-Unbroken es)
