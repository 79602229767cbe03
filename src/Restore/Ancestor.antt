-- ===== src/Restore/Ancestor.antt =====
-- What the loop of `safeRestoreTarget` finds.
use oracle_backup.Base.{
  ℕ, zero, suc, ◌<◌, Bool, true, ◌≡◌, refl, List, [], ◌∷◌, some, arith, All, length, if◌then◌else◌,
}
use oracle_backup.Text.{
  Text, codes, same_refl, has_prefix, clean, at, elements, elements-IsElement, clean-at, IsElement,
  dir-at, dir_root, at_apart, length-at,
}
use oracle_backup.Restore.Target.{ancestor}

-- The clean rooted path with the given elements and all above it, up to the root.
unfoldable pub ancestors : List Text → List Text
ancestors [] = at [] ∷ []
ancestors (p ∷ st) = at (p ∷ st) ∷ ancestors st

-- The first path of the list that exists; the last of the list where none does.
unfoldable pub first_existing : (Text → Bool) → List Text → Text
first_existing stat [] = []
first_existing stat (p ∷ []) = p
first_existing stat (p ∷ q ∷ ps) = if stat p then p else first_existing stat (q ∷ ps)

first_existing-ancestors :
    (stat : Text → Bool) (p : Text) (st : List Text)
    → first_existing stat (ancestors (p ∷ st))
      ≡ (if stat (at (p ∷ st)) then at (p ∷ st) else first_existing stat (ancestors st))
unfolding first_existing ancestors
first_existing-ancestors stat p [] = refl
first_existing-ancestors stat p (q ∷ st) = refl

ancestor-at :
    (stat : Text → Bool) (fuel : ℕ) (st : List Text)
    → All IsElement st
    → length st < fuel
    → ancestor fuel stat (at st) ≡ some (first_existing stat (ancestors st))
unfolding ancestor
ancestor-at stat zero st a h = absurd (omega arith)
ancestor-at stat (suc fuel) [] a h =
    rw (dir_root, same_refl (at [])) (unfold first_existing ancestors in ground arith)
ancestor-at stat (suc fuel) (p ∷ st) a h =
    rw
      (
        dir-at p st a.0 a.1,
        at_apart p st a.0,
        ancestor-at stat fuel st a.1 (omega arith),
        first_existing-ancestors stat p st,
      )
      (ground arith)

length_le-at : (st : List Text) → All IsElement st → length st < length (at st)
length_le-at [] a = unfold at in omega arith
length_le-at (p ∷ st) a = omega (arith, length-at p st a.0, length_le-at st a.1)

-- For a rooted path that is clean, as many rounds as it has runes and one more are enough, whatever
-- exists: the loop returns the first of the path, its directory, the directory of that and so on that
-- exists, and the root where none of them does.
pub ancestor-clean :
    (stat : Text → Bool) (path : Text)
    → has_prefix path (codes "/") ≡ true
    → ancestor (suc (length (clean path))) stat (clean path)
      ≡ some (first_existing stat (ancestors (elements path)))
ancestor-clean stat path h =
    let a = elements-IsElement path in
    rw (clean-at path h) (
      ancestor-at stat (suc (length (at (elements path)))) (elements path) a
        (omega (arith, length_le-at (elements path) a)))
