-- ===== src/Text/Split.antt =====
-- Splitting at a separator, and joining again.
use oracle_backup.Base.{
  ℕ, false, ◌≡◌, refl, ap, ◌∙◌, List, [], ◌∷◌, ◌++◌, arith, ◌==◌, ==_iff, if◌then◌else◌, Bool-cases,
  inl, inr,
}
use oracle_backup.Text.Defs.{Text, split, push_front, elem}

-- A text without the separator is one part.
pub split_plain : (sep : ℕ) (a : Text) → elem sep a ≡ false → split sep a ≡ a ∷ []
unfolding split elem
split_plain sep [] h = refl
split_plain sep (c ∷ a) h = ground (arith, split_plain sep a)

-- The first separator ends the first part.
pub split_at_first :
    (sep : ℕ) (a b : Text) → elem sep a ≡ false → split sep (a ++ (sep ∷ b)) ≡ a ∷ split sep b
unfolding split elem
split_at_first sep [] b h = ground arith
split_at_first sep (c ∷ a) b h = ground (arith, split_at_first sep a b)

-- The parts with the separator between them.
unfoldable pub join_with : ℕ → List Text → Text
join_with sep [] = []
join_with sep (p ∷ []) = p
join_with sep (p ∷ q ∷ ps) = p ++ (sep ∷ join_with sep (q ∷ ps))

join_with-push_front :
    (sep c : ℕ) (p : Text) (ps : List Text)
    → join_with sep (push_front c (p ∷ ps)) ≡ c ∷ join_with sep (p ∷ ps)
unfolding join_with push_front
join_with-push_front sep c p [] = refl
join_with-push_front sep c p (q ∷ ps) = refl

abbrev NonEmpty : List Text → Type 0
NonEmpty ps = (p : Text) × (rest : List Text) × (ps ≡ p ∷ rest)

split-NonEmpty : (sep : ℕ) (s : Text) → NonEmpty (split sep s)
unfolding split push_front
split-NonEmpty sep [] = ([], [], refl)
split-NonEmpty sep (c ∷ s) = elim (Bool-cases (c == sep)) [
  | inl y ↦ ([], split sep s, rw y)
  | inr n ↦ let (p, rest, e) = split-NonEmpty sep s in (c ∷ p, rest, rw (n, e))
]

pub join_with-split : (sep : ℕ) (s : Text) → join_with sep (split sep s) ≡ s
unfolding split
join_with-split sep [] = unfold join_with in refl
join_with-split sep (c ∷ s) = step (split-NonEmpty sep s) (join_with-split sep s)
  where
    step :
        NonEmpty (split sep s)
        → join_with sep (split sep s) ≡ s
        → join_with sep (if c == sep then [] ∷ split sep s else push_front c (split sep s)) ≡ c ∷ s
    step (p, rest, e) ih = elim (Bool-cases (c == sep)) [
      | inl y ↦ rw (y, e) (unfold join_with in ground (arith, ==_iff c sep))
      | inr n ↦ rw (n, e) (join_with-push_front sep c p rest ∙ ap (◌∷◌ c) (rw e at ih))
    ]
