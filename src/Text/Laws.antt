-- ===== src/Text/Laws.antt =====
-- The text tests, related to equations on lists.
use oracle_backup.Base.{
  ℕ, true, ◌≡◌, ◌||◌, refl, ap, ◌↔◌, inl, inr, [], ◌∷◌, ◌++◌, arith, ◌==◌, ==_iff, both, either,
}
use oracle_backup.Text.Defs.{Text, same, has_prefix, contains, elem}

pub same_refl : (s : Text) → same s s ≡ true
unfolding same
same_refl [] = refl
same_refl (c ∷ s) = ground (arith, same_refl s)

pub same_sound : (s t : Text) → same s t ≡ true → s ≡ t
unfolding same
same_sound [] [] h = refl
same_sound [] (b ∷ t) h = cc
same_sound (a ∷ s) [] h = cc
same_sound (a ∷ s) (b ∷ t) h = ground (arith, same_sound s t)

pub same_iff : (s t : Text) → (same s t ≡ true) ↔ (s ≡ t)
same_iff s t = (same_sound s t, λ e. rw (← e) (same_refl s))

pub has_prefix-append : (p s : Text) → has_prefix (p ++ s) p ≡ true
unfolding has_prefix
has_prefix-append [] s = refl
has_prefix-append (c ∷ p) s = ground (arith, has_prefix-append p s)

pub has_prefix_sound : (s p : Text) → has_prefix s p ≡ true → (rest : Text) × (s ≡ p ++ rest)
unfolding has_prefix
has_prefix_sound s [] h = (s, refl)
has_prefix_sound [] (p ∷ ps) h = cc
has_prefix_sound (c ∷ s) (p ∷ ps) h =
    let (hc, hs) = both (c == p) _ h in
    let (rest, e) = has_prefix_sound s ps hs in (rest, ground (arith, ==_iff c p))

pub contains_here : (s sub : Text) → has_prefix s sub ≡ true → contains s sub ≡ true
unfolding contains
contains_here [] sub h = h
contains_here (c ∷ s) sub h = rw h

pub contains-append : (pre sub post : Text) → contains (pre ++ (sub ++ post)) sub ≡ true
unfolding contains
contains-append [] sub post = contains_here (sub ++ post) sub (has_prefix-append sub post)
contains-append (c ∷ pre) sub post = ground (arith, contains-append pre sub post)

pub contains_sound :
    (s sub : Text) → contains s sub ≡ true → (pre post : Text) × (s ≡ pre ++ (sub ++ post))
unfolding contains
contains_sound [] sub h = let (rest, e) = has_prefix_sound [] sub h in ([], rest, e)
contains_sound (c ∷ s) sub h = elim (either _ _ h) [
  | inl here ↦ let (rest, e) = has_prefix_sound (c ∷ s) sub here in ([], rest, e)
  | inr there ↦ let (pre, post, e) = contains_sound s sub there in (c ∷ pre, post, ap (◌∷◌ c) e)
]

pub elem_here : (c : ℕ) (s : Text) → elem c (c ∷ s) ≡ true
unfolding elem
elem_here c s = ground arith

pub elem-append : (c : ℕ) (pre post : Text) → elem c (pre ++ c ∷ post) ≡ true
unfolding elem
elem-append c [] post = ground arith
elem-append c (d ∷ pre) post = ground (arith, elem-append c pre post)

pub elem-of-append : (c : ℕ) (s t : Text) → elem c (s ++ t) ≡ (elem c s || elem c t)
unfolding elem
elem-of-append c [] t = refl
elem-of-append c (d ∷ s) t = ground (arith, elem-of-append c s t)
