-- ===== src/Text/Ancestors.antt =====
-- The directories above a rooted path that `Clean` has made: `Dir` takes one element away.
use oracle_backup.Base.{
  ℕ, ◌<◌, ◌≤◌, true, false, ◌≡◌, refl, ap, ◌∙◌, List, [], ◌∷◌, ◌++◌, arith, All, length,
  length-append,
}
use oracle_backup.Text.Defs.{Text, same, has_prefix, split, push_front, elem}
use oracle_backup.Text.Laws.{same_iff}
use oracle_backup.Text.Split.{split_at_first}
use oracle_backup.Text.FilePath.{
  slash, join_slash, clean_part, clean_parts, reverse_onto, clean, keep_dir, up_to_slash, dir,
}
use oracle_backup.Text.Elements.{
  IsElement, elements, at, clean-at, clean_parts-elements, clean_parts-append, reverse_twice,
  reverse_onto-append, All-reverse_onto, split-join_slash, join_slash-append,
}

up_to_slash_plain : (b : Text) → elem slash b ≡ false → up_to_slash b ≡ []
unfolding up_to_slash keep_dir elem
up_to_slash_plain [] h = refl
up_to_slash_plain (c ∷ b) h = ground (arith, up_to_slash_plain b)

keep_dir-append : (c : ℕ) (a : Text) → keep_dir c (a ++ slash ∷ []) ≡ c ∷ (a ++ slash ∷ [])
unfolding keep_dir
keep_dir-append c [] = refl
keep_dir-append c (d ∷ a) = refl

up_to_slash-append :
    (a b : Text) → elem slash b ≡ false → up_to_slash (a ++ (slash ∷ b)) ≡ a ++ slash ∷ []
unfolding up_to_slash
up_to_slash-append [] b h = ap (keep_dir slash) (up_to_slash_plain b h) ∙ unfold keep_dir in refl
up_to_slash-append (c ∷ a) b h = ap (keep_dir c) (up_to_slash-append a b h) ∙ keep_dir-append c a

slash_skipped : (t : Text) → elements (slash ∷ t) ≡ clean_parts true [] (split slash t)
unfolding clean_parts clean_part same
slash_skipped t = ap (clean_parts true []) (split_at_first slash [] t (unfold elem in refl))

empty_skipped : (st : List Text) → clean_parts true st ([] ∷ []) ≡ st
unfolding clean_parts clean_part same
empty_skipped st = refl

elements-join_slash :
    (p : Text) (ps : List Text)
    → All IsElement (p ∷ ps)
    → elements (slash ∷ (join_slash (p ∷ ps) ++ slash ∷ [])) ≡ reverse_onto (p ∷ ps) []
elements-join_slash p ps a =
    slash_skipped (join_slash (p ∷ ps) ++ slash ∷ [])
    ∙ ap (clean_parts true []) (split-join_slash p ps a)
    ∙ clean_parts-append [] (p ∷ ps) ([] ∷ [])
    ∙ empty_skipped (clean_parts true [] (p ∷ ps))
    ∙ clean_parts-elements [] (p ∷ ps) a

-- Cleaning the elements with a slash behind them.
clean-join_slash :
    (p : Text) (ps : List Text)
    → All IsElement (p ∷ ps)
    → clean (slash ∷ (join_slash (p ∷ ps) ++ slash ∷ [])) ≡ slash ∷ join_slash (p ∷ ps)
clean-join_slash p ps a =
    clean-at (slash ∷ (join_slash (p ∷ ps) ++ slash ∷ [])) (unfold has_prefix in refl)
    ∙ ap at (elements-join_slash p ps a)
    ∙ unfold at in ap (λ l. slash ∷ join_slash l) (reverse_twice (p ∷ ps))

clean-slash : clean (slash ∷ []) ≡ slash ∷ []
unfolding clean clean_parts clean_part split push_front has_prefix same join_slash reverse_onto
clean-slash = refl

dir_last :
    (xs : List Text) (q : Text)
    → All IsElement xs
    → IsElement q
    → dir (slash ∷ join_slash (xs ++ q ∷ [])) ≡ slash ∷ join_slash xs
unfolding dir
dir_last [] q a e =
    ap clean (up_to_slash-append [] q (e.no_slash)) ∙ clean-slash ∙ unfold join_slash in refl
dir_last (p ∷ ps) q a e =
    ap (λ t. dir (slash ∷ t)) (join_slash-append p q ps)
    ∙ ap clean (up_to_slash-append (slash ∷ join_slash (p ∷ ps)) q (e.no_slash))
    ∙ clean-join_slash p ps a

-- The directory of a path that is not the root has one element less.
pub dir-at :
    (p : Text) (st : List Text) → IsElement p → All IsElement st → dir (at (p ∷ st)) ≡ at st
unfolding at reverse_onto
dir-at p st e a =
    ap (λ l. dir (slash ∷ join_slash l)) (reverse_onto-append st (p ∷ []))
    ∙ dir_last (reverse_onto st []) p (All-reverse_onto IsElement st [] a tt) e

pub dir_root : dir (at []) ≡ at []
unfolding at dir clean clean_parts clean_part split push_front up_to_slash keep_dir has_prefix same
    join_slash reverse_onto
dir_root = refl

pub length-at : (p : Text) (st : List Text) → IsElement p → length (at st) < length (at (p ∷ st))
unfolding at reverse_onto
length-at p st e = rw (reverse_onto-append st (p ∷ [])) (longer (reverse_onto st []))
  where
    some : 1 ≤ length p
    some = go p (e.some_rune)
      where
        go : (t : Text) → same t [] ≡ false → 1 ≤ length t
        go [] h = unfold same in cc h
        go (c ∷ t) h = omega arith

    longer :
        (xs : List Text)
        → length (slash ∷ join_slash xs) < length (slash ∷ join_slash (xs ++ p ∷ []))
    longer [] = unfold join_slash in omega (arith, some)
    longer (x ∷ xs) =
        rw (join_slash-append x p xs, length-append (join_slash (x ∷ xs)) (slash ∷ p))
          (omega (arith, some))

-- No path is its own directory but the root.
pub at_apart : (p : Text) (st : List Text) → IsElement p → same (at st) (at (p ∷ st)) ≡ false
at_apart p st e = ground (arith, same_iff (at st) (at (p ∷ st)), length-at p st e)
