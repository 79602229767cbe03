-- ===== src/Text/Trim.antt =====
-- What trimming on the right takes away.
use oracle_backup.Base.{
  ℕ, Bool, true, ◌≡◌, refl, ap, [], ◌∷◌, ◌++◌, arith, All, Bool-cases, inl, inr,
}
use oracle_backup.Text.Defs.{Text, trim_right, keep_left}

module _ (drop : ℕ → Bool) where
  -- The runes that are taken away are all to be dropped.
  pub trim_right-append :
      (s : Text) → (tail : Text) × (s ≡ trim_right drop s ++ tail) × All (λ c. drop c ≡ true) tail
  unfolding trim_right
  trim_right-append [] = ([], refl, tt)
  trim_right-append (c ∷ s) =
      let (tail, e, a) = trim_right-append s in go (trim_right drop s) tail e a
    where
      go :
          (t tail : Text)
          → s ≡ t ++ tail
          → All (λ d. drop d ≡ true) tail
          → (tail' : Text) × (c ∷ s ≡ keep_left drop c t ++ tail') × All (λ d. drop d ≡ true) tail'
      go [] tail e a = elim (Bool-cases (drop c)) [
        | inl y ↦ (c ∷ s, rw y, (y, rw e a))
        | inr n ↦ (tail, rw n (ap (◌∷◌ c) e), a)
      ]
      go (d ∷ t) tail e a = (tail, ap (◌∷◌ c) e, a)

  trim_right_dropped : (s : Text) → All (λ c. drop c ≡ true) s → trim_right drop s ≡ []
  unfolding trim_right
  trim_right_dropped [] a = refl
  trim_right_dropped (c ∷ s) a = ground (arith, trim_right_dropped s a.1)

  -- Runes to be dropped, behind a text, change nothing.
  pub trim_right_of_append :
      (s tail : Text)
      → All (λ c. drop c ≡ true) tail
      → trim_right drop (s ++ tail) ≡ trim_right drop s
  unfolding trim_right
  trim_right_of_append [] tail a = trim_right_dropped tail a
  trim_right_of_append (c ∷ s) tail a = ap (keep_left drop c) (trim_right_of_append s tail a)
