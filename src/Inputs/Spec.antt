-- ===== src/Inputs/Spec.antt =====
-- What the checks mean, said without the code's tests.
use oracle_backup.Base.{
  ℕ, ◌≤◌, Bool, true, false, not, ◌≡◌, ◌≢◌, ◌↔◌, inl, inr, refl, ap, List, [], ◌∷◌, ◌++◌, arith,
  all, All, Bool-cases, both,
}
use oracle_backup.Text.{
  Text, codes, has_prefix, has_prefix_sound, has_prefix-append, contains, contains_sound,
  contains-append, is_control,
}

-- The text starts with a slash.
abbrev pub Rooted : Text → Type 0
Rooted s = (rest : Text) × (s ≡ codes "/" ++ rest)

-- ".." occurs nowhere in the text.
abbrev pub NoDotDot : Text → Type 0
NoDotDot s = (pre post : Text) → s ≢ pre ++ (codes ".." ++ post)

abbrev pub Printable : ℕ → Type 0
Printable c = (0x20 ≤ c) × (c ≢ 0x7f)

pub has_prefix_iff : (s p : Text) → (has_prefix s p ≡ true) ↔ ((rest : Text) × (s ≡ p ++ rest))
has_prefix_iff s p = (has_prefix_sound s p, λ w. rw w.1 (has_prefix-append p w.0))

pub contains_iff : (s : Text) → (contains s (codes "..") ≡ false) ↔ NoDotDot s
contains_iff s = (to, from)
  where
    to : contains s (codes "..") ≡ false → NoDotDot s
    to h pre post e =
        cc (h, contains-append pre (codes "..") post, ap (λ t. contains t (codes "..")) e)

    from : NoDotDot s → contains s (codes "..") ≡ false
    from h = elim (Bool-cases (contains s (codes ".."))) [
      | inr n ↦ n
      | inl y ↦ let (pre, post, e) = contains_sound s (codes "..") y in absurd (h pre post e)
    ]

-- A loop that returns at the first element that fails the test.
pub all_iff {ℓ κ} :
    {A : Type ℓ} (p : A → Bool) (P : A → Type κ)
    → ((x : A) → (p x ≡ true) ↔ P x)
    → (xs : List A) → (all p xs ≡ true) ↔ All P xs
all_iff p P h [] = (λ e. tt, λ e. refl)
all_iff p P h (x ∷ xs) = (
  λ e. let (here, there) = both (p x) (all p xs) e in ((h x).0 here, (all_iff p P h xs).0 there),
  λ e. rw ((h x).1 e.0) ((all_iff p P h xs).1 e.1),
)

pub Printable-iff : (c : ℕ) → (not (is_control c) ≡ true) ↔ Printable c
Printable-iff c = ground arith
