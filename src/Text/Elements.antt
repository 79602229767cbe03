-- ===== src/Text/Elements.antt =====
-- Rooted paths that `Clean` has made, as stacks of their elements with the last one first.
use oracle_backup.Base.{
  ℕ, true, false, ◌≡◌, refl, ap, sym, ◌∙◌, List, [], ◌∷◌, ◌++◌, append_assoc, append-nil, arith,
  ◌==◌, All, Bool-cases, inl, inr, if◌then◌else◌,
}
use oracle_backup.Text.Defs.{Text, codes, same, has_prefix, split, push_front, elem}
use oracle_backup.Text.Split.{split_at_first}
use oracle_backup.Text.FilePath.{
  slash, join_slash, go_up, clean_part, clean_parts, reverse_onto, clean,
}

-- One element of a clean rooted path.
pub record IsElement (p : Text) : Type 0 where
  pub some_rune : same p [] ≡ false
  pub no_slash : elem slash p ≡ false
  pub no_dot : same p (codes ".") ≡ false
  pub no_dots : same p (codes "..") ≡ false

-- The elements of a rooted path, the last one first.
abbrev pub elements : Text → List Text
elements path = clean_parts true [] (split slash path)

-- The rooted path with these elements.
unfoldable pub at : List Text → Text
at st = slash ∷ join_slash (reverse_onto st [])

pub clean-at : (path : Text) → has_prefix path (codes "/") ≡ true → clean path ≡ at (elements path)
unfolding clean at
clean-at path h = rw h refl

abbrev NoSlash : Text → Type 0
NoSlash p = elem slash p ≡ false

push_front-NoSlash :
    (c : ℕ) (ps : List Text) → All NoSlash ps → (c == slash) ≡ false → All NoSlash (push_front c ps)
unfolding push_front elem
push_front-NoSlash c [] a n = (ground arith, tt)
push_front-NoSlash c (p ∷ ps) a n = (ground (arith, a.0), a.1)

split-NoSlash : (s : Text) → All NoSlash (split slash s)
unfolding split elem
split-NoSlash [] = (refl, tt)
split-NoSlash (c ∷ s) = step (split slash s) (split-NoSlash s)
  where
    step :
        (ps : List Text)
        → All NoSlash ps
        → All NoSlash (if c == slash then [] ∷ ps else push_front c ps)
    step ps a = elim (Bool-cases (c == slash)) [
      | inl y ↦ rw y (refl, a)
      | inr n ↦ rw n (push_front-NoSlash c ps a n)
    ]

clean_part-IsElement :
    (st : List Text) (p : Text)
    → All IsElement st
    → elem slash p ≡ false
    → All IsElement (clean_part true st p)
unfolding clean_part
clean_part-IsElement st p a h = elim (Bool-cases (same p [])) [
  | inl y ↦ rw y a
  | inr n₁ ↦ elim (Bool-cases (same p (codes "."))) [
    | inl y ↦ rw (n₁, y) a
    | inr n₂ ↦ elim (Bool-cases (same p (codes ".."))) [
      | inl y ↦ rw (n₁, n₂, y) (up st a)
      | inr n₃ ↦
          rw (n₁, n₂, n₃) (record { some_rune = n₁; no_slash = h; no_dot = n₂; no_dots = n₃ }, a)
    ]
  ]
]
  where
    up : (st : List Text) → All IsElement st → All IsElement (go_up true st)
    up [] a = unfold go_up in tt
    up (t ∷ st) a = unfold go_up in rw (a.0.no_dots) a.1

clean_parts-IsElement :
    (st ps : List Text) → All IsElement st → All NoSlash ps → All IsElement (clean_parts true st ps)
unfolding clean_parts
clean_parts-IsElement st [] a h = a
clean_parts-IsElement st (p ∷ ps) a h =
    clean_parts-IsElement (clean_part true st p) ps (clean_part-IsElement st p a h.0) h.1

pub elements-IsElement : (path : Text) → All IsElement (elements path)
elements-IsElement path = clean_parts-IsElement [] (split slash path) tt (split-NoSlash path)

pub clean_parts-elements :
    (st ps : List Text) → All IsElement ps → clean_parts true st ps ≡ reverse_onto ps st
unfolding clean_parts clean_part reverse_onto
clean_parts-elements st [] a = refl
clean_parts-elements st (p ∷ ps) a =
    let e = a.0 in rw (e.some_rune, e.no_dot, e.no_dots) (clean_parts-elements (p ∷ st) ps a.1)

pub clean_parts-append :
    (st ps qs : List Text)
    → clean_parts true st (ps ++ qs) ≡ clean_parts true (clean_parts true st ps) qs
unfolding clean_parts
clean_parts-append st [] qs = refl
clean_parts-append st (p ∷ ps) qs = clean_parts-append (clean_part true st p) ps qs

reverse_onto-reverse_onto :
    (xs ys zs : List Text) → reverse_onto (reverse_onto xs ys) zs ≡ reverse_onto ys (xs ++ zs)
unfolding reverse_onto
reverse_onto-reverse_onto [] ys zs = refl
reverse_onto-reverse_onto (x ∷ xs) ys zs = reverse_onto-reverse_onto xs (x ∷ ys) zs

pub reverse_twice : (xs : List Text) → reverse_onto (reverse_onto xs []) [] ≡ xs
reverse_twice xs = reverse_onto-reverse_onto xs [] [] ∙ unfold reverse_onto in append-nil xs

pub reverse_onto-append : (xs ys : List Text) → reverse_onto xs ys ≡ reverse_onto xs [] ++ ys
unfolding reverse_onto
reverse_onto-append [] ys = refl
reverse_onto-append (x ∷ xs) ys =
    reverse_onto-append xs (x ∷ ys)
    ∙ sym (append_assoc (reverse_onto xs []) (x ∷ []) ys)
    ∙ ap (λ l. l ++ ys) (sym (reverse_onto-append xs (x ∷ [])))

pub All-reverse_onto :
    (P : Text → Type 0) (xs ys : List Text) → All P xs → All P ys → All P (reverse_onto xs ys)
unfolding reverse_onto
All-reverse_onto P [] ys a b = b
All-reverse_onto P (x ∷ xs) ys a b = All-reverse_onto P xs (x ∷ ys) a.1 (a.0, b)

-- A joined list with a slash behind it.
pub split-join_slash :
    (p : Text) (ps : List Text)
    → All IsElement (p ∷ ps)
    → split slash (join_slash (p ∷ ps) ++ slash ∷ []) ≡ (p ∷ ps) ++ [] ∷ []
unfolding join_slash
split-join_slash p [] a = split_at_first slash p [] (a.0.no_slash) ∙ unfold split in refl
split-join_slash p (q ∷ ps) a =
    ap (split slash) (append_assoc p (slash ∷ join_slash (q ∷ ps)) (slash ∷ []))
    ∙ split_at_first slash p (join_slash (q ∷ ps) ++ slash ∷ []) (a.0.no_slash)
    ∙ ap (◌∷◌ p) (split-join_slash q ps a.1)

pub join_slash-append :
    (p q : Text) (ps : List Text)
    → join_slash ((p ∷ ps) ++ q ∷ []) ≡ join_slash (p ∷ ps) ++ (slash ∷ q)
unfolding join_slash
join_slash-append p q [] = refl
join_slash-append p q (r ∷ ps) =
    ap (λ t. p ++ (slash ∷ t)) (join_slash-append r q ps)
    ∙ sym (append_assoc p (slash ∷ join_slash (r ∷ ps)) (slash ∷ q))
