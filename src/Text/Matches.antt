-- ===== src/Text/Matches.antt =====
-- A credential of a rest: URL, and where the matcher of `Redact` finds one.
use oracle_backup.Base.{
  ℕ, zero, suc, ◌+◌, ◌≤◌, true, false, ◌≡◌, ◌⊎◌, inl, inr, refl, sym, ap, subst, ◌∙◌, [], ◌∷◌, ◌++◌,
  Option, some, arith, ◌==◌, ==_iff, All, Bool-cases, Option-cases, drop, length,
}
use oracle_backup.Text.Defs.{Text, codes, has_prefix, elem}
use oracle_backup.Text.Laws.{has_prefix_sound}
use oracle_backup.Text.Redact.{scheme, span_to, match_cred}

-- At least one rune, and none of the stops.
pub record IsWord (stops w : Text) : Type 0 where
  pub some_rune : 1 ≤ length w
  pub plain : All (λ c. elem c stops ≡ false) w

-- What a span has read.
abbrev Spans : Text → ℕ → ℕ → Text → ℕ → Text → Type 0
Spans stops end taken s n t =
    (w : Text) × (s ≡ w ++ (end ∷ t))
    × All (λ c. elem c stops ≡ false) w
    × (n ≡ suc (taken + length w))
    × (1 ≤ taken + length w)

span_to_ended :
    (stops : Text) (end c taken : ℕ) (s : Text) (n : ℕ) (t : Text)
    → (c == end) ≡ true
    → span_to stops end taken (c ∷ s) ≡ some (n, t)
    → Spans stops end taken (c ∷ s) n t
unfolding span_to
span_to_ended stops end c zero s n t y h = absurd (ground arith)
span_to_ended stops end c (suc m) s n t y h = ([], ground arith, tt, ground arith, omega arith)

span_to_sound :
    (stops : Text) (end taken : ℕ) (s : Text) (n : ℕ) (t : Text)
    → span_to stops end taken s ≡ some (n, t)
    → Spans stops end taken s n t
unfolding span_to
span_to_sound stops end taken [] n t h = cc h
span_to_sound stops end taken (c ∷ s) n t h = elim (Bool-cases (c == end)) [
  | inl y ↦ span_to_ended stops end c taken s n t y h
  | inr n₁ ↦ elim (Bool-cases (elem c stops)) [
    | inl y ↦ absurd (ground arith)
    | inr n₂ ↦
        let (w, e, a, k, l) = span_to_sound stops end (suc taken) s n t (ground arith) in
        (c ∷ w, ap (◌∷◌ c) e, (n₂, a), omega (arith, k), omega (arith, l))
  ]
]

span_to-append :
    (stops : Text) (end taken : ℕ) (w t : Text)
    → elem end stops ≡ true
    → All (λ c. elem c stops ≡ false) w
    → 1 ≤ taken + length w
    → span_to stops end taken (w ++ (end ∷ t)) ≡ some (suc (taken + length w), t)
unfolding span_to
span_to-append stops end zero [] t h a l = absurd (omega arith)
span_to-append stops end (suc taken) [] t h a l = ground arith
span_to-append stops end taken (c ∷ w) t h a l =
    ground (arith, a.0, ==_iff c end, span_to-append stops end (suc taken) w t h a.1)

abbrev pub IsScheme : Text → Type 0
IsScheme g = (g ≡ codes "rest:http://") ⊎ (g ≡ codes "rest:https://")

-- A scheme, a user, a password and what follows.
abbrev pub cred : Text → Text → Text → Text → Text
cred g user pass post = g ++ (user ++ (b':' ∷ (pass ++ (b'@' ∷ post))))

pub record IsCred (g user pass : Text) : Type 0 where
  pub is_scheme : IsScheme g
  pub is_user : IsWord (codes ":@/") user
  pub is_pass : IsWord (codes "@/") pass

-- The text begins with a credential.
abbrev pub HasCred : Text → Type 0
HasCred s = (g user pass post : Text) × IsCred g user pass × (s ≡ cred g user pass post)

scheme_sound : (s g : Text) → scheme s ≡ some g → IsScheme g × ((rest : Text) × (s ≡ g ++ rest))
unfolding scheme
scheme_sound s g h = elim (Bool-cases (has_prefix s (codes "rest:http://"))) [
  | inl y ↦
      let e = g_is (codes "rest:http://") (ground arith) in
      (
        inl (sym e),
        subst (λ q. (rest : Text) × (s ≡ q ++ rest)) e
            (has_prefix_sound s (codes "rest:http://") y),
      )
  | inr n ↦ elim (Bool-cases (has_prefix s (codes "rest:https://"))) [
    | inl y ↦
        let e = g_is (codes "rest:https://") (ground arith) in
        (
          inr (sym e),
          subst (λ q. (rest : Text) × (s ≡ q ++ rest)) e
              (has_prefix_sound s (codes "rest:https://") y),
        )
    | inr m ↦ absurd (ground arith)
  ]
]
  where
    g_is : (q : Text) → some q ≡ some g → q ≡ g
    g_is q e = cc e

scheme-append : (g rest : Text) → IsScheme g → scheme (g ++ rest) ≡ some g
scheme-append g rest (inl e) = rw e (unfold scheme has_prefix in refl)
scheme-append g rest (inr e) = rw e (unfold scheme has_prefix in refl)

pub drop-append : (g rest : Text) → drop (length g) (g ++ rest) ≡ rest
drop-append [] rest = refl
drop-append (c ∷ g) rest = drop-append g rest

pub match_cred-cred :
    (g user pass post : Text)
    → IsCred g user pass
    → match_cred (cred g user pass post)
      ≡ some (g, length g + suc (length user) + suc (length pass))
unfolding match_cred
match_cred-cred g user pass post c =
    rw
      (
        match_cred,
        scheme-append g (user ++ (b':' ∷ (pass ++ (b'@' ∷ post)))) c.is_scheme,
        drop-append g (user ++ (b':' ∷ (pass ++ (b'@' ∷ post)))),
        span_to-append (codes ":@/") b':' 0 user (pass ++ (b'@' ∷ post)) (unfold elem in refl)
            c.is_user.plain (omega (arith, c.is_user.some_rune)),
        span_to-append (codes "@/") b'@' 0 pass post (unfold elem in refl) c.is_pass.plain
            (omega (arith, c.is_pass.some_rune)),
      )
      (ap (λ l. some (g, l)) (omega arith))

-- A match is a credential, and its length ends behind it.
abbrev Matched : Text → Text → ℕ → Type 0
Matched s g n =
    (user pass post : Text) × IsCred g user pass
    × (s ≡ cred g user pass post)
    × (n ≡ length g + suc (length user) + suc (length pass))

pub match_cred_sound : (s g : Text) (n : ℕ) → match_cred s ≡ some (g, n) → Matched s g n
unfolding match_cred
match_cred_sound s g n h = elim (Option-cases (scheme s)) [
  | inl e ↦ absurd (ground arith)
  | inr (g₀, e₀) ↦
      let (is, (rest, s_is)) = scheme_sound s g₀ e₀ in
      let d = ap (drop (length g₀)) s_is ∙ drop-append g₀ rest in
      elim (Option-cases (span_to (codes ":@/") b':' 0 rest)) [
        | inl e ↦ absurd (ground arith)
        | inr ((k, t), e₁) ↦ elim (Option-cases (span_to (codes "@/") b'@' 0 t)) [
          | inl e ↦ absurd (ground arith)
          | inr ((l, u), e₂) ↦
              let (user, rest_is, plain₁, k_is, some₁) =
                span_to_sound (codes ":@/") b':' 0 rest k t e₁ in
              let (pass, t_is, plain₂, l_is, some₂) = span_to_sound (codes "@/") b'@' 0 t l u e₂ in
              subst (λ q. Matched s q n) (same_scheme g₀ (length g₀ + k + l) (ground arith))
                (
                  user,
                  pass,
                  u,
                  record {
                    is_scheme = is;
                    is_user = record { some_rune = omega (arith, some₁); plain = plain₁ };
                    is_pass = record { some_rune = omega (arith, some₂); plain = plain₂ };
                  },
                  s_is ∙ ap (λ q. g₀ ++ q) (rest_is ∙ ap (λ q. user ++ (b':' ∷ q)) t_is),
                  sym (same_length g₀ (length g₀ + k + l) (ground arith))
                      ∙ omega (arith, k_is, l_is),
                )
        ]
      ]
]
  where
    same_scheme :
        (g₀ : Text) (m : ℕ) → ◌≡◌ {A = Option (Text × ℕ)} (some (g₀, m)) (some (g, n)) → g₀ ≡ g
    same_scheme g₀ m e = cc e

    same_length :
        (g₀ : Text) (m : ℕ) → ◌≡◌ {A = Option (Text × ℕ)} (some (g₀, m)) (some (g, n)) → m ≡ n
    same_length g₀ m e = cc e
