-- ===== src/Text/Masked.antt =====
-- What `Redact` leaves of a text.
use oracle_backup.Base.{
  ℕ, zero, suc, ◌+◌, ◌<◌, ◌≡◌, inl, inr, refl, sym, ap, subst, ◌∙◌, [], ◌∷◌, ◌++◌, append_assoc,
  none, some, arith, Option-cases, drop, length, length-append,
}
use oracle_backup.Text.Defs.{Text}
use oracle_backup.Text.Redact.{match_cred, mask, redact_from, redact}
use oracle_backup.Text.Matches.{
  cred, IsCred, HasCred, drop-append, match_cred-cred, match_cred_sound,
}

-- What masking makes of a text, read from the left.
pub data Redacts : Text → Text → Type 0 where
  done : Redacts [] []
  kept : (c : ℕ) {s t : Text} → ¬ HasCred (c ∷ s) → Redacts s t → Redacts (c ∷ s) (c ∷ t)
  masked :
      (g user pass : Text) {post t : Text}
      → IsCred g user pass
      → Redacts post t
      → Redacts (cred g user pass post) (g ++ (mask ++ t))

redact_from-drop : (n : ℕ) (s : Text) → redact_from n s ≡ redact_from 0 (drop n s)
unfolding redact_from
redact_from-drop zero s = refl
redact_from-drop (suc n) [] = refl
redact_from-drop (suc n) (c ∷ s) = redact_from-drop n s

-- A credential without what follows.
abbrev front : Text → Text → Text → Text
front g user pass = g ++ (user ++ (b':' ∷ (pass ++ b'@' ∷ [])))

front-append : (g user pass post : Text) → front g user pass ++ post ≡ cred g user pass post
front-append g user pass post =
    append_assoc g (user ++ (b':' ∷ (pass ++ b'@' ∷ []))) post
    ∙ ap (λ q. g ++ q) (append_assoc user (b':' ∷ (pass ++ b'@' ∷ [])) post)
    ∙ ap (λ q. g ++ (user ++ (b':' ∷ q))) (append_assoc pass (b'@' ∷ []) post)

length-front :
    (g user pass : Text)
    → length (front g user pass) ≡ length g + suc (length user) + suc (length pass)
length-front g user pass = omega (
  arith,
  length-append g (user ++ (b':' ∷ (pass ++ b'@' ∷ []))),
  length-append user (b':' ∷ (pass ++ b'@' ∷ [])),
  length-append pass (b'@' ∷ []),
)

drop-cred :
    (g user pass post : Text)
    → drop (length g + suc (length user) + suc (length pass)) (cred g user pass post) ≡ post
drop-cred g user pass post =
    rw (← length-front g user pass, ← front-append g user pass post)
      (drop-append (front g user pass) post)

length-cred : (g user pass post : Text) → length post < length (cred g user pass post)
length-cred g user pass post =
    rw (← front-append g user pass post)
      (omega (arith, length-append (front g user pass) post, length-front g user pass))

no_match :
    (c : ℕ) (s : Text) → match_cred (c ∷ s) ≡ none → redact_from 0 (c ∷ s) ≡ c ∷ redact_from 0 s
unfolding redact_from
no_match c s e = rw (redact_from, e) refl

one_match :
    (c : ℕ) (s g : Text) (n : ℕ)
    → match_cred (c ∷ s) ≡ some (g, suc n)
    → redact_from 0 (c ∷ s) ≡ g ++ (mask ++ redact_from n s)
unfolding redact_from
one_match c s g n e = rw (redact_from, e) refl

no_cred : (s : Text) → match_cred s ≡ none → ¬ HasCred s
no_cred s e (g, user, pass, post, is, s_is) =
    cc (e, ap match_cred s_is, match_cred-cred g user pass post is)

Redacts-masked :
    (c : ℕ) (s g user pass post : Text) (n : ℕ)
    → match_cred (c ∷ s) ≡ some (g, n)
    → IsCred g user pass
    → c ∷ s ≡ cred g user pass post
    → n ≡ length g + suc (length user) + suc (length pass)
    → Redacts post (redact_from 0 post)
    → Redacts (c ∷ s) (redact_from 0 (c ∷ s))
Redacts-masked c s g user pass post zero e is s_is n_is r = absurd (omega (arith, n_is))
Redacts-masked c s g user pass post (suc n) e is s_is n_is r =
    subst (λ t. Redacts (c ∷ s) t)
      (sym (
        one_match c s g n e
        ∙ ap (λ t. g ++ (mask ++ t)) (redact_from-drop n s ∙ ap (redact_from 0) behind)))
      (subst (λ t. Redacts t (g ++ (mask ++ redact_from 0 post))) (sym s_is)
        (masked g user pass is r))
  where
    behind : drop n s ≡ post
    behind =
        ap (drop (suc n)) s_is
        ∙ ap (λ m. drop m (cred g user pass post)) n_is
        ∙ drop-cred g user pass post

Redacts_below : (k : ℕ) (s : Text) → length s < k → Redacts s (redact_from 0 s)
Redacts_below zero s h = absurd (omega arith)
Redacts_below (suc k) [] h = unfold redact_from in done
Redacts_below (suc k) (c ∷ s) h = elim (Option-cases (match_cred (c ∷ s))) [
  | inl e ↦ rw (no_match c s e) (kept c (no_cred (c ∷ s) e) (Redacts_below k s (omega arith)))
  | inr ((g, n), e) ↦
      let (user, pass, post, is, s_is, n_is) = match_cred_sound (c ∷ s) g n e in
      Redacts-masked c s g user pass post n e is s_is n_is
        (Redacts_below k post (omega (arith, length-cred g user pass post, ap length s_is)))
]

-- Masking does to every text what reading it from the left says: where a credential of a rest: URL
-- begins (one of the two schemes, a user without `:`, `@` and `/`, a colon, a password without `@` and
-- `/`, and `@`), the scheme and the mask are written and the reading goes on behind it; every other
-- rune is kept.
pub redact-Redacts : (s : Text) → Redacts s (redact s)
unfolding redact
redact-Redacts s = Redacts_below (suc (length s)) s (omega arith)
