-- ===== src/Rclone/Allowed.antt =====
-- Which commands the web command line lets through.
use oracle_backup.Base.{
  true, false, ◌≡◌, ◌≢◌, ◌⊎◌, inl, inr, refl, ap, sym, subst, ◌∙◌, List, [], ◌∷◌, ◌++◌, arith, All,
  Bool-cases,
}
use oracle_backup.Text.{Text, codes, same, same_iff}
use oracle_backup.Inputs.DbJobs.{has_key}
use oracle_backup.Rclone.Cli.{
  cli_allowed, is_flag, first_word, config_word, is_interactive, runs, judge,
}

-- The word stands behind nothing but flags.
abbrev pub LeadsWith : List Text → Text → Type 0
LeadsWith as' sub =
    (flags rest : List Text) × (as' ≡ flags ++ sub ∷ rest)
    × All (λ a. is_flag a ≡ true) flags
    × (is_flag sub ≡ false)

first_word_flag :
    (a : Text) (as' : List Text) → is_flag a ≡ true → first_word (a ∷ as') ≡ first_word as'
unfolding first_word
first_word_flag a as' y = rw y refl

first_word_word : (a : Text) (as' : List Text) → is_flag a ≡ false → first_word (a ∷ as') ≡ a
unfolding first_word
first_word_word a as' n = rw n refl

no_word : first_word [] ≡ []
unfolding first_word
no_word = refl

first_word_cases :
    (as' : List Text)
    → ((first_word as' ≡ []) × All (λ a. is_flag a ≡ true) as') ⊎ LeadsWith as' (first_word as')
first_word_cases [] = inl (no_word, tt)
first_word_cases (a ∷ as') = elim (Bool-cases (is_flag a)) [
  | inr n ↦
      inr
        (subst (λ w. LeadsWith (a ∷ as') w) (sym (first_word_word a as' n)) ([], as', refl, tt, n))
  | inl y ↦ elim (first_word_cases as') [
    | inl (e, all_flags) ↦ inl (first_word_flag a as' y ∙ e, (y, all_flags))
    | inr (flags, rest, e, h, n) ↦ inr (
        subst (λ w. LeadsWith (a ∷ as') w) (sym (first_word_flag a as' y))
          (a ∷ flags, rest, ap (◌∷◌ a) e, (y, h), n))
  ]
]

empty_not_allowed : has_key cli_allowed [] ≡ false
unfolding has_key same
empty_not_allowed = refl

judge_parts :
    (a : Text) (as' : List Text) (sub : Text)
    → judge (a ∷ as') ≡ runs sub
    → (first_word (a ∷ as') ≡ sub)
      × (has_key cli_allowed sub ≡ true)
      × ((sub ≢ codes "config") ⊎ (is_interactive (config_word false (a ∷ as')) ≡ false))
unfolding judge
judge_parts a as' sub h = ground (arith, same_iff sub (codes "config"))

no_empty : {w : Text} → w ≡ [] → has_key cli_allowed w ≢ true
no_empty e k = cc (k, ap (has_key cli_allowed) e, empty_not_allowed)

allowed_leads :
    (as' : List Text) → has_key cli_allowed (first_word as') ≡ true → LeadsWith as' (first_word as')
allowed_leads as' k = elim (first_word_cases as') [ inl (e, _) ↦ absurd (no_empty e k) | inr w ↦ w ]

-- A command is run only if its first argument that is no flag is one of the fifteen allowed
-- subcommands, and is the subcommand that the audit names; and where that is config, only if the
-- word behind it starts no wizard: there is one, and it is neither edit nor reconnect.
pub judge_runs :
    (as' : List Text) (sub : Text)
    → judge as' ≡ runs sub
    → LeadsWith as' sub
      × (has_key cli_allowed sub ≡ true)
      × ((sub ≢ codes "config") ⊎ (is_interactive (config_word false as') ≡ false))
unfolding judge
judge_runs [] sub h = cc
judge_runs (a ∷ as') sub h =
    let (e, k, r) = judge_parts a as' sub h in
    (
      subst (λ w. LeadsWith (a ∷ as') w) e
          (allowed_leads (a ∷ as') (ap (has_key cli_allowed) e ∙ k)),
      k,
      r,
    )
