-- ===== src/Migrate/Rules.antt =====
-- The stages of `run`, each with what it keeps, and the rule for a postcondition of the whole.
use oracle_backup.Base.{
  ℕ, Bool, true, false, ◌≡◌, ◌≢◌, refl, List, [], ◌∷◌, Option, none, some, arith, if◌then◌else◌,
}
use oracle_backup.Text.{Text}
use oracle_backup.Migrate.Remote.{Mode, adopt, move, migrate_mode}
use oracle_backup.Migrate.Status.{
  Phase, done, Effect, copied, purged, World, set_phase, set_stats, set_mode,
}
use oracle_backup.Migrate.Job.{
  counted, Answers, M, bind, ◌>>=◌, ◌>>◌, phase, count_or_zero, place, ok, all_stats, choose_mode,
  copy_and_verify, transfer, switch_over, clean_up, run,
}

-- The files, the environment and the effects of two worlds agree.
pub record Untouched (w w' : World) : Type 0 where
  pub name_file : w'.name_file ≡ w.name_file
  pub path_file : w'.path_file ≡ w.path_file
  pub remote_name : w'.remote_name ≡ w.remote_name
  pub repository : w'.repository ≡ w.repository

module _ (clock : ℕ → ℕ) where
  all_stats-Untouched :
      (lines : List Text) (w : World)
      → Untouched w (all_stats clock lines w) × ((all_stats clock lines w).effects ≡ w.effects)
  unfolding all_stats set_stats
  all_stats-Untouched [] w =
      (record { name_file = refl; path_file = refl; remote_name = refl; repository = refl }, refl)
  all_stats-Untouched ([] ∷ lines) w = all_stats-Untouched lines w
  all_stats-Untouched ((c ∷ line) ∷ lines) w =
      ground (arith, all_stats-Untouched lines (set_stats clock (c ∷ line) w))

bind_cases :
    {A B : Type 0} (Q : Option B × World → Type 0) (f : A → M B) (p : Option A × World)
    → ((w : World) → p ≡ (none, w) → Q (none, w))
    → ((x : A) (w : World) → p ≡ (some x, w) → Q (f x w))
    → Q (bind f p)
bind_cases Q f (none, w) stopped went = stopped w refl
bind_cases Q f (some x, w) stopped went = went x w refl

-- A postcondition of a sequence, from its two ways to end.
bind_rule :
    {A B : Type 0} (Q : Option B × World → Type 0) (m : M A) (f : A → M B) (w : World)
    → ((w' : World) → m w ≡ (none, w') → Q (none, w'))
    → ((x : A) (w' : World) → m w ≡ (some x, w') → Q (f x w'))
    → Q ((m >>= f) w)
bind_rule Q m f w = bind_cases Q f (m w)

-- Some purge took effect.
unfoldable pub has_purge : List Effect → Bool
has_purge [] = false
has_purge (purged t ∷ es) = true
has_purge (e ∷ es) = has_purge es

module _ (clock : ℕ → ℕ) (a : Answers) (from_remote from_path to_remote to_path : Text) where
  -- The source was copied, and the copy verified.
  pub record Verified : Type 0 where
    pub connected : a.connected ≡ true
    pub fresh : a.to_exists ≡ false
    pub present : a.from_exists ≡ true
    pub no_error : a.copy_error ≡ none
    pub opens : a.to_opens ≡ true
    pub counts : a.new_count ≡ counted (count_or_zero a.old_count)

  -- What the world looks like before the lines of rclone are read, when the mode is `move`.
  abbrev copying : World → World
  copying w = set_phase clock Phase.copy (set_mode clock move (set_phase clock Phase.preflight w))

  choose_mode_lem :
      (w : World)
      → let (r, w') = choose_mode clock a from_remote from_path to_remote to_path w in
        Untouched w w'
        × (w'.effects ≡ w.effects)
        × (r ≡ some move → (a.connected ≡ true) × (a.to_exists ≡ false))
  unfolding choose_mode migrate_mode
  choose_mode_lem w = ground arith

  copy_and_verify_lem :
      (w : World)
      → let (r, w') = copy_and_verify clock a from_remote from_path to_remote to_path w in
        Untouched w w'
        × (r ≢ some false)
        × (r ≡ none → has_purge w'.effects ≡ has_purge w.effects)
        × (r ≡ some true
            → (a.copy_error ≡ none)
              × (a.to_opens ≡ true)
              × (a.new_count ≡ counted (count_or_zero a.old_count))
              × (w'.effects
                  ≡ copied (place from_remote from_path) (place to_remote to_path) ∷ w.effects))
  unfolding copy_and_verify has_purge
  copy_and_verify_lem w =
      ground (arith, all_stats-Untouched clock a.copy_lines (set_phase clock Phase.copy w))

  -- The part of `run` behind the transfer.
  abbrev pub rest : Bool → M (Unit {0})
  rest moved =
      switch_over clock a from_remote from_path to_remote to_path
      >> (clean_up clock a from_remote from_path to_remote to_path moved
          >> phase clock a from_remote from_path to_remote to_path done)

  abbrev transfers : Mode → M Bool
  transfers = transfer clock a from_remote from_path to_remote to_path

  abbrev modes : M Mode
  modes = choose_mode clock a from_remote from_path to_remote to_path

  abbrev copies : M Bool
  copies = copy_and_verify clock a from_remote from_path to_remote to_path

  -- The ways from a world to the last part of `run`.
  pub record Ways (Q : Option (Unit {0}) × World → Type 0) (w : World) : Type 0 where
    pub no_mode : (w' : World) → Untouched w w' → w'.effects ≡ w.effects → Q (none, w')
    pub skipped : (w' : World) → Untouched w w' → w'.effects ≡ w.effects → Q (rest false w')
    pub unverified :
        (w' : World) → Untouched w w' → has_purge w'.effects ≡ has_purge w.effects → Q (none, w')
    pub verified :
        (w' : World)
        → Untouched w w'
        → Verified
        → w'.effects ≡ copied (place from_remote from_path) (place to_remote to_path) ∷ w.effects
        → Q (rest true w')

  pub Untouched-trans : (u v w : World) → Untouched u v → Untouched v w → Untouched u w
  Untouched-trans u v w h k = ground arith

  copies_rule :
      (Q : Option (Unit {0}) × World → Type 0) (w w₁ : World)
      → Ways Q w
      → Untouched w w₁
      → w₁.effects ≡ w.effects
      → a.connected ≡ true
      → a.to_exists ≡ false
      → a.from_exists ≡ true
      → Q ((copies >>= rest) w₁)
  copies_rule Q w w₁ ways u eff c t f =
      bind_rule Q copies rest w₁
        (λ w₂ e.
          let (k, _, same, _) = rw e at (copy_and_verify_lem w₁) in
          ways.unverified w₂ (Untouched-trans w w₁ w₂ u k) (ground arith))
        λ moved w₂ e. ends moved w₂ (rw e at (copy_and_verify_lem w₁))
    where
      ends :
          (moved : Bool) (w₂ : World)
          → Untouched w₁ w₂
            × (some moved ≢ some false)
            × (some moved ≡ none → has_purge w₂.effects ≡ has_purge w₁.effects)
            × (some moved ≡ some true
                → (a.copy_error ≡ none)
                  × (a.to_opens ≡ true)
                  × (a.new_count ≡ counted (count_or_zero a.old_count))
                  × (w₂.effects
                      ≡ copied (place from_remote from_path) (place to_remote to_path)
                        ∷ w₁.effects))
          → Q (rest moved w₂)
      ends false w₂ (_, never, _, _) = absurd (never refl)
      ends true w₂ (k, _, _, good) =
          let (ce, op, cs, ef) = good refl in
          ways.verified w₂ (Untouched-trans w w₁ w₂ u k)
            (record {
              connected = c;
              fresh = t;
              present = f;
              no_error = ce;
              opens = op;
              counts = cs;
            })
            (ground arith)

  transfer_rule :
      (Q : Option (Unit {0}) × World → Type 0) (w w₁ : World) (m : Mode)
      → Ways Q w
      → Untouched w w₁
      → w₁.effects ≡ w.effects
      → (some m ≡ some move → (a.connected ≡ true) × (a.to_exists ≡ false))
      → Q ((transfers m >>= rest) w₁)
  unfolding transfer
  transfer_rule Q w w₁ adopt ways u eff fresh = ways.skipped w₁ u eff
  transfer_rule Q w w₁ move ways u eff fresh = go a.from_exists refl
    where
      go : (b : Bool) → a.from_exists ≡ b → Q (((if b then copies else ok false) >>= rest) w₁)
      go true y = copies_rule Q w w₁ ways u eff (fresh refl).0 (fresh refl).1 y
      go false n = ways.skipped w₁ u eff

  -- A postcondition of `run`: it holds where the mode is not found or the copy is not verified, and
  -- of the switch with nothing copied and with a verified copy.
  pub run_rule :
      (Q : Option (Unit {0}) × World → Type 0) (w : World)
      → Ways Q w
      → Q (run clock a from_remote from_path to_remote to_path w)
  unfolding run
  run_rule Q w ways =
      bind_rule Q modes (λ m. transfers m >>= rest) w
        (λ w₁ e. let (u, eff, _) = rw e at (choose_mode_lem w) in ways.no_mode w₁ u eff)
        λ m w₁ e.
          let (u, eff, fresh) = rw e at (choose_mode_lem w) in
          transfer_rule Q w w₁ m ways u eff fresh
