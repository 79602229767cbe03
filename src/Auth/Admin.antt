-- ===== src/Auth/Admin.antt =====
-- The admin password: which hash is used, and what is persisted. bcrypt and the random bytes are
-- parameters.
use oracle_backup.Base.{
  ℕ, suc, zero, ◌%◌, ◌<◌, Bool, true, false, not, ◌&&◌, ◌≡◌, ◌≢◌, refl, List, [], ◌∷◌,
  if◌then◌else◌, length, All, get_or, arith, ap,
}
use oracle_backup.Text.{Text, codes, same, same_refl, same_iff, elem}

-- The alphabet of `randPassword`.
abbrev pub alphabet : Text
alphabet = codes "ABCDEFGHJKLMNPQRSTUVWXYZabcdefghijkmnopqrstuvwxyz23456789"

-- `randPassword`, from the random bytes; one rune for each.
unfoldable pub rand_password : List ℕ → Text
rand_password [] = []
rand_password (b ∷ bs) = get_or alphabet (b % length alphabet) 0 ∷ rand_password bs

-- The four results of `pickAdminHash`.
pub record Pick : Type 0 where
  pub use_hash : Text
  pub persist : Text
  pub generated : Text
  pub failed : Bool

-- `hash` is `hashPassword`: the hash, and whether there was an error. `check` is `checkPassword`.
module _ (hash : Text → Text × Bool) (check : Text → Text → Bool) where
  abbrev pub derived : Text → Text → Pick
  derived pw generated =
      let (h, failed) = hash pw in
      record { use_hash = h; persist = h; generated = generated; failed = failed }

  abbrev pub kept : Text → Pick
  kept h = record { use_hash = h; persist = []; generated = []; failed = false }

  unfoldable pub pick_admin_hash : Text → Text → Text → Text → Pick
  pick_admin_hash secrets_hash state_hash env_pw gen =
      if not (same secrets_hash [])
      then kept secrets_hash
      else if not (same env_pw [])
      then (if not (same state_hash []) && check state_hash env_pw
          then kept state_hash
          else derived env_pw [])
      else if not (same state_hash [])
      then kept state_hash
      else derived gen gen

  -- The text of the state file after the choice.
  abbrev pub stored : Pick → Text → Text
  stored p state_hash = if same p.persist [] then state_hash else p.persist

  -- A restart keeps the hash, and with it every session: with the same secrets file and the same
  -- environment, and the state file as the first start left it, the second start uses the hash that
  -- the first one used, persists nothing and generates nothing. The first start must not have failed to
  -- hash; a hash that is made is not empty, and its password checks against it.
  pub pick_admin_hash_restart :
      (secrets_hash state_hash env_pw gen gen' : Text)
      → ((pw : Text) → (hash pw).1 ≡ false → (hash pw).0 ≢ [])
      → ((pw : Text) → (hash pw).1 ≡ false → check (hash pw).0 pw ≡ true)
      → (pick_admin_hash secrets_hash state_hash env_pw gen).failed ≡ false
      → let p = pick_admin_hash secrets_hash state_hash env_pw gen in
        let p' = pick_admin_hash secrets_hash (stored p state_hash) env_pw gen' in
        p' ≡ kept p.use_hash
  unfolding pick_admin_hash
  pick_admin_hash_restart secrets_hash state_hash env_pw gen gen' nonempty checks fine = ground (
    arith,
    nonempty env_pw,
    nonempty gen,
    checks env_pw,
    same_iff (hash env_pw).0 [],
    same_iff (hash gen).0 [],
    same_refl [],
  )

  -- A plaintext password in the environment is never bypassed by an older persisted hash: when no
  -- secrets file is given and the environment names a password, the hash in use is one that this
  -- password checks against. Hashing must not have failed, and a password checks against its own
  -- hash.
  pub pick_admin_hash_env :
      (state_hash env_pw gen : Text)
      → env_pw ≢ []
      → ((pw : Text) → (hash pw).1 ≡ false → check (hash pw).0 pw ≡ true)
      → (pick_admin_hash [] state_hash env_pw gen).failed ≡ false
      → check (pick_admin_hash [] state_hash env_pw gen).use_hash env_pw ≡ true
  unfolding pick_admin_hash
  pick_admin_hash_env state_hash env_pw gen h checks fine =
      ground (arith, checks env_pw, same_iff env_pw [], same_refl [])

get_or-elem : (s : Text) (i : ℕ) → i < length s → elem (get_or s i 0) s ≡ true
unfolding elem
get_or-elem [] i h = absurd (omega arith)
get_or-elem (c ∷ s) zero h = ground arith
get_or-elem (c ∷ s) (suc i) h = ground (arith, get_or-elem s i)

-- A generated password has one rune for each random byte, and each is of the alphabet.
pub rand_password_lem :
    (bs : List ℕ)
    → (length (rand_password bs) ≡ length bs) × All (λ c. elem c alphabet ≡ true) (rand_password bs)
unfolding rand_password
rand_password_lem [] = (refl, tt)
rand_password_lem (b ∷ bs) =
    let (same_length, letters) = rand_password_lem bs in
    (ap suc same_length, (get_or-elem alphabet (b % length alphabet) (omega arith), letters))
