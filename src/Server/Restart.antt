-- ===== src/Server/Restart.antt =====
-- What a restart keeps.
use oracle_backup.Base.{
  ℕ, ◌≤◌, ◌≡◌, ◌≢◌, ◌⊎◌, inl, inr, refl, sym, ap, ◌∙◌, subst, Bool, true, false, not, ◌&&◌, [], ◌∷◌,
  ◌++◌, Option, some, leb, length, if◌then◌else◌, arith, Bool-cases, Option-cases,
}
use oracle_backup.Text.{Text, same, same_iff, same_refl, trim_right, keep_left}
use oracle_backup.Auth.Admin.{Pick, pick_admin_hash, stored, kept, pick_admin_hash_restart}
use oracle_backup.Server.Boot.{
  Saves, KeyStart, new_key, load_session_key, trim_end, read, write_file_0600, HashStart,
  plain_password, pick, resolve_admin_hash,
}

new_key-long :
    (k : KeyStart) (key : Text) (file : Option Text)
    → 32 ≤ length k.random
    → new_key k ≡ some (key, file)
    → (32 ≤ length key) × (file ≡ some key)
new_key-long k key file l h = elim (Bool-cases k.saves.write_fails) [
  | inl y ↦ absurd (ground arith)
  | inr n ↦ elim (Bool-cases k.saves.rename_fails) [
    | inl y ↦ absurd (ground arith)
    | inr m ↦
        let e : k.random ≡ key = ground arith in (subst (λ t. 32 ≤ length t) e l, ground arith)
  ]
]

-- Without a key in the environment, the file's key is taken or a new one made.
load_cases :
    (k : KeyStart)
    → leb 32 (length k.env_key) ≡ false
    → ((b : Text) × (k.file ≡ some b) × (leb 32 (length b) ≡ true))
      ⊎ (load_session_key k ≡ new_key k)
unfolding load_session_key
load_cases k n = elim (Option-cases k.file) [
  | inl e ↦ inr (rw (load_session_key, n, e) refl)
  | inr (b, e) ↦ elim (Bool-cases (leb 32 (length b))) [
    | inl y ↦ inl (b, e, y)
    | inr m ↦ inr (rw (load_session_key, n, e, m) refl)
  ]
]

-- A key in the file that is long enough is the key of the next start.
from_file :
    (k : KeyStart) (key : Text)
    → leb 32 (length k.env_key) ≡ false
    → k.file ≡ some key
    → 32 ≤ length key
    → load_session_key k ≡ some (key, k.file)
unfolding load_session_key
from_file k key n f l =
    let m : leb 32 (length key) ≡ true = ground arith in
    rw (load_session_key, n, f, m) (ap (λ x. some (key, x)) f)

-- The server starts only with a session key of at least 32 bytes, and the next start, with the same
-- environment and the file that this one left, has the same key and leaves the same file, whatever is
-- random and whatever cannot be written by then. The random bytes are 32 or more.
pub load_session_key_restart :
    (k : KeyStart) (key : Text) (file : Option Text)
    → 32 ≤ length k.random
    → load_session_key k ≡ some (key, file)
    → (random : Text) (saves : Saves)
    → (32 ≤ length key)
      × (load_session_key (record k { file = file; random = random; saves = saves })
          ≡ some (key, file))
unfolding load_session_key
load_session_key_restart k key file l h random saves =
    elim (Bool-cases (leb 32 (length k.env_key))) [
      | inl y ↦
          let e : k.env_key ≡ key = ground arith in
          (subst (λ t. 32 ≤ length t) e (ground arith), rw (load_session_key, y) (ground arith))
      | inr n ↦ elim (load_cases k n) [
        | inl (b, f, m) ↦
            let long_b : 32 ≤ length b = ground arith in
            let same_key : some (b, k.file) ≡ some (key, file) =
              sym (from_file k b n f long_b) ∙ h in
            let e : b ≡ key = cc same_key in
            let e' : k.file ≡ file = cc same_key in
            let long : 32 ≤ length key = subst (λ t. 32 ≤ length t) e long_b in
            let here : file ≡ some key = sym e' ∙ f ∙ ap some e in
            (long, from_file _ key n here long)
        | inr e ↦
            let (long, here) = new_key-long k key file l (sym e ∙ h) in
            (long, from_file _ key n here long)
      ]
    ]

trim_right-append :
    (drop : ℕ → Bool) (s : Text) (c : ℕ)
    → drop c ≡ true
    → trim_right drop (s ++ (c ∷ [])) ≡ trim_right drop s
unfolding trim_right keep_left
trim_right-append drop [] c h = ground arith
trim_right-append drop (d ∷ s) c h = ap (keep_left drop d) (trim_right-append drop s c h)

-- A text that has no blank at its end, as `trimSpace` sees it, is read as it was written.
read-write_file_0600 :
    (saves : Saves) (file : Option Text) (t : Text)
    → saves.write_fails ≡ false
    → saves.rename_fails ≡ false
    → trim_end t ≡ t
    → read (write_file_0600 saves file t) ≡ t
unfolding read write_file_0600 trim_end
read-write_file_0600 saves file t w r e =
    rw (write_file_0600, w, r, read) (trim_right-append _ t 10 refl ∙ e)

-- What is persisted is a hash that was made.
persist-hash :
    (hash : Text → Text × Bool) (check : Text → Text → Bool) (secrets state env_pw gen : Text)
    → (pick_admin_hash hash check secrets state env_pw gen).failed ≡ false
    → ((pick_admin_hash hash check secrets state env_pw gen).persist ≡ [])
      ⊎ ((pw : Text) × ((hash pw).1 ≡ false)
          × ((pick_admin_hash hash check secrets state env_pw gen).persist ≡ (hash pw).0))
unfolding pick_admin_hash
persist-hash hash check secrets state env_pw gen f = elim (Bool-cases (same secrets [])) [
  | inr n ↦ inl (ground arith)
  | inl a ↦ elim (Bool-cases (same env_pw [])) [
    | inr b ↦ elim (Bool-cases (not (same state []) && check state env_pw)) [
      | inl c ↦ inl (ground arith)
      | inr c ↦ inr (env_pw, ground arith, ground arith)
    ]
    | inl b ↦ elim (Bool-cases (same state [])) [
      | inr c ↦ inl (ground arith)
      | inl c ↦ inr (gen, ground arith, ground arith)
    ]
  ]
]

module _ (hash : Text → Text × Bool) (check : Text → Text → Bool) where
  -- What a hash has to be, for a restart to find it again: bcrypt's are not empty, check their
  -- password and end in no blank.
  pub record IsHash : Type 0 where
    pub nonempty : (pw : Text) → (hash pw).1 ≡ false → (hash pw).0 ≢ []
    pub checks : (pw : Text) → (hash pw).1 ≡ false → check (hash pw).0 pw ≡ true
    pub tight : (pw : Text) → (hash pw).1 ≡ false → trim_end (hash pw).0 ≡ (hash pw).0

  resolve_lem :
      (h : HashStart)
      → (pick hash check h).failed ≡ false
      → resolve_admin_hash hash check h ≡ (
        (pick hash check h).use_hash,
        if not (same (pick hash check h).persist [])
            then write_file_0600 h.saves h.state_file (pick hash check h).persist
            else h.state_file,
      )
  unfolding resolve_admin_hash
  resolve_lem h f = ground arith

  resolve_kept :
      (h : HashStart) (u : Text)
      → pick hash check h ≡ kept hash check u
      → resolve_admin_hash hash check h ≡ (u, h.state_file)
  resolve_kept h u e =
      resolve_lem h (ap Pick.failed e)
      ∙ ap
          (λ (p : Pick). (
            p.use_hash,
            if not (same p.persist [])
                then write_file_0600 h.saves h.state_file p.persist
                else h.state_file,
          ))
          e
      ∙ rw (same_refl []) refl

  -- What the start reads of the state file that it left.
  read-stored :
      (h : HashStart)
      → IsHash
      → (pick hash check h).failed ≡ false
      → h.saves.write_fails ≡ false
      → h.saves.rename_fails ≡ false
      → read (resolve_admin_hash hash check h).1
        ≡ stored hash check (pick hash check h) (read h.state_file)
  read-stored h b f w r = elim (Bool-cases (same (pick hash check h).persist [])) [
    | inl y ↦ rw (resolve_lem h f, y) refl
    | inr n ↦
        elim (persist-hash hash check (read h.secrets_file) (read h.state_file) (plain_password h)
          h.random f) [
            | inl e ↦ absurd (ground (arith, same_iff (pick hash check h).persist []))
            | inr (pw, ok, e) ↦
                let tight : trim_end (pick hash check h).persist ≡ (pick hash check h).persist =
                  subst (λ t. trim_end t ≡ t) (sym e) (b.tight pw ok) in
                rw (resolve_lem h f, n)
                  (read-write_file_0600 h.saves h.state_file (pick hash check h).persist w r tight)
          ]
  ]

-- A restart keeps the admin hash, and with it the password and every session: the next start, with
-- the same secrets file and the same password of the environment and the state file that this start
-- left, uses the same hash and leaves the state file as it is, whatever is random and whatever cannot
-- be written by then. This start must have made its hash and written it; a hash that is made is not
-- empty, is one of its password and ends in no blank.
pub resolve_admin_hash_restart :
    (hash : Text → Text × Bool) (check : Text → Text → Bool) (h : HashStart)
    → IsHash hash check
    → (pick hash check h).failed ≡ false
    → h.saves.write_fails ≡ false
    → h.saves.rename_fails ≡ false
    → (random : Text) (saves : Saves)
    → let (used, file) = resolve_admin_hash hash check h in
      resolve_admin_hash hash check (record h { state_file = file; random = random; saves = saves })
      ≡ (used, file)
unfolding plain_password
resolve_admin_hash_restart hash check h b f w r random saves =
    let file = (resolve_admin_hash hash check h).1 in
    let h' : HashStart = record h { state_file = file; random = random; saves = saves } in
    let same_pick : pick hash check h' ≡ kept hash check (pick hash check h).use_hash =
      ap (λ t. pick_admin_hash hash check (read h.secrets_file) t (plain_password h) random)
        (read-stored hash check h b f w r)
      ∙ pick_admin_hash_restart hash check (read h.secrets_file) (read h.state_file)
          (plain_password h) h.random random b.nonempty b.checks f in
    resolve_kept hash check h' (pick hash check h).use_hash same_pick
    ∙ ap (λ u. (u, file)) (sym (ap (λ x. x.0) (resolve_lem hash check h f)))
