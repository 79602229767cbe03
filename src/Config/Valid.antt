-- ===== src/Config/Valid.antt =====
-- What `Validate` accepts.
use oracle_backup.Base.{
  ℕ, ◌≤◌, Bool, true, false, ◌||◌, ◌≡◌, ◌↔◌, ◌⊎◌, inl, inr, refl, [], none, arith, all, either,
}
use oracle_backup.Base.Int.{ℤ, pos, negsuc, ltb_ℤ}
use oracle_backup.Text.{Text, same, same_iff, is_ident}
use oracle_backup.Config.Load.{Config}
use oracle_backup.Config.Save.{validate, first_bad_name}

-- The number stands between two natural ones.
abbrev pub Between : ℕ → ℕ → ℤ → Type 0
Between low high z = (n : ℕ) × (z ≡ pos n) × (low ≤ n) × (n ≤ high)

pub record IsConfig (is_cron : Text → Bool) (c : Config) : Type 0 where
  pub kept : Between 1 3650 c.keep_daily
  pub limited : Between 0 10000000 c.upload_limit
  pub free : (n : ℕ) × (c.min_free_mb ≡ pos n)
  pub backups : is_cron c.backup_schedule ≡ true
  pub checks : (c.check_schedule ≡ []) ⊎ (is_cron c.check_schedule ≡ true)
  pub pg : all is_ident c.pg_container ≡ true
  pub mongo : all is_ident c.mongo_container ≡ true
  pub redis : all is_ident c.redis_container ≡ true

abbrev outside : ℕ → ℕ → ℤ → Bool
outside low high z = ltb_ℤ z (pos low) || ltb_ℤ (pos high) z

Between_iff : (low high : ℕ) (z : ℤ) → (outside low high z ≡ false) ↔ Between low high z
Between_iff low high (pos n) =
    (λ h. (n, refl, grind arith, grind arith), λ (m, e, l, u). grind arith)
Between_iff low high (negsuc n) = (λ h. grind arith, λ (m, e, l, u). cc e)

Natural_iff : (z : ℤ) → (ltb_ℤ z (pos 0) ≡ false) ↔ ((n : ℕ) × (z ≡ pos n))
Natural_iff (pos n) = (λ h. (n, refl), λ w. grind arith)
Natural_iff (negsuc n) = (λ h. grind arith, λ (m, e). cc e)

-- The tests of `validate`, in its order.
record Tests (is_cron : Text → Bool) (c : Config) : Type 0 where
  keep : outside 1 3650 c.keep_daily ≡ false
  limit : outside 0 10000000 c.upload_limit ≡ false
  room : ltb_ℤ c.min_free_mb (pos 0) ≡ false
  backup : is_cron c.backup_schedule ≡ true
  check : (same c.check_schedule [] || is_cron c.check_schedule) ≡ true
  pg : all is_ident c.pg_container ≡ true
  mongo : all is_ident c.mongo_container ≡ true
  redis : all is_ident c.redis_container ≡ true

validate-Tests : (is_cron : Text → Bool) (c : Config) → validate is_cron c ≡ none → Tests is_cron c
unfolding validate first_bad_name
validate-Tests is_cron c h = record {
  keep = ground arith;
  limit = ground arith;
  room = ground arith;
  backup = ground arith;
  check = ground arith;
  pg = ground arith;
  mongo = ground arith;
  redis = ground arith;
}

Tests-validate : (is_cron : Text → Bool) (c : Config) → Tests is_cron c → validate is_cron c ≡ none
unfolding validate first_bad_name
Tests-validate is_cron c t =
    ground (arith, t.keep, t.limit, t.room, t.backup, t.check, t.pg, t.mongo, t.redis)

-- A configuration is accepted exactly if 1 to 3650 days are kept, the upload limit is between 0 and
-- ten million, the free space is not negative, the backup schedule parses, the check schedule is
-- empty or parses, and every container name is made of letters, digits, `_`, `.` and `-`.
pub validate_iff :
    (is_cron : Text → Bool) (c : Config) → (validate is_cron c ≡ none) ↔ IsConfig is_cron c
validate_iff is_cron c = (to, from)
  where
    to : validate is_cron c ≡ none → IsConfig is_cron c
    to h =
        let t = validate-Tests is_cron c h in
        record {
          kept = (Between_iff 1 3650 c.keep_daily).0 t.keep;
          limited = (Between_iff 0 10000000 c.upload_limit).0 t.limit;
          free = (Natural_iff c.min_free_mb).0 t.room;
          backups = t.backup;
          checks = elim (either (same c.check_schedule []) _ t.check) [
            | inl y ↦ inl ((same_iff c.check_schedule []).0 y)
            | inr y ↦ inr y
          ];
          pg = t.pg;
          mongo = t.mongo;
          redis = t.redis;
        }

    skipped :
        (c.check_schedule ≡ []) ⊎ (is_cron c.check_schedule ≡ true)
        → (same c.check_schedule [] || is_cron c.check_schedule) ≡ true
    skipped (inl e) = ground (arith, (same_iff c.check_schedule []).1 e)
    skipped (inr y) = ground arith

    from : IsConfig is_cron c → validate is_cron c ≡ none
    from v = Tests-validate is_cron c (record {
      keep = (Between_iff 1 3650 c.keep_daily).1 v.kept;
      limit = (Between_iff 0 10000000 c.upload_limit).1 v.limited;
      room = (Natural_iff c.min_free_mb).1 v.free;
      backup = v.backups;
      check = skipped v.checks;
      pg = v.pg;
      mongo = v.mongo;
      redis = v.redis;
    })
