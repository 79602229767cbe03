-- ===== src/Server/Schedule.antt =====
-- `reload`, `schedulerEnabled` and `nextRun` of main.go. `is_cron` says whether cron takes a schedule,
-- and `first_next` when the first of its entries comes next, `none` for the zero time of a schedule that
-- never comes.
use oracle_backup.Base.{
  Bool, true, false, not, ◌&&◌, ◌≡◌, ◌≢◌, ◌⊎◌, List, [], ◌∷◌, ◌++◌, Option, none, some,
  if◌then◌else◌,
}
use oracle_backup.Text.{Text, same}
use oracle_backup.Config.Load.{Config}

-- The jobs with their schedules.
pub data Job : Type 0 where
  backup check : Text → Job

-- `schedNext`, `none` for the zero time, and the entries of the running cron.
pub record Scheduler : Type 0 where
  pub next : Option Text
  pub entries : List Job

module _ (is_cron : Text → Bool) (first_next : Job → List Job → Option Text) where
  -- `AddFunc`, whose error is only logged.
  abbrev pub added : (Text → Job) → Text → List Job
  added job spec = if is_cron spec then job spec ∷ [] else []

  abbrev pub checks : Config → List Job
  checks c = if not (same c.check_schedule []) then added check c.check_schedule else []

  -- The entries of the new cron.
  unfoldable pub jobs_of : Config → List Job
  jobs_of c = added backup c.backup_schedule ++ checks c

  -- Without an entry, `schedNext` stays what it was.
  abbrev pub next_of : List Job → Option Text → Option Text
  next_of [] old = old
  next_of (j ∷ js) old = first_next j js

  -- The configuration is `none` where it does not load.
  unfoldable pub reload : Option Config → Scheduler → Scheduler
  reload none s = record { next = none; entries = [] }
  reload (some c) s =
      if c.scheduler_on && not (same c.backup_schedule [])
      then record { next = next_of (jobs_of c) s.next; entries = jobs_of c }
      else record { next = none; entries = [] }

abbrev pub is_set : Option Text → Bool
is_set none = false
is_set (some t) = true

unfoldable pub scheduler_enabled : Scheduler → Bool
scheduler_enabled s = is_set s.next

-- What the configuration plans: it is on and has a schedule of backups.
abbrev pub Plans : Config → Type 0
Plans c = (c.scheduler_on ≡ true) × (c.backup_schedule ≢ [])

-- Cron takes one of the schedules.
abbrev pub Takes : (Text → Bool) → Config → Type 0
Takes is_cron c =
    (is_cron c.backup_schedule ≡ true)
    ⊎ ((c.check_schedule ≢ []) × (is_cron c.check_schedule ≡ true))

-- The time that cron gives for the first of its entries is set.
abbrev pub Comes : (Text → Bool) → (Job → List Job → Option Text) → Config → Type 0
Comes is_cron first_next c =
    is_set (next_of is_cron first_next (jobs_of is_cron first_next c) none) ≡ true
