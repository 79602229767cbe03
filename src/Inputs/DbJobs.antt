-- ===== src/Inputs/DbJobs.antt =====
-- The jobs that back databases up: the list that the interface saves.
use Prim.Native.String.{String}
use oracle_backup.Base.{
  Bool, true, false, not, ◌&&◌, ◌||◌, List, [], ◌∷◌, Option, none, some, leb, all, length,
  if◌then◌else◌,
}
use oracle_backup.Text.{Text, codes, same, has_prefix, contains, is_control, is_ident}

pub record DbJob : Type 0 where
  pub name : Text
  pub type : Text
  pub container : Text
  pub path : Text  -- the field `Data`
  pub enabled : Bool

pub data JobError : Type 0 where
  bad_name bad_type bad_container bad_path control_rune twice : JobError

-- `^[A-Za-z0-9_.-]{1,64}$`
unfoldable pub is_job_name : Text → Bool
unfolding is_ident
is_job_name s = leb 1 (length s) && leb (length s) 64 && all is_ident s

abbrev pub db_job_types : List Text
db_job_types =
    codes "postgres" ∷ codes "mongodb" ∷ codes "redis" ∷ codes "mysql" ∷ codes "mariadb" ∷ []

-- Membership of a key in a Go map to Bool.
unfoldable pub has_key : List Text → Text → Bool
has_key [] t = false
has_key (k ∷ ks) t = same k t || has_key ks t

abbrev pub job : String → String → DbJob
job name path = record {
  name = codes name;
  type = codes name;
  container = codes name;
  path = codes path;
  enabled = true;
}

unfoldable pub default_db_jobs : List DbJob
default_db_jobs =
    job "postgres" "/home/docker/postgres/data"
    ∷ job "mongodb" "/home/docker/mongodb"
    ∷ job "redis" "/home/docker/redis"
    ∷ []

-- The check of `Data`, where it is not empty.
unfoldable pub valid_data : Text → Option JobError
unfolding has_prefix contains
valid_data p =
    if not (has_prefix p (codes "/")) || contains p (codes "..")
    then some bad_path
    else if all (λ r. not (is_control r)) p
    then none
    else some control_rune

-- `validDBJob`; `none` is the nil error.
unfoldable pub valid_db_job : DbJob → Option JobError
valid_db_job j =
    if not (is_job_name j.name)
    then some bad_name
    else if not (has_key db_job_types j.type)
    then some bad_type
    else if not (is_job_name j.container)
    then some bad_container
    else if same j.path []
    then none
    else valid_data j.path

-- What follows the check of one job.
abbrev pub next_job : Option JobError → Bool → Option JobError → Option JobError
next_job (some e) repeated rest = some e
next_job none true rest = some twice
next_job none false rest = rest

-- The loop of `validDBJobs`, with the names seen so far.
unfoldable pub valid_db_jobs_from : List Text → List DbJob → Option JobError
valid_db_jobs_from seen [] = none
valid_db_jobs_from seen (j ∷ js) =
    next_job (valid_db_job j) (has_key seen j.name) (valid_db_jobs_from (j.name ∷ seen) js)

unfoldable pub valid_db_jobs : List DbJob → Option JobError
unfolding valid_db_jobs_from
valid_db_jobs jobs = valid_db_jobs_from [] jobs
