-- ===== src/Inputs/ValidJobs.antt =====
-- `validDBJobs` decides what a valid list of jobs is.
use oracle_backup.Base.{
  ◌≤◌, Bool, true, false, not, ◌≡◌, ◌≢◌, ◌↔◌, ◌⊎◌, inl, inr, refl, List, [], ◌∷◌, Option, none,
  some, arith, All, length, Bool-cases,
}
use oracle_backup.Text.{Text, codes, same, same_iff, is_control, is_ident}
use oracle_backup.Inputs.Spec.{
  Rooted, NoDotDot, Printable, has_prefix_iff, contains_iff, all_iff, Printable-iff,
}
use oracle_backup.Inputs.DbJobs.{
  DbJob, JobError, is_job_name, db_job_types, has_key, valid_data, valid_db_job, next_job,
  valid_db_jobs_from, valid_db_jobs,
}

-- A job or container name: 1 to 64 letters, digits, `_`, `.` or `-`.
pub record IsName (s : Text) : Type 0 where
  pub some_rune : 1 ≤ length s
  pub short : length s ≤ 64
  pub runes : All (λ c. is_ident c ≡ true) s

abbrev pub IsType : Text → Type 0
IsType t =
    (t ≡ codes "postgres")
    ⊎ ((t ≡ codes "mongodb")
        ⊎ ((t ≡ codes "redis") ⊎ ((t ≡ codes "mysql") ⊎ (t ≡ codes "mariadb"))))

-- What `validDBJob` promises of a job.
pub record IsJob (j : DbJob) : Type 0 where
  pub name : IsName j.name
  pub type : IsType j.type
  pub container : IsName j.container
  pub path : (j.path ≡ []) ⊎ (Rooted j.path × NoDotDot j.path × All Printable j.path)

-- No two jobs have one name, and none has a name of the list.
abbrev pub Distinct : List Text → List DbJob → Type 0
Distinct seen [] = Unit {0}
Distinct seen (j ∷ js) = All (λ n. n ≢ j.name) seen × Distinct (j.name ∷ seen) js

is_job_name_iff : (s : Text) → (is_job_name s ≡ true) ↔ IsName s
unfolding is_job_name
is_job_name_iff s =
    let runes = all_iff is_ident (λ c. is_ident c ≡ true) (λ c. (λ h. h, λ h. h)) s in
    (
      λ h. record {
        some_rune = ground arith;
        short = ground arith;
        runes = runes.0 (ground arith);
      },
      λ n. ground (arith, runes.1 n.runes),
    )

has_key-IsType_iff : (t : Text) → (has_key db_job_types t ≡ true) ↔ IsType t
unfolding has_key
has_key-IsType_iff t = ground (
  arith,
  same_iff (codes "postgres") t,
  same_iff (codes "mongodb") t,
  same_iff (codes "redis") t,
  same_iff (codes "mysql") t,
  same_iff (codes "mariadb") t,
)

IsData : Text → Type 0
IsData p = Rooted p × NoDotDot p × All Printable p

valid_data_iff : (p : Text) → (valid_data p ≡ none) ↔ IsData p
unfolding valid_data IsData
valid_data_iff p =
    let runes = all_iff (λ r. not (is_control r)) Printable Printable-iff p in
    let rooted = has_prefix_iff p (codes "/") in
    let dots = contains_iff p in
    (
      λ h. (rooted.0 (ground arith), dots.0 (ground arith), runes.0 (ground arith)),
      λ (r, d, q). rw (rooted.1 r, dots.1 d, runes.1 q),
    )

valid_db_job_iff : (j : DbJob) → (valid_db_job j ≡ none) ↔ IsJob j
unfolding valid_db_job IsData
valid_db_job_iff j =
    let name = is_job_name_iff j.name in
    let type = has_key-IsType_iff j.type in
    let container = is_job_name_iff j.container in
    let path = valid_data_iff j.path in
    let empty = same_iff j.path [] in
    (
      λ h. record {
        name = name.0 (ground arith);
        type = type.0 (ground arith);
        container = container.0 (ground arith);
        path = elim (Bool-cases (same j.path [])) [
          | inl y ↦ inl (empty.0 y)
          | inr n ↦ inr (path.0 (ground arith))
        ];
      },
      λ v.
          let p : (same j.path [] ≡ true) ⊎ (valid_data j.path ≡ none) = elim v.path [
            | inl e ↦ inl (empty.1 e)
            | inr d ↦ inr (path.1 d)
          ] in
          ground (arith, name.1 v.name, type.1 v.type, container.1 v.container),
    )

has_key_iff : (seen : List Text) (t : Text) → (has_key seen t ≡ false) ↔ All (λ n. n ≢ t) seen
unfolding has_key
has_key_iff [] t = (λ h. tt, λ h. refl)
has_key_iff (k ∷ ks) t =
    let rest = has_key_iff ks t in
    let here = same_iff k t in
    (
      λ h. ((λ e. ground (arith, here.1 e)), rest.0 (ground arith)),
      λ v. ground (arith, v.0, here, rest.1 v.1),
    )

next_job_iff :
    (e : Option JobError) (repeated : Bool) (rest : Option JobError)
    → (next_job e repeated rest ≡ none) ↔ ((e ≡ none) × (repeated ≡ false) × (rest ≡ none))
next_job_iff none true rest = ground arith
next_job_iff none false rest = ground arith
next_job_iff (some e) repeated rest = ground arith

valid_db_jobs_from_iff :
    (seen : List Text) (js : List DbJob)
    → (valid_db_jobs_from seen js ≡ none) ↔ (All IsJob js × Distinct seen js)
unfolding valid_db_jobs_from
valid_db_jobs_from_iff seen [] = (λ h. (tt, tt), λ h. refl)
valid_db_jobs_from_iff seen (j ∷ js) =
    let next =
      next_job_iff (valid_db_job j) (has_key seen j.name) (valid_db_jobs_from (j.name ∷ seen) js) in
    let fresh = has_key_iff seen j.name in
    let one = valid_db_job_iff j in
    let rest = valid_db_jobs_from_iff (j.name ∷ seen) js in
    (
      λ h.
          let (a, b, c) = next.0 h in
          let (jobs, names) = rest.0 c in ((one.0 a, jobs), (fresh.0 b, names)),
      λ v. next.1 (one.1 v.0.0, fresh.1 v.1.0, rest.1 (v.0.1, v.1.1)),
    )

-- A list of jobs is accepted exactly when every job is valid (name and container are 1 to 64 letters,
-- digits, `_`, `.` or `-`; the type is one of the five; the path is empty, or starts with a slash,
-- holds no ".." and no control rune) and no two jobs have the same name.
pub valid_db_jobs_iff :
    (jobs : List DbJob) → (valid_db_jobs jobs ≡ none) ↔ (All IsJob jobs × Distinct [] jobs)
unfolding valid_db_jobs
valid_db_jobs_iff jobs = valid_db_jobs_from_iff [] jobs
