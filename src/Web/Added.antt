-- ===== src/Web/Added.antt =====
-- When the form for a new remote calls docker, and how.
use oracle_backup.Base.{
  ◌≤◌, true, false, ◌≡◌, ◌≢◌, ◌⊎◌, List, [], ◌∷◌, none, some, all, All, length,
}
use oracle_backup.Text.{Text, codes, contains_any, is_ident}
use oracle_backup.Inputs.DbJobs.{has_key}
use oracle_backup.Runner.Calls.{ran_docker}
use oracle_backup.Rclone.Engine.{Docker, bad, good, engine_env, create_cmd}
use oracle_backup.Web.Request.{Request, Env, Site, audited}
use oracle_backup.Web.Remotes.{rclone_backend, AddBody}

-- A parameter of the form: its key is one of the backend's and its value has no line break.
abbrev pub IsParam : List Text → Text × Text → Type 0
IsParam allowed (k, v) = (has_key allowed k ≡ true) × (contains_any v (10 ∷ 13 ∷ []) ≡ false)

pub record IsForm (b : AddBody) : Type 0 where
  pub named : b.name ≢ []
  pub plain : all is_ident b.name ≡ true
  pub short : length b.name ≤ 64
  pub allowed : List Text
  pub backend : rclone_backend b.type ≡ some allowed
  pub params : All (IsParam allowed) b.params

-- Docker is called once, to create the remote of the form, and what it answers is audited; where the
-- engine's own container cannot be read, nothing is called, and that is audited as a failure.
abbrev pub Creates : Env → Docker → AddBody → Request → Site → Site → Type 0
Creates env d b r s s' =
    ((e : Text) × (engine_env d ≡ bad e)
      × (s' ≡ audited env r (codes "rclone-add") (codes "fail") s))
    ⊎ ((host_dir img net : Text) × (engine_env d ≡ good host_dir img net)
        × (let cmd = create_cmd host_dir img b.name b.type b.params in
            let s₁ = record s { called = ran_docker cmd ∷ s.called } in
            (((d.run cmd).0 ≡ none) × (s' ≡ audited env r (codes "rclone-add") (codes "ok") s₁))
            ⊎ ((e : Text) × ((d.run cmd).0 ≡ some e)
                × (s' ≡ audited env r (codes "rclone-add") (codes "fail") s₁))))
