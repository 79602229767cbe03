-- ===== src/Terminal/Session.antt =====
-- The sessions of the terminal and the slots that they take, and who may open one.
use oracle_backup.Base.{not, ℕ, suc, ◌<◌, ◌≤◌, Bool, false, List, [], ◌∷◌, ◌++◌, if◌then◌else◌}
use oracle_backup.Text.{Text, codes, same}
use oracle_backup.Runner.Calls.{ran_docker}
use oracle_backup.Rclone.Engine.{Docker, bad, good, mount_of, engine_env}
use oracle_backup.Web.Request.{Request, Env, Response, text, is_host, Handler, audited}

abbrev pub term_max_conc : ℕ
term_max_conc = 4

-- The WebSocket is open and no slot is taken yet, the container runs, or the handler has returned.
pub data Phase : Type 0 where
  upgraded running closed : Phase

-- The length of the channel, and the handlers.
pub record Terms : Type 0 where
  pub slots : ℕ
  pub sessions : List Phase

abbrev pub no_terms : Terms
no_terms = record { slots = 0; sessions = [] }

-- `CheckOrigin` of the upgrade.
unfoldable pub check_origin : Env → Request → Bool
check_origin env r = if same r.origin [] then false else is_host (env.url_host r.origin) r.host

-- The arguments of docker; `name` is the container's.
abbrev pub term_cmd : Text → Text → Text → Text → List Text
term_cmd name host_dir img net =
    codes "run"
    ∷ codes "--rm"
    ∷ codes "-i"
    ∷ codes "-t"
    ∷ codes "--name"
    ∷ name
    ∷ codes "--network"
    ∷ net
    ∷ codes "--security-opt"
    ∷ codes "no-new-privileges:true"
    ∷ codes "--cap-drop"
    ∷ codes "ALL"
    ∷ codes "--pids-limit"
    ∷ codes "256"
    ∷ codes "--memory"
    ∷ codes "512m"
    ∷ codes "--cpus"
    ∷ codes "1"
    ∷ codes "--mount"
    ∷ mount_of host_dir
    ∷ codes "-e"
    ∷ codes "RCLONE_CONFIG=/etc/rclone/rclone.conf"
    ∷ codes "--entrypoint"
    ∷ codes "rclone"
    ∷ img
    ∷ codes "config"
    ∷ []

-- How the handler begins: an error, a refused upgrade, or a session and the command that it will run.
pub data Opening : Type 0 where
  no_env : Text → Opening
  not_upgraded : Opening
  opened : List Text → Opening

unfoldable pub open_terminal : Env → Docker → Text → Request → Opening
open_terminal env d name r = elim (engine_env d) [
  | bad e ↦ no_env e
  | good host_dir img net ↦
      if check_origin env r then opened (term_cmd name host_dir img net) else not_upgraded
]

-- The handler on the site, from its beginning to its end: `starts` says whether a slot is free and the
-- container starts, and `answer` is what the upgrade answers.
unfoldable pub handle_terminal_ws : Env → Docker → Text → Bool → Response → Handler
handle_terminal_ws env d name starts answer r s = elim (open_terminal env d name r) [
  | no_env e ↦ (text 500 e, s)
  | not_upgraded ↦ (answer, s)
  | opened cmd ↦ if not starts then (answer, s) else (
    answer,
    audited env r (codes "terminal") (codes "close") (
        audited env r (codes "terminal") (codes "open")
          (record s { called = ran_docker cmd ∷ s.called })),
  )
]

-- What the handlers, each on its own, do next: a request opens a session; the session takes a slot,
-- or ends where all are taken; the one that runs ends, whether its container did not start, the
-- browser is gone or its time is up, and gives its slot back.
pub data Step : Terms → Terms → Type 0 where
  opens : (t : Terms) → Step t (record t { sessions = upgraded ∷ t.sessions })
  takes :
      (pre post : List Phase) (n : ℕ)
      → n < term_max_conc
      → Step
          (record { slots = n; sessions = pre ++ upgraded ∷ post })
          (record { slots = suc n; sessions = pre ++ running ∷ post })
  refuses :
      (pre post : List Phase) (n : ℕ)
      → term_max_conc ≤ n
      → Step
          (record { slots = n; sessions = pre ++ upgraded ∷ post })
          (record { slots = n; sessions = pre ++ closed ∷ post })
  leaves :
      (pre post : List Phase) (n : ℕ)
      → Step
          (record { slots = suc n; sessions = pre ++ running ∷ post })
          (record { slots = n; sessions = pre ++ closed ∷ post })

pub data Reached : Terms → Type 0 where
  none_yet : Reached no_terms
  then_step : {t t' : Terms} → Reached t → Step t t' → Reached t'
