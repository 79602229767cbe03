-- ===== src/Rclone/Engine.antt =====
-- The containers that rclonegui.go starts beside the engine's: `selfRef`, `dockerInspect`,
-- `engineEnv`, `forceRemove`, `createRemote` and `runRcloneCLI`. What docker answers to a command, an
-- error's text or none and the output, is an argument.
use oracle_backup.Base.{
  Bool, false, not, ◌||◌, List, [], ◌∷◌, ◌++◌, Option, none, some, if◌then◌else◌,
}
use oracle_backup.Text.{Text, codes, same, has_prefix, contains, trim_space}
use oracle_backup.Runner.Calls.{Call, ran_docker}

pub record Mount : Type 0 where
  pub source : Text
  pub destination : Text

pub record Inspect : Type 0 where
  pub mounts : List Mount
  pub image : Text
  pub running : Bool
  pub networks : List Text  -- the keys, in the order in which the map's loop meets them

pub data Inspected : Type 0 where
  not_found : Inspected
  failed : Text → Inspected
  found : Inspect → Inspected

pub data EngineEnv : Type 0 where
  bad : Text → EngineEnv
  good : Text → Text → Text → EngineEnv  -- the mount's host directory, the image, the network

-- The last mount of /etc/rclone, or the text given.
unfoldable pub rclone_dir : Text → List Mount → Text
rclone_dir dir [] = dir
rclone_dir dir (m ∷ ms) =
    rclone_dir (if same m.destination (codes "/etc/rclone") then m.source else dir) ms

abbrev pub first_network : List Text → Text
first_network [] = []
first_network (n ∷ ns) = n

-- What docker and the system answer; `decode` is `json.Unmarshal` of the output of an inspection.
pub record Docker : Type 0 where
  pub run : List Text → Option Text × Text
  pub decode : Text → Option (List Inspect)
  pub self_container : Text
  pub hostname : Option Text

unfoldable pub self_ref : Docker → Option Text
self_ref d =
    if not (same d.self_container [])
    then some d.self_container
    else elim d.hostname [ none ↦ none | some h ↦ if same h [] then none else some h ]

abbrev pub first_inspect : Option (List Inspect) → Inspected
first_inspect none = failed (codes "inspect parse")
first_inspect (some []) = failed (codes "inspect parse")
first_inspect (some (i ∷ is')) = found i

unfoldable pub docker_inspect : Docker → Text → Inspected
docker_inspect d ref =
    let (err, out) = d.run (codes "inspect" ∷ ref ∷ []) in
    elim err [
      | some e ↦
          if contains out (codes "No such")
          then not_found
          else failed (codes "docker inspect: " ++ (e ++ (codes ": " ++ trim_space out)))
      | none ↦ first_inspect (d.decode out)
    ]

-- The three values, of which none may be missing or look like an option.
unfoldable pub checked_env : Text → Text → Text → EngineEnv
checked_env host_dir img net =
    if same host_dir [] || same img [] || same net []
    then bad (codes "engine 환경(마운트/이미지/네트워크) 확인 실패")
    else if not (has_prefix host_dir (codes "/"))
        || has_prefix img (codes "-")
        || has_prefix net (codes "-")
    then bad (codes "비정상 engine 환경 값")
    else good host_dir img net

unfoldable pub env_of : Inspected → EngineEnv
env_of not_found = bad (codes "engine 컨테이너 inspect 실패: not found")
env_of (failed e) = bad (codes "engine 컨테이너 inspect 실패: " ++ e)
env_of (found i) = checked_env (rclone_dir [] i.mounts) i.image (first_network i.networks)

unfoldable pub engine_env : Docker → EngineEnv
engine_env d = elim (self_ref d) [
  | none ↦ bad (codes "self container ref 확인 불가 (SELF_CONTAINER 미설정 + hostname 없음)")
  | some ref ↦ env_of (docker_inspect d ref)
]

unfoldable pub force_remove : Docker → Text → Option Text
force_remove d name =
    let (err, out) = d.run (codes "rm" ∷ codes "-f" ∷ name ∷ []) in
    elim err [
      | none ↦ none
      | some e ↦
          if contains out (codes "No such container")
          then none
          else some (codes "docker rm: " ++ (e ++ (codes ": " ++ trim_space out)))
    ]

abbrev pub mount_of : Text → Text
mount_of host_dir = codes "type=bind,source=" ++ (host_dir ++ codes ",destination=/etc/rclone")

abbrev pub conf_args : List Text
conf_args = codes "--config" ∷ codes "/etc/rclone/rclone.conf" ∷ []

-- The parameters that are not empty, as `key=value`, and the arguments behind them.
unfoldable pub param_args : List (Text × Text) → List Text
param_args [] = conf_args
param_args ((k, v) ∷ ps) =
    let rest = param_args ps in if same v [] then rest else (k ++ (codes "=" ++ v)) ∷ rest

unfoldable pub create_cmd : Text → Text → Text → Text → List (Text × Text) → List Text
create_cmd host_dir img name typ params =
    codes "run"
    ∷ codes "--rm"
    ∷ codes "--mount"
    ∷ mount_of host_dir
    ∷ codes "--entrypoint"
    ∷ codes "rclone"
    ∷ img
    ∷ codes "config"
    ∷ codes "create"
    ∷ name
    ∷ typ
    ∷ param_args params

abbrev pub create_error : Option Text × Text → Option Text
create_error (none, out) = none
create_error (some e, out) = some (e ++ (codes ": " ++ trim_space out))

-- The error, `none` where the remote is made, and the calls.
unfoldable pub create_remote :
    Docker → Text → Text → List (Text × Text) → List Call → Option Text × List Call
create_remote d name typ params calls = elim (engine_env d) [
  | bad e ↦ (some e, calls)
  | good host_dir img net ↦
      let cmd = create_cmd host_dir img name typ params in
      (create_error (d.run cmd), ran_docker cmd ∷ calls)
]

unfoldable pub cli_cmd : Text → Text → List Text → List Text
cli_cmd host_dir img args =
    codes "run"
    ∷ codes "--rm"
    ∷ codes "-e"
    ∷ codes "RCLONE_CONFIG=/etc/rclone/rclone.conf"
    ∷ codes "--mount"
    ∷ mount_of host_dir
    ∷ codes "--entrypoint"
    ∷ codes "rclone"
    ∷ img
    ∷ args

-- The output and the calls; the caller drops the error.
unfoldable pub run_rclone_cli : Docker → List Text → List Call → Text × List Call
run_rclone_cli d args calls = elim (engine_env d) [
  | bad e ↦ ([], calls)
  | good host_dir img net ↦
      let cmd = cli_cmd host_dir img args in ((d.run cmd).1, ran_docker cmd ∷ calls)
]

unfoldable pub rclone_gui_running : Docker → Text → Bool
rclone_gui_running d name = elim (docker_inspect d name) [
  | not_found ↦ false
  | failed e ↦ false
  | found i ↦ i.running
]
