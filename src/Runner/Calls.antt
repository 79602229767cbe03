-- ===== src/Runner/Calls.antt =====
-- What the program makes happen outside of it: the scripts, containers and requests that it starts.
use oracle_backup.Base.{List}
use oracle_backup.Text.{Text}
use oracle_backup.Runner.Gate.{Runner}

-- `ran_script` carries the gate and the flag as they are while the script runs.
pub data Call : Type 0 where
  ran_script : Runner → List Text → Call
  ran_docker : List Text → Call
  posted_to : Text → Call
  proxied : Text → Text → Call
