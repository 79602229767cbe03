-- ===== src/Rclone/Gui.antt =====
-- The on-demand rclone GUI of rclonegui.go: `rgActive`, `rgTimer` and the container, as
-- `startRcloneGUI`, `stopRcloneGUI` and the timer's callback change them.
use oracle_backup.Base.{
  ℕ, suc, ◌+◌, ◌*◌, ◌≤◌, ◌≡◌, Bool, true, false, List, ◌∷◌, ◌++◌, Option, none, some,
}
use oracle_backup.Text.{Text, codes, trim_space}
use oracle_backup.Rclone.Engine.{Docker, bad, good, mount_of, conf_args, engine_env, force_remove}

abbrev pub rg_name : Text
rg_name = codes "backupstack_rclonegui"

-- 30 minutes, in seconds.
abbrev pub rg_ttl : ℕ
rg_ttl = 30 * 60

-- `rgTimer`: nil, a timer that ends at a time, or one that has ended.
pub data Timer : Type 0 where
  off ended : Timer
  pending : ℕ → Timer

-- `container` says whether docker has the container, as far as its answers tell; `calls` are the
-- callbacks of timers that ended and that have not run yet.
pub record Gui : Type 0 where
  pub active : Bool
  pub timer : Timer
  pub container : Bool
  pub calls : ℕ

-- The state before the boot, which may find a container of the run before.
abbrev pub found_gui : Bool → Gui
found_gui container = record { active = false; timer = off; container = container; calls = 0 }

abbrev pub gui_cmd : Text → Text → Text → List Text
gui_cmd host_dir img net =
    codes "run"
    ∷ codes "-d"
    ∷ codes "--name"
    ∷ rg_name
    ∷ codes "--restart"
    ∷ codes "no"
    ∷ codes "--network"
    ∷ net
    ∷ codes "--mount"
    ∷ mount_of host_dir
    ∷ codes "--entrypoint"
    ∷ codes "rclone"
    ∷ img
    ∷ codes "rcd"
    ∷ codes "--rc-web-gui"
    ∷ codes "--rc-web-gui-no-open-browser"
    ∷ codes "--rc-no-auth"
    ∷ codes "--rc-baseurl"
    ∷ codes "/rclone-gui/"
    ∷ codes "--rc-addr"
    ∷ codes "0.0.0.0:5572"
    ∷ conf_args

-- `forceRemove` with what it does to the container, its error being dropped.
unfoldable pub remove : Docker → Gui → Gui
remove d g = elim (force_remove d rg_name) [ none ↦ record g { container = false } | some e ↦ g ]

-- `none` where the GUI runs. The lock is held only around the last part.
unfoldable pub start_rclone_gui : Docker → ℕ → Gui → Option Text × Gui
start_rclone_gui d now g = elim (engine_env d) [
  | bad e ↦ (some e, g)
  | good host_dir img net ↦
      let g₁ = remove d g in
      let (err, out) = d.run (gui_cmd host_dir img net) in
      elim err [
        | some e ↦ (some (codes "기동 실패: " ++ (e ++ (codes ": " ++ trim_space out))), remove d g₁)
        | none ↦
            (none, record g₁ { active = true; timer = pending (now + rg_ttl); container = true })
      ]
]

unfoldable pub stop_rclone_gui : Docker → Gui → Option Text × Gui
stop_rclone_gui d g = (force_remove d rg_name, remove d (record g { active = false; timer = off }))

-- What happens to the GUI, as long as docker is one that `P` allows: requests that start and stop it,
-- the end of the timer, which only makes its callback ready, and the callback, which stops whatever
-- runs by then.
pub data Step (P : Docker → Type 0) : Gui → Gui → Type 0 where
  start : (d : Docker) (now : ℕ) (g : Gui) → P d → Step P g (start_rclone_gui d now g).1
  stop : (d : Docker) (g : Gui) → P d → Step P g (stop_rclone_gui d g).1
  expire :
      (now t : ℕ) (g : Gui)
      → g.timer ≡ pending t
      → t ≤ now
      → Step P g (record g { timer = ended; calls = suc g.calls })
  callback :
      (d : Docker) (n : ℕ) (g : Gui)
      → P d
      → g.calls ≡ suc n
      → Step P g (record ((stop_rclone_gui d g).1) { calls = n })

pub data Reached (P : Docker → Type 0) : Gui → Type 0 where
  boot :
      (d : Docker) (container : Bool) → P d → Reached P (stop_rclone_gui d (found_gui container)).1
  then_step : {g g' : Gui} → Reached P g → Step P g g' → Reached P g'
