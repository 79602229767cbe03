-- ===== src/Web/Switched.antt =====
-- When the rclone handlers call docker.
use oracle_backup.Base.{
  ℕ, Bool, true, false, ◌≡◌, ◌⊎◌, inl, inr, refl, sym, ◌∙◌, subst, List, [], ◌∷◌, ◌++◌, Option,
  none, some, arith, Bool-cases, Option-cases,
}
use oracle_backup.Text.{Text, codes, same, same_iff}
use oracle_backup.Runner.Calls.{ran_docker}
use oracle_backup.Rclone.Engine.{Docker, bad, good, engine_env, cli_cmd}
use oracle_backup.Rclone.Gui.{Gui, start_rclone_gui, stop_rclone_gui, Step, start, stop}
use oracle_backup.Web.Request.{
  Request, Env, Site, Response, str, json, current_user, require_auth, check_csrf, audited,
}
use oracle_backup.Web.Settings.{is_method}
use oracle_backup.Web.Saved.{Trusted}
use oracle_backup.Web.Remotes.{ActionBody, gui_answer, switch_gui, handle_rclone_gui}

gui_answer_lem :
    (env : Env) (d : Docker) (action : Text) (running : Bool) (x : Option Text × Gui) (r : Request)
    (s : Site)
    → (gui_answer env d action running x r s).1.gui ≡ x.1
unfolding gui_answer
gui_answer_lem env d action running (none, g) r s = refl
gui_answer_lem env d action running (some e, g) r s = refl

-- What a switch asks for, and the step of the GUI that it makes.
abbrev Switches : Docker → Text → Gui → Gui → Type 0
Switches d action g g' =
    ((action ≡ codes "start") ⊎ (action ≡ codes "stop")) × Step (λ d'. d' ≡ d) g g'

switch_gui_lem :
    (env : Env) (d : Docker) (now : ℕ) (action : Text) (r : Request) (s : Site)
    → let s' = (switch_gui env d now action r s).1 in
      (s'.gui ≡ s.gui) ⊎ Switches d action s.gui s'.gui
unfolding switch_gui
switch_gui_lem env d now action r s = elim (Bool-cases (same action (codes "start"))) [
  | inl y ↦ inr (
    inl ((same_iff action (codes "start")).0 y),
    subst (Step _ s.gui)
        (sym (
            gui_answer_lem env d (codes "rclone-gui-start") true (start_rclone_gui d now s.gui) r s)
          ∙ rw (switch_gui, y) refl)
        (start d now s.gui refl),
  )
  | inr n ↦ elim (Bool-cases (same action (codes "stop"))) [
    | inl y ↦ inr (
      inr ((same_iff action (codes "stop")).0 y),
      subst (Step _ s.gui)
          (sym (gui_answer_lem env d (codes "rclone-gui-stop") false (stop_rclone_gui d s.gui) r s)
            ∙ rw (switch_gui, n, y) refl)
          (stop d s.gui refl),
    )
    | inr m ↦ inl (rw (switch_gui, n, m) refl)
  ]
]

-- The state of the GUI changes only on a POST with a good session that passes the CSRF check and asks
-- for a start or a stop; the change is then one step of the GUI.
pub handle_rclone_gui_steps :
    (env : Env) (d : Docker) (now : ℕ) (body : ActionBody) (r : Request) (s : Site)
    → let s' = (require_auth env (handle_rclone_gui env d now body) r s).1 in
      (s'.gui ≡ s.gui)
      ⊎ (Trusted env (codes "POST") r
          × ((body.action ≡ codes "start") ⊎ (body.action ≡ codes "stop"))
          × Step (λ d'. d' ≡ d) s.gui s'.gui)
unfolding require_auth handle_rclone_gui
handle_rclone_gui_steps env d now body r s = elim (Option-cases (current_user env env.entered r)) [
  | inl h ↦ inl (ground arith)
  | inr (user, u) ↦ elim (Bool-cases (is_method (codes "GET") r)) [
    | inl g ↦ inl (ground arith)
    | inr g ↦ elim (Bool-cases (is_method (codes "POST") r)) [
      | inr m ↦ inl (ground arith)
      | inl m ↦ elim (Bool-cases (check_csrf env r)) [
        | inr c ↦ inl (ground arith)
        | inl c ↦ elim (switch_gui_lem env d now body.action r s) [
          | inl e ↦ inl (rw (require_auth, u, handle_rclone_gui, g, m, c) e)
          | inr (a, st) ↦ inr (
            record { user = user; logged_in = u; meant = m; own = c },
            a,
            rw (require_auth, u, handle_rclone_gui, g, m, c) st,
          )
        ]
      ]
    ]
  ]
]

abbrev pub Output : Text → Text → Env → Request → Site → Response × Site → Type 0
Output out sub env r s res =
    (res.0 ≡ json 200 ((codes "output", str out) ∷ []))
    × (res.1 ≡ audited env r (codes "rclone-cli:" ++ sub) (codes "run") s)

-- Docker is called once, with the arguments behind those of the container, and its output is the
-- answer; where the engine's own container cannot be read, nothing is called and the output is empty.
-- Either is audited.
abbrev pub CommandRun : Env → Docker → List Text → Text → Request → Site → Response × Site → Type 0
CommandRun env d args sub r s res =
    ((e : Text) × (engine_env d ≡ bad e) × Output [] sub env r s res)
    ⊎ ((host_dir img net : Text) × (engine_env d ≡ good host_dir img net)
        × Output (d.run (cli_cmd host_dir img args)).1 sub env r
            (record s { called = ran_docker (cli_cmd host_dir img args) ∷ s.called }) res)
