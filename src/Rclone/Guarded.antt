-- ===== src/Rclone/Guarded.antt =====
-- Who stops the rclone GUI.
use oracle_backup.Base.{
  ℕ, ◌+◌, ◌<◌, ◌≡◌, ◌≢◌, ◌↔◌, ◌⊎◌, inl, inr, refl, sym, subst, true, false, none, arith,
  Option-cases,
}
use oracle_backup.Text.{Text}
use oracle_backup.Rclone.Engine.{Docker, EngineEnv, bad, good, engine_env, force_remove}
use oracle_backup.Rclone.Gui.{
  off, ended, pending, Gui, found_gui, rg_name, rg_ttl, gui_cmd, remove, start_rclone_gui,
  stop_rclone_gui, Step, start, stop, expire, callback, Reached, boot, then_step,
}

-- The GUI is active just while a timer is set, and the callback of one that ended is still to come.
pub record IsWatched (g : Gui) : Type 0 where
  pub timed : (g.active ≡ true) ↔ (g.timer ≢ off)
  pub called : (g.timer ≢ ended) ⊎ (0 < g.calls)

remove_lem :
    (d : Docker) (g : Gui)
    → ((remove d g).active ≡ g.active)
      × ((remove d g).timer ≡ g.timer)
      × ((remove d g).calls ≡ g.calls)
unfolding remove
remove_lem d g = elim (Option-cases (force_remove d rg_name)) [
  | inl e ↦ rw (remove, e) (refl, refl, refl)
  | inr (x, e) ↦ rw (remove, e) (refl, refl, refl)
]

pub EngineEnv-cases :
    (e : EngineEnv)
    → ((m : Text) × (e ≡ bad m)) ⊎ ((h : Text) × (i : Text) × (n : Text) × (e ≡ good h i n))
EngineEnv-cases (bad m) = inl (m, refl)
EngineEnv-cases (good h i n) = inr (h, i, n, refl)

-- A start that fails early, one that fails late, and one that succeeds.
start_cases :
    (d : Docker) (now : ℕ) (g : Gui)
    → let g' = (start_rclone_gui d now g).1 in
      (g' ≡ g)
      ⊎ (g' ≡ remove d (remove d g))
      ⊎ (g'
          ≡ record (remove d g) { active = true; timer = pending (now + rg_ttl); container = true })
unfolding start_rclone_gui
start_cases d now g = elim (EngineEnv-cases (engine_env d)) [
  | inl (m, e) ↦ inl (rw (start_rclone_gui, e) refl)
  | inr (h, i, n, e) ↦ elim (Option-cases (d.run (gui_cmd h i n)).0) [
    | inl k ↦ inr (inr (rw (start_rclone_gui, e, k) refl))
    | inr (x, k) ↦ inr (inl (rw (start_rclone_gui, e, k) refl))
  ]
]

remove-IsWatched : (d : Docker) (g : Gui) → IsWatched g → IsWatched (remove d g)
remove-IsWatched d g w =
    let (a, t, c) = remove_lem d g in
    record { timed = rw (a, t) w.timed; called = rw (t, c) w.called }

stop-IsWatched :
    (d : Docker) (g : Gui) (n : ℕ) → IsWatched (record ((stop_rclone_gui d g).1) { calls = n })
unfolding stop_rclone_gui
stop-IsWatched d g n =
    let (a, t, c) = remove_lem d (record g { active = false; timer = off }) in
    record { timed = (λ h. cc (h, a), λ h. absurd (h t)); called = inl (λ h. cc (h, t)) }

step-IsWatched : {P : Docker → Type 0} {g g' : Gui} → Step P g g' → IsWatched g → IsWatched g'
step-IsWatched {P} (start d now g p) w = elim (start_cases d now g) [
  | inl e ↦ subst IsWatched (sym e) w
  | inr (inl e) ↦ subst IsWatched (sym e) (remove-IsWatched d _ (remove-IsWatched d g w))
  | inr (inr e) ↦
      subst IsWatched (sym e)
        (record { timed = (λ h k. cc k, λ h. refl); called = inl (λ h. cc h) })
]
step-IsWatched {P} (stop d g p) w = stop-IsWatched d g (stop_rclone_gui d g).1.calls
step-IsWatched {P} (expire now t g e l) w = record {
  timed = (λ h k. cc k, λ h. w.timed.1 (λ k. cc (k, e)));
  called = inr (omega arith);
}
step-IsWatched {P} (callback d n g p e) w = stop-IsWatched d g n

-- Whatever docker answers, and however starts, stops, ends of timers and their callbacks follow each
-- other from the boot on: the GUI is active just while a timer is set, and when that timer has ended,
-- a callback that stops the GUI is still to come.
pub gui-IsWatched : {P : Docker → Type 0} {g : Gui} → Reached P g → IsWatched g
gui-IsWatched (boot d c p) =
    stop-IsWatched d (found_gui c) (stop_rclone_gui d (found_gui c)).1.calls
gui-IsWatched (then_step r s) = step-IsWatched s (gui-IsWatched r)

-- The container is gone or the GUI is active.
abbrev Guards : Gui → Type 0
Guards g = (g.container ≡ false) ⊎ (g.active ≡ true)

module _ (P : Docker → Type 0) (removes : (d : Docker) → P d → force_remove d rg_name ≡ none) where
  removed : (d : Docker) (g : Gui) → P d → (remove d g).container ≡ false
  unfolding remove
  removed d g p = rw (remove, removes d p) refl

  step-Guards : {g g' : Gui} → Step P g g' → Guards g → Guards g'
  unfolding stop_rclone_gui
  step-Guards {g = g} (start d now _ p) h = elim (start_cases d now g) [
    | inl e ↦ subst Guards (sym e) h
    | inr (inl e) ↦ subst Guards (sym e) (inl (removed d (remove d g) p))
    | inr (inr e) ↦ subst Guards (sym e) (inr refl)
  ]
  step-Guards (stop d g p) h = inl (removed d _ p)
  step-Guards (expire now t g e l) h = h
  step-Guards (callback d n g p e) h = inl (removed d _ p)

  -- As long as docker never fails to remove the container, a container that docker has is one of an
  -- active GUI, in every state that starts, stops, ends of timers and their callbacks lead to.
  pub gui_stopped : {g : Gui} → Reached P g → (g.container ≡ false) ⊎ (g.active ≡ true)
  unfolding stop_rclone_gui
  gui_stopped (boot d c p) = inl (removed d _ p)
  gui_stopped (then_step r s) = step-Guards s (gui_stopped r)
