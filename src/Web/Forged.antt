-- ===== src/Web/Forged.antt =====
-- What a request that fails `checkCSRF` changes at any path.
use oracle_backup.Base.{◌≡◌, true, some, List, ◌∷◌, ◌⊎◌}
use oracle_backup.Web.Request.{Request, Env, Site, current_user}
use oracle_backup.Web.Routes.{Api, rclone_gui_proxy, terminal_ws, Entry, behind_auth}
use oracle_backup.Web.Keeps.{settings}
use oracle_backup.Text.{Text}
use oracle_backup.Runner.Calls.{Call, ran_docker, proxied}
use oracle_backup.Terminal.Session.{check_origin}

-- One more call, and nothing else but the audit trail and the caches.
abbrev Calls : Call → Site → Site → Type 0
Calls c s s' = settings s' ≡ settings (record s { called = c ∷ s.called })

-- What a handler behind `requireAuth` leaves: nothing but the audit trail and the caches is changed,
-- or the GUI that is active gets the request, or a terminal is opened from the same origin.
abbrev pub Leaves : Env → Request → Api → Site → Site → Type 0
Leaves env r a s s' =
    (settings s' ≡ settings s)
    ⊎ (((a ≡ rclone_gui_proxy) × (s.gui.active ≡ true) × Calls (proxied r.method r.path) s s')
        ⊎ ((a ≡ terminal_ws)
            × (check_origin env r ≡ true)
            × (cmd : List Text) × Calls (ran_docker cmd) s s'))

abbrev pub Passes : Env → Request → Entry → Site → Site → Type 0
Passes env r e s s' =
    (settings s' ≡ settings s)
    ⊎ ((user : Text) × (a : Api) × (current_user env env.entered r ≡ some user)
        × (e ≡ behind_auth a)
        × Leaves env r a s s')
