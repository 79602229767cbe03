-- ===== src/Terminal/Slots.antt =====
-- How many terminals run, and who opens them.
use oracle_backup.Base.{
  ℕ, ◌+◌, ◌≤◌, ◌≡◌, ◌≢◌, inl, inr, some, Bool-cases, refl, List, [], ◌∷◌, ◌++◌, arith,
}
use oracle_backup.Text.{Text, same, same_iff}
use oracle_backup.Rclone.Engine.{Docker, good, engine_env}
use oracle_backup.Rclone.Guarded.{EngineEnv-cases}
use oracle_backup.Web.Request.{Request, Env, is_host}
use oracle_backup.Web.Csrf.{is_host_iff}
use oracle_backup.Terminal.Session.{
  check_origin, term_cmd, opened, open_terminal, Phase, upgraded, running, closed, Terms, Step,
  opens, takes, refuses, leaves, Reached, none_yet, then_step,
}

abbrev weight : Phase → ℕ
weight upgraded = 0
weight running = 1
weight closed = 0

-- The sessions whose container runs.
abbrev pub count : List Phase → ℕ
count [] = 0
count (p ∷ ps) = weight p + count ps

count-append : (ps qs : List Phase) → count (ps ++ qs) ≡ count ps + count qs
count-append [] qs = omega arith
count-append (p ∷ ps) qs = omega (arith, count-append ps qs)

-- The channel holds as many as there are containers that run, and at most four.
pub record IsCapped (t : Terms) : Type 0 where
  pub counted : t.slots ≡ count t.sessions
  pub capped : t.slots ≤ 4

step-IsCapped : {t t' : Terms} → Step t t' → IsCapped t → IsCapped t'
step-IsCapped (opens t) c = record { counted = omega (arith, c.counted); capped = c.capped }
step-IsCapped (takes pre post n l) c = record {
  counted =
      omega
        (arith, c.counted, count-append pre (upgraded ∷ post), count-append pre (running ∷ post));
  capped = omega (arith, l);
}
step-IsCapped (refuses pre post n l) c = record {
  counted =
      omega
        (arith, c.counted, count-append pre (upgraded ∷ post), count-append pre (closed ∷ post));
  capped = c.capped;
}
step-IsCapped (leaves pre post n) c = record {
  counted =
      omega (arith, c.counted, count-append pre (running ∷ post), count-append pre (closed ∷ post));
  capped = omega (arith, c.capped);
}

-- However sessions are opened, take their slots, are refused and end: as many slots are taken as
-- there are terminals that run, and there are never more than four.
pub terms-IsCapped : {t : Terms} → Reached t → IsCapped t
terms-IsCapped none_yet = record { counted = refl; capped = omega arith }
terms-IsCapped (then_step r s) = step-IsCapped s (terms-IsCapped r)

-- A terminal is opened only for a page of the request's own host, by the Origin that the browser
-- sends, and runs only `rclone config`, in a container of the engine's image on the engine's network,
-- with the engine's mount of rclone.conf, none of which looks like an option.
pub open_terminal_checks :
    (env : Env) (d : Docker) (name : Text) (r : Request) (cmd : List Text)
    → open_terminal env d name r ≡ opened cmd
    → (r.origin ≢ [])
      × (env.url_host r.origin ≡ some r.host)
      × (h : Text) × (i : Text) × (n : Text) × (engine_env d ≡ good h i n)
      × (cmd ≡ term_cmd name h i n)
unfolding open_terminal check_origin
open_terminal_checks env d name r cmd o = elim (EngineEnv-cases (engine_env d)) [
  | inl (m, e) ↦ absurd (ground arith)
  | inr (h, i, n, e) ↦ elim (Bool-cases (same r.origin [])) [
    | inl y ↦ absurd (ground arith)
    | inr k ↦ elim (Bool-cases (is_host (env.url_host r.origin) r.host)) [
      | inr z ↦ absurd (ground arith)
      | inl z ↦ (
        λ q. ground (arith, same_iff r.origin []),
        (is_host_iff (env.url_host r.origin) r.host).0 z,
        h,
        i,
        n,
        e,
        ground arith,
      )
    ]
  ]
]
