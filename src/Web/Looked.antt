-- ===== src/Web/Looked.antt =====
-- Which remotes and paths are looked at, and which webhooks are tested.
use oracle_backup.Base.{
  true, ◌≡◌, ◌⊎◌, inl, inr, refl, ap, ◌∙◌, [], Option, some, arith, Bool-cases, ℕ, ◌≤◌, ◌<◌, ◌||◌,
  ◌∷◌, ◌++◌, none, ltb, leb, sym, subst,
}
use oracle_backup.Text.{Text, codes, same, same_iff, trim_space, format_nat}
use oracle_backup.Inputs.Texts.{valid_webhook_url}
use oracle_backup.Migrate.Remote.{valid_remote_path, valid_remote_name}
use oracle_backup.Migrate.Start.{tidy_path}
use oracle_backup.Web.Request.{Request, Env, Site, text, require_auth, audited}
use oracle_backup.Web.Saved.{Trusted}
use oracle_backup.Web.Posts.{post_only_lem}
use oracle_backup.Runner.Calls.{posted_to}
use oracle_backup.Web.Destinations.{
  Sent, unsent, answered, webhook_payload, send_webhook_test, Remotes, remote_or, look,
  handle_remote_target, send_test, test_webhook, handle_alert_webhook_test,
}

-- A destination is looked at only if its remote, the active one where none is named, is one of
-- rclone.conf and its path, with blanks and slashes around it dropped, is empty or valid; any other
-- request is refused. Nothing changes.
pub handle_remote_target_looks :
    (rc : Remotes) (conf : Option Text) (active : Text) (r : Request) (s : Site)
    → let remote = remote_or active (trim_space (r.query (codes "remote"))) in
      let path = tidy_path (r.query (codes "path")) in
      (handle_remote_target rc conf active r s ≡ (text 400 (codes "bad params"), s))
      ⊎ ((valid_remote_name conf remote ≡ true)
          × ((path ≡ []) ⊎ (valid_remote_path path ≡ true))
          × (handle_remote_target rc conf active r s ≡ look rc remote path r s))
unfolding handle_remote_target
handle_remote_target_looks rc conf active r s =
    let remote = remote_or active (trim_space (r.query (codes "remote"))) in
    let path = tidy_path (r.query (codes "path")) in
    elim (Bool-cases (valid_remote_name conf remote)) [
      | inr n ↦ inl (ground arith)
      | inl y ↦ elim (Bool-cases (same path [])) [
        | inl e ↦ inr (y, inl ((same_iff path []).0 e), ground arith)
        | inr e ↦ elim (Bool-cases (valid_remote_path path)) [
          | inl v ↦ inr (y, inr v, ground arith)
          | inr v ↦ inl (ground arith)
        ]
      ]
    ]

-- No answer, or one with another status code.
abbrev Unheard : Sent → Type 0
Unheard x =
    ((e : Text) × (x ≡ unsent e))
    ⊎ ((code : ℕ) × (x ≡ answered code) × ¬ ((200 ≤ code) × (code < 300)))

Sent_cases : (x : Sent) → ((e : Text) × (x ≡ unsent e)) ⊎ ((code : ℕ) × (x ≡ answered code))
Sent_cases (unsent e) = inl (e, refl)
Sent_cases (answered code) = inr (code, refl)

-- The one request goes to the URL; it is audited as a success exactly when it is answered with a status
-- code from 200 to 299.
abbrev pub Sends : Env → Remotes → Text → Request → Site → Site → Type 0
Sends env rc u r s s' =
    let s₁ = record s { called = posted_to u ∷ s.called } in
    ((code : ℕ) × (200 ≤ code)
      × (code < 300)
      × (rc.post u (webhook_payload rc) ≡ answered code)
      × (s' ≡ audited env r (codes "alert-webhook-test") (codes "ok") s₁))
    ⊎ (Unheard (rc.post u (webhook_payload rc))
        × (s' ≡ audited env r (codes "alert-webhook-test") (codes "fail") s₁))

send_webhook_test_cases :
    (rc : Remotes) (u : Text)
    → ((code : ℕ) × (200 ≤ code)
        × (code < 300)
        × (rc.post u (webhook_payload rc) ≡ answered code)
        × (send_webhook_test rc u ≡ none))
      ⊎ (Unheard (rc.post u (webhook_payload rc)) × (e : Text) × (send_webhook_test rc u ≡ some e))
unfolding send_webhook_test
send_webhook_test_cases rc u = elim (Sent_cases (rc.post u (webhook_payload rc))) [
  | inl (e, k) ↦ inr (inl (e, k), e, rw (send_webhook_test, k) refl)
  | inr (code, k) ↦ elim (Bool-cases (ltb code 200 || leb 300 code)) [
    | inl y ↦ inr (
      inr (code, k, λ h. ground (arith, y, h)),
      codes "HTTP " ++ format_nat code,
      rw (send_webhook_test, k, y) refl,
    )
    | inr n ↦ inl (code, ground (arith, n), ground (arith, n), k, rw (send_webhook_test, k, n) refl)
  ]
]

send_test_lem :
    (env : Env) (rc : Remotes) (u : Text) (r : Request) (s : Site)
    → Sends env rc u r s (send_test env rc u r s).1
unfolding send_test
send_test_lem env rc u r s = elim (send_webhook_test_cases rc u) [
  | inl (code, a, b, k, n) ↦ inl (code, a, b, k, rw (send_test, n) refl)
  | inr (h, e, n) ↦ inr (h, rw (send_test, n) refl)
]

-- A webhook is tested only on a POST with a good session that passes the CSRF check and whose URL,
-- trimmed, is valid. One request is then sent to that URL, and the test is audited, as a success
-- exactly when it is answered with a status code from 200 to 299. Otherwise nothing is sent and nothing
-- changes.
pub handle_alert_webhook_test-Sends :
    (env : Env) (rc : Remotes) (body : Option Text) (r : Request) (s : Site)
    → let res = require_auth env (handle_alert_webhook_test env rc body) r s in
      (res.1 ≡ s)
      ⊎ (Trusted env (codes "POST") r
          × (u : Text) × (body ≡ some u)
          × (valid_webhook_url (trim_space u) ≡ true)
          × Sends env rc (trim_space u) r s res.1)
unfolding handle_alert_webhook_test test_webhook
handle_alert_webhook_test-Sends env rc body r s =
    elim (post_only_lem env body (test_webhook env rc) r s) [
      | inl e ↦ inl e
      | inr (t, u, k, q) ↦ elim (Bool-cases (valid_webhook_url (trim_space u))) [
        | inr n ↦ inl (ap (λ z. z.1) q ∙ rw (test_webhook, n) refl)
        | inl y ↦
            let w : _ ≡ send_test env rc (trim_space u) r s = q ∙ rw (test_webhook, y) refl in
            inr (
              t,
              u,
              k,
              y,
              subst (λ z. Sends env rc (trim_space u) r s z.1) (sym w)
                  (send_test_lem env rc (trim_space u) r s),
            )
      ]
    ]
