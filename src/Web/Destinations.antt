-- ===== src/Web/Destinations.antt =====
-- The handlers of migrate.go that look at a remote, and the test of the webhook in alerts.go. What
-- rclone, restic and the webhook answer is an argument.
use oracle_backup.Base.{
  ℕ, ltb, leb, Bool, true, false, not, ◌&&◌, ◌||◌, List, [], ◌∷◌, ◌++◌, Option, none, some,
  if◌then◌else◌,
}
use oracle_backup.Text.{Text, codes, same, trim_space, redact, format_nat}
use oracle_backup.Inputs.Texts.{valid_webhook_url}
use oracle_backup.Migrate.Remote.{repo_url_on, valid_remote_path, valid_remote_name}
use oracle_backup.Migrate.Start.{tidy_path}
use oracle_backup.Web.Request.{Env, Value, str, flag, text, json, Folder, folders, Handler, audited}
use oracle_backup.Runner.Calls.{posted_to}
use oracle_backup.Web.Posts.{post_only}
use oracle_backup.Web.Listings.{before, sort_slice}

-- One line of `rclone lsjson`.
pub record RawEntry : Type 0 where
  pub name : Text
  pub is_dir : Bool

-- A request that is not answered, or the status code of its answer.
pub data Sent : Type 0 where
  unsent : Text → Sent
  answered : ℕ → Sent

-- `rclone lsd` and `rclone lsjson`, `none` for an error; `repoExists` for a repository's URL; `post`
-- is the HTTP client with a JSON object, and `host_tag` the environment's HOST_TAG.
pub record Remotes : Type 0 where
  pub connected : Text → Bool
  pub list : Text → Option (List RawEntry)
  pub has_repo : Text → Bool
  pub post : Text → List (Text × Value) → Sent
  pub host_tag : Text

abbrev pub webhook_payload : Remotes → List (Text × Value)
webhook_payload rc =
    let host = if same rc.host_tag [] then codes "backup" else rc.host_tag in
    (codes "content", str (codes "[백업:테스트] 테스트 알림 (호스트: " ++ (host ++ codes ")")))
    ∷ (codes "text", str (codes "[백업:테스트] 테스트 알림"))
    ∷ []

unfoldable pub send_webhook_test : Remotes → Text → Option Text
send_webhook_test rc url = elim (rc.post url (webhook_payload rc)) [
  | unsent e ↦ some e
  | answered code ↦
      if ltb code 200 || leb 300 code then some (codes "HTTP " ++ format_nat code) else none
]

unfoldable pub handle_remote_path : Remotes → Text → Text → Handler
handle_remote_path rc active path r s = (
  json 200 (
      (codes "remote", str active)
      ∷ (codes "path", str path)
      ∷ (codes "connected", flag (rc.connected active))
      ∷ []),
  s,
)

abbrev pub child_path : Text → Text → Text
child_path path name = if not (same path []) then path ++ (codes "/" ++ name) else name

-- The loop over the lines: files are left out.
unfoldable pub folders_of : Text → List RawEntry → List Folder
folders_of path [] = []
folders_of path (e ∷ es) =
    let rest = folders_of path es in
    if not e.is_dir then rest else record { name = e.name; path = child_path path e.name } ∷ rest

abbrev pub folder_less : Folder → Folder → Bool
folder_less a b = before a.name b.name

unfoldable pub list_remote : Remotes → Text → Text → Handler
list_remote rc active path r s = elim (rc.list (active ++ (codes ":" ++ path))) [
  | none ↦ (json 502 ((codes "error", str (codes "원격 조회 실패 (연결을 확인하세요)")) ∷ []), s)
  | some raw ↦ (folders path (sort_slice folder_less (folders_of path raw)), s)
]

unfoldable pub handle_remote_ls : Remotes → Text → Handler
handle_remote_ls rc active r s =
    let path = tidy_path (r.query (codes "path")) in
    if same active []
    then (json 400 ((codes "error", str (codes "원격이 설정되지 않았습니다")) ∷ []), s)
    else if not (same path []) && not (valid_remote_path path)
    then (text 400 (codes "bad path"), s)
    else list_remote rc active path r s

-- The active remote where the request names none.
abbrev pub remote_or : Text → Text → Text
remote_or active remote = if same remote [] then active else remote

-- The look at a destination: whether it answers, and whether it has a repository.
unfoldable pub look : Remotes → Text → Text → Handler
look rc remote path r s =
    let reachable = rc.connected remote in
    (
      json 200 (
          (codes "reachable", flag reachable)
          ∷ (codes "hasRepo", flag (reachable && rc.has_repo (repo_url_on remote path)))
          ∷ []),
      s,
    )

unfoldable pub handle_remote_target : Remotes → Option Text → Text → Handler
handle_remote_target rc conf active r s =
    let remote = remote_or active (trim_space (r.query (codes "remote"))) in
    let path = tidy_path (r.query (codes "path")) in
    if not (valid_remote_name conf remote) || (not (same path []) && not (valid_remote_path path))
    then (text 400 (codes "bad params"), s)
    else look rc remote path r s

module _ (env : Env) (rc : Remotes) where
  -- The part behind the check of the URL.
  unfoldable pub send_test : Text → Handler
  send_test u r s =
      let s₁ = record s { called = posted_to u ∷ s.called } in
      elim (send_webhook_test rc u) [
        | some e ↦ (
          json 200 ((codes "ok", flag false) ∷ (codes "error", str (redact e)) ∷ []),
          audited env r (codes "alert-webhook-test") (codes "fail") s₁,
        )
        | none ↦ (
          json 200 ((codes "ok", flag true) ∷ []),
          audited env r (codes "alert-webhook-test") (codes "ok") s₁,
        )
      ]

  unfoldable pub test_webhook : Text → Handler
  test_webhook url r s =
      if not (valid_webhook_url (trim_space url))
      then (
        json 200 ((codes "ok", flag false) ∷ (codes "error", str (codes "URL 형식이 올바르지 않습니다")) ∷ []),
        s,
      )
      else send_test (trim_space url) r s

  unfoldable pub handle_alert_webhook_test : Option Text → Handler
  handle_alert_webhook_test body = post_only env body test_webhook
