-- ===== src/Web/Remotes.antt =====
-- The rclone handlers of api.go: the list of remotes, the form for a new one, the command line and
-- the GUI's switch.
use oracle_backup.Base.{
  ℕ, Bool, true, false, not, ◌&&◌, ◌||◌, List, [], ◌∷◌, ◌++◌, Option, none, some, all, length, ltb,
  ◌==◌, if◌then◌else◌,
}
use oracle_backup.Text.{
  Text, codes, same, split, trim_space, has_prefix, has_suffix, contains_any, is_ident, redact,
}
use oracle_backup.Inputs.DbJobs.{has_key}
use oracle_backup.Migrate.Remote.{between_brackets}
use oracle_backup.Rclone.Cli.{
  Verdict, runs, no_command, not_allowed, interactive, judge_command, split_args,
}
use oracle_backup.Rclone.Engine.{Docker, create_remote, run_rclone_cli, rclone_gui_running}
use oracle_backup.Rclone.Gui.{Gui, rg_name, start_rclone_gui, stop_rclone_gui}
use oracle_backup.Web.Request.{
  RemoteInfo, Env, str, flag, text, json, remotes, Handler, check_csrf, audited,
}
use oracle_backup.Web.Settings.{is_method}
use oracle_backup.Web.Posts.{post_only}

-- `t[i+1:]` behind the first "=" of t, if there is one.
unfoldable pub behind_equals : Text → Option Text
behind_equals [] = none
behind_equals (c ∷ t) = let rest = behind_equals t in if c == b'=' then some t else rest

-- `out[idx].Type = ...`, idx being the last index.
unfoldable pub set_last_type : Text → List RemoteInfo → List RemoteInfo
set_last_type t [] = []
set_last_type t (i ∷ []) = record i { type = t } ∷ []
set_last_type t (i ∷ j ∷ is') = i ∷ set_last_type t (j ∷ is')

abbrev pub with_type : Option Text → List RemoteInfo → List RemoteInfo
with_type none out = out
with_type (some t) out = set_last_type (trim_space t) out

abbrev pub header_remote : Text → Text → RemoteInfo
header_remote active name = record { name = name; type = []; active = same name active }

-- One round of the loop over the lines, for the active remote's name.
unfoldable pub remote_line : Text → List RemoteInfo → Text → List RemoteInfo
remote_line active out line =
    let t = trim_space line in
    if has_prefix t (codes "[") && has_suffix t (codes "]")
    then out ++ (header_remote active (trim_space (between_brackets t)) ∷ [])
    else if has_prefix t (codes "type")
    then with_type (behind_equals t) out
    else out

unfoldable pub remote_lines : Text → List RemoteInfo → List Text → List RemoteInfo
remote_lines active out [] = out
remote_lines active out (line ∷ lines) = remote_lines active (remote_line active out line) lines

-- `conf` is rclone.conf, `none` where it cannot be read; `active` is REMOTE_NAME.
unfoldable pub configured_remotes : Text → Option Text → List RemoteInfo
configured_remotes active none = []
configured_remotes active (some conf) = remote_lines active [] (split 10 conf)

unfoldable pub handle_rclone_remotes : Text → Option Text → Handler
handle_rclone_remotes active conf r s = (remotes (configured_remotes active conf), s)

-- The keys that a backend takes, `none` for a type that is not in the map.
unfoldable pub rclone_backend : Text → Option (List Text)
rclone_backend typ =
    if same typ (codes "webdav")
    then some (codes "url" ∷ codes "vendor" ∷ codes "user" ∷ codes "pass" ∷ [])
    else if same typ (codes "sftp")
    then some (codes "host" ∷ codes "user" ∷ codes "pass" ∷ codes "port" ∷ [])
    else if same typ (codes "ftp")
    then some (codes "host" ∷ codes "user" ∷ codes "pass" ∷ codes "port" ∷ [])
    else if same typ (codes "s3")
    then some (
        codes "provider"
        ∷ codes "access_key_id"
        ∷ codes "secret_access_key"
        ∷ codes "endpoint"
        ∷ codes "region"
        ∷ [])
    else none

-- `params` are the entries of the map in the order in which its loop meets them.
pub record AddBody : Type 0 where
  pub name : Text
  pub type : Text
  pub params : List (Text × Text)

-- What is wrong with the form, `none` for nothing.
pub data AddError : Type 0 where
  bad_name bad_type bad_value : AddError
  bad_key : Text → AddError

unfoldable pub check_params : List Text → List (Text × Text) → Option AddError
check_params allowed [] = none
check_params allowed ((k, v) ∷ ps) =
    let rest = check_params allowed ps in
    if not (has_key allowed k)
    then some (bad_key k)
    else if contains_any v (10 ∷ 13 ∷ [])
    then some bad_value
    else rest

-- The name has no rune outside ASCII, so its runes are its bytes.
unfoldable pub check_add : AddBody → Option AddError
check_add b =
    if same b.name [] || not (all is_ident b.name) || ltb 64 (length b.name)
    then some bad_name
    else elim (rclone_backend b.type) [
      | none ↦ some bad_type
      | some allowed ↦ check_params allowed b.params
    ]

abbrev pub add_message : AddError → Text
add_message bad_name = codes "이름은 영문/숫자/_-. 만 가능"
add_message bad_type = codes "지원하지 않는 유형"
add_message bad_value = codes "값에 줄바꿈 불가"
add_message (bad_key k) = codes "허용되지 않은 항목: " ++ k

pub record ActionBody : Type 0 where
  pub action : Text

abbrev pub wizard_help : Text
wizard_help =
    codes
      "대화형 'rclone config' 마법사는 단계별 입력이 필요해 이 CLI에서는 실행할 수 없습니다.\n한 줄 명령을 쓰세요: config create / update / delete / show / dump / redacted / providers\n예) config create mynas webdav url=https://nas:5006 vendor=other user=U pass=P\n또는 '목적지 추가' 폼(간편) 이나 'rclone 설정 열기'(GUI)를 이용하세요."

module _ (env : Env) (d : Docker) where
  -- The part behind the checks of the form.
  unfoldable pub add_remote : AddBody → Handler
  add_remote b r s =
      let (err, calls) = create_remote d b.name b.type b.params s.called in
      let s₁ = record s { called = calls } in
      elim err [
        | some e ↦ (
          json 500 ((codes "error", str (redact e)) ∷ []),
          audited env r (codes "rclone-add") (codes "fail") s₁,
        )
        | none ↦ (
          json 200 ((codes "status", str (codes "created")) ∷ (codes "name", str b.name) ∷ []),
          audited env r (codes "rclone-add") (codes "ok") s₁,
        )
      ]

  unfoldable pub checked_add : AddBody → Handler
  checked_add b r s = elim (check_add b) [
    | some e ↦ (text 400 (add_message e), s)
    | none ↦ add_remote b r s
  ]

  unfoldable pub handle_rclone_add : Option AddBody → Handler
  handle_rclone_add body = post_only env body checked_add

  unfoldable pub run_verdict : Text → Verdict → Handler
  run_verdict cmd no_command r s = (text 400 (codes "명령을 입력하세요"), s)
  run_verdict cmd (not_allowed sub) r s =
      (text 400 (codes "허용되지 않은 명령: " ++ (sub ++ codes " (조회·설정 명령만 가능; 삭제/전송류 차단)")), s)
  run_verdict cmd interactive r s = (text 400 wizard_help, s)
  run_verdict cmd (runs sub) r s =
      let (out, calls) = run_rclone_cli d (split_args (trim_space cmd)) s.called in
      (
        json 200 ((codes "output", str out) ∷ []),
        audited env r (codes "rclone-cli:" ++ sub) (codes "run") (record s { called = calls }),
      )

  unfoldable pub handle_rclone_cli : Option Text → Handler
  handle_rclone_cli body = post_only env body (λ cmd. run_verdict cmd (judge_command cmd))

  -- The answer to a switch, audited under the action's name.
  unfoldable pub gui_answer : Text → Bool → Option Text × Gui → Handler
  gui_answer action running (some e, gui) r s = (
    json 500 ((codes "error", str e) ∷ []),
    audited env r action (codes "fail") (record s { gui = gui }),
  )
  gui_answer action running (none, gui) r s = (
    json 200 ((codes "running", flag running) ∷ []),
    audited env r action (codes "ok") (record s { gui = gui }),
  )

  unfoldable pub switch_gui : ℕ → Text → Handler
  switch_gui now action r s =
      if same action (codes "start")
      then gui_answer (codes "rclone-gui-start") true (start_rclone_gui d now s.gui) r s
      else if same action (codes "stop")
      then gui_answer (codes "rclone-gui-stop") false (stop_rclone_gui d s.gui) r s
      else (text 400 (codes "bad action"), s)

  -- A body that does not decode leaves the action that was read.
  unfoldable pub handle_rclone_gui : ℕ → ActionBody → Handler
  handle_rclone_gui now body r s =
      if is_method (codes "GET") r
      then (json 200 ((codes "running", flag (rclone_gui_running d rg_name)) ∷ []), s)
      else if not (is_method (codes "POST") r)
      then (text 405 (codes "method"), s)
      else if not (check_csrf env r)
      then (text 403 (codes "csrf"), s)
      else switch_gui now body.action r s
