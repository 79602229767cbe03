-- ===== src/Web/Streams.antt =====
-- The download of a restore and the proxy of the rclone GUI, `handleRestoreDownload` and
-- `handleRcloneGUIProxy` of api.go.
use oracle_backup.Base.{
  Bool, true, false, not, ◌||◌, List, [], ◌∷◌, ◌++◌, Option, none, some, if◌then◌else◌,
}
use oracle_backup.Text.{Text, codes, same}
use oracle_backup.Runner.Calls.{proxied}
use oracle_backup.Web.Request.{Request, Env, Response, text, archive, Handler, audited}

-- What the walk tells of one path: its place under the root, `none` for an error on the way, the
-- header, and the bytes, `none` where the file does not open.
pub record Walked : Type 0 where
  pub rel : Option Text
  pub is_dir : Bool
  pub is_regular : Bool
  pub has_header : Bool
  pub write_fails : Bool
  pub bytes : Option Text

abbrev pub entry_name : Bool → Text → Text
entry_name is_dir rel = if is_dir then rel ++ codes "/" else rel

abbrev pub entry_bytes : Bool → Option Text → Text
entry_bytes false bytes = []
entry_bytes true none = []
entry_bytes true (some b) = b

-- The entries of the archive: a path that fails before its header is left out, and a header that
-- cannot be written ends the walk.
unfoldable pub archived : List Walked → List (Text × Text)
archived [] = []
archived (w ∷ ws) =
    let rest = archived ws in
    elim w.rel [
      | none ↦ rest
      | some rel ↦
          if same rel (codes ".") || not w.has_header
          then rest
          else if w.write_fails
          then []
          else (entry_name w.is_dir rel, entry_bytes w.is_regular w.bytes) ∷ rest
    ]

abbrev pub is_empty : Option (List Text) → Bool
is_empty none = true
is_empty (some []) = true
is_empty (some (e ∷ es)) = false

-- `entries` is what `os.ReadDir` answers for the root. Errors of the walk are dropped.
unfoldable pub handle_restore_download : Env → Option (List Text) → List Walked → Handler
handle_restore_download env entries walked r s =
    if is_empty entries
    then (text 404 (codes "복원 결과가 없습니다"), s)
    else (archive (archived walked), audited env r (codes "restore-download") (codes "ok") s)

-- `forward` is what the proxied GUI answers, its two frame headers dropped.
unfoldable pub handle_rclone_gui_proxy : (Request → Response) → Handler
handle_rclone_gui_proxy forward r s =
    if not s.gui.active
    then (text 503 (codes "rclone 설정 화면이 실행 중이 아닙니다"), s)
    else (forward r, record s { called = proxied r.method r.path ∷ s.called })
