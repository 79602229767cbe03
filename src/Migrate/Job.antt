-- ===== src/Migrate/Job.antt =====
-- `run`: the migration itself, with the answers of the commands and writes as arguments.
use oracle_backup.Base.{
  ℕ, Bool, true, false, List, [], ◌∷◌, ◌++◌, Option, none, some, ◌==◌, if◌then◌else◌,
}
use oracle_backup.Text.{Text, codes, format_nat}
use oracle_backup.Migrate.Remote.{Mode, adopt, move, migrate_mode, repo_url_on}
use oracle_backup.Migrate.Status.{
  Phase, preflight, copy, verify, switch, cleanup, done, Effect, copied, wrote_name, wrote_path,
  set_env, purged, World, persist, set_phase, set_stats, set_mode, fail,
}

-- `snapshotCount`: the number, or the error's text.
pub data Counted : Type 0 where
  counted : ℕ → Counted
  uncounted : Text → Counted

-- What rclone, restic and the file system answer when they are asked, in the order of `run`. An
-- error is its text.
pub record Answers : Type 0 where
  pub connected : Bool  -- `remoteConnectedOn(toRemote)`
  pub to_exists : Bool  -- `repoExists(toRepo)` before the copy
  pub from_exists : Bool  -- `repoExists(fromRepo)`
  pub old_count : Counted
  pub copy_lines : List Text  -- stderr of `rclone copy`, a trimmed line each
  pub copy_error : Option Text
  pub to_opens : Bool  -- `repoExists(toRepo)` behind the copy
  pub new_count : Counted
  pub name_error : Option Text  -- `writeRemoteName`
  pub path_error : Option Text  -- `writeRemotePath`
  pub purge_error : Option Text

-- A part of `run`: `none` where `run` has returned.
abbrev pub M : Type 0 → Type 0
M A = World → Option A × World

abbrev pub bind : {A B : Type 0} → (A → M B) → Option A × World → Option B × World
bind f (none, w) = (none, w)
bind f (some a, w) = f a w

infixl 5 ◌>>=◌ ◌>>◌
abbrev pub ◌>>=◌ : {A B : Type 0} → M A → (A → M B) → M B
◌>>=◌ m f w = bind f (m w)

abbrev pub ◌>>◌ : {B : Type 0} → M (Unit {0}) → M B → M B
m >> k = m >>= λ _. k

abbrev pub ok : {A : Type 0} → A → M A
ok a w = (some a, w)

abbrev pub say : (World → World) → M (Unit {0})
say change w = (some tt, change w)

abbrev pub did : Effect → World → World
did e w = record w { effects = e ∷ w.effects }

-- `oldCount, _ :=`: 0 with an error.
abbrev pub count_or_zero : Counted → ℕ
count_or_zero (counted n) = n
count_or_zero (uncounted e) = 0

-- Each line of rclone's progress becomes the status text.
unfoldable pub all_stats : (ℕ → ℕ) → List Text → World → World
all_stats clock [] w = w
all_stats clock (line ∷ lines) w = all_stats clock lines (set_stats clock line w)

-- `remote:path`: `src` and `dst`
abbrev pub place : Text → Text → Text
place remote path = remote ++ (codes ":" ++ path)

module _ (clock : ℕ → ℕ) (a : Answers) (from_remote from_path to_remote to_path : Text) where
  -- `m.fail(…); return`
  abbrev pub stop : {A : Type 0} → Text → M A
  stop message w = (none, fail clock message w)

  -- `if !b { fail; return }`
  abbrev pub require : Bool → Text → M (Unit {0})
  require true message = ok tt
  require false message = stop message

  -- `if err != nil { fail; return }`
  abbrev pub check : Option Text → Text → M (Unit {0})
  check none prefix = ok tt
  check (some e) prefix = stop (prefix ++ e)

  abbrev pub number : Counted → Text → M ℕ
  number (counted n) prefix = ok n
  number (uncounted e) prefix = stop (prefix ++ e)

  abbrev pub phase : Phase → M (Unit {0})
  phase p = say (set_phase clock p)

  abbrev pub choose : Option Mode → M Mode
  choose none = stop (codes "대상 원격에 연결할 수 없습니다")
  choose (some m) = do say (set_mode clock m); ok m

  unfoldable pub choose_mode : M Mode
  unfolding set_phase set_mode fail
  choose_mode = do phase preflight; choose (migrate_mode a.connected a.to_exists)

  unfoldable pub copy_and_verify : M Bool
  unfolding set_phase fail
  copy_and_verify = do
    phase copy
    say (all_stats clock a.copy_lines)
    check a.copy_error (codes "복사 실패: ")
    say (did (copied (place from_remote from_path) (place to_remote to_path)))
    phase verify
    require a.to_opens (codes "검증 실패: 새 위치에서 저장소를 열 수 없습니다")
    new ← number a.new_count (codes "검증 실패: 스냅샷 조회 오류: ")
    require (new == count_or_zero a.old_count) (
        codes "검증 실패: 스냅샷 개수 불일치 (원본 "
        ++ (format_nat (count_or_zero a.old_count)
            ++ (codes ", 사본 " ++ (format_nat new ++ codes ")"))))
    ok true

  -- Whether the repository was copied.
  unfoldable pub transfer : Mode → M Bool
  transfer adopt = ok false
  transfer move = if a.from_exists then copy_and_verify else ok false

  unfoldable pub switch_over : M (Unit {0})
  unfolding set_phase fail
  switch_over = do
    phase switch
    check a.name_error (codes "원격 전환 실패: ")
    say λ w. did (wrote_name to_remote) (record w { name_file = some (to_remote ++ 10 ∷ []) })
    check a.path_error (codes "경로 전환 실패: ")
    say λ w. did (wrote_path to_path) (record w { path_file = some (to_path ++ 10 ∷ []) })
    say λ w. did (set_env (codes "REMOTE_NAME") to_remote) (record w { remote_name = to_remote })
    say λ w.
        did (set_env (codes "RESTIC_REPOSITORY") (repo_url_on to_remote to_path))
          (record w { repository = repo_url_on to_remote to_path })

  -- An error of the purge is a warning in the status; it leaves `updated` alone.
  unfoldable pub purge_source : Option Text → World → World
  purge_source none w = did (purged (place from_remote from_path)) w
  purge_source (some e) w =
      persist (record w { status = record (w.status) { error = codes "원본 삭제 경고(전환은 완료됨): " ++ e } })

  unfoldable pub clean_up : Bool → M (Unit {0})
  unfolding set_phase purge_source
  clean_up false = ok tt
  clean_up true = do phase cleanup; say (purge_source a.purge_error)

  -- The result is `some` where the last line is reached.
  unfoldable pub run : M (Unit {0})
  run = do mode ← choose_mode; moved ← transfer mode; switch_over; clean_up moved; phase done
