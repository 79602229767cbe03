-- ===== src/Collector/Summary.antt =====
-- `ParseBackupSummary`. What `json.Unmarshal` makes of a line is an argument.
use oracle_backup.Base.{
  ◌*◌, true, false, ◌≡◌, refl, ap, ◌⊎◌, inl, inr, List, [], ◌∷◌, ◌++◌, Option, none, some, arith,
  if◌then◌else◌, Bool-cases, Option-cases, All,
}
use oracle_backup.Base.Int.{ℤ, pos}
use oracle_backup.Text.{Text, codes, same, scan_lines}

pub record BackupSummary : Type 0 where
  pub message_type : Text
  pub data_added : ℤ
  pub total_bytes : ℤ
  pub snapshot_id : Text

abbrev pub summary_type : Text
summary_type = codes "summary"

-- The zero value of the struct.
abbrev pub no_summary : BackupSummary
no_summary = record { message_type = []; data_added = pos 0; total_bytes = pos 0; snapshot_id = [] }

-- The summary and a nil error, or the error.
pub data Parsed : Type 0 where
  found : BackupSummary → Parsed
  missing : Parsed

module _ (decode : Text → Option BackupSummary) where
  -- One round of the loop; the state is `sum` and `found`.
  unfoldable pub summary_step : Text → Option BackupSummary → Option BackupSummary
  summary_step line last = elim (decode line) [
    | none ↦ last
    | some o ↦ if same o.message_type summary_type then some o else last
  ]

  unfoldable pub summary_loop : List Text → Option BackupSummary → Option BackupSummary
  unfolding summary_step
  summary_loop [] last = last
  summary_loop (line ∷ lines) last = summary_loop lines (summary_step line last)

  unfoldable pub parse_backup_summary : Text → Parsed
  unfolding summary_loop scan_lines
  parse_backup_summary stdout = elim (summary_loop (scan_lines (8 * 1024 * 1024) stdout) none) [
    | none ↦ missing
    | some o ↦ found o
  ]

  -- A line that is a summary object.
  abbrev pub IsSummary : Text → BackupSummary → Type 0
  IsSummary line o = (decode line ≡ some o) × (same o.message_type summary_type ≡ true)

  -- No summary object is made of the line.
  abbrev pub NoSummary : Text → Type 0
  NoSummary line =
      (o : BackupSummary) → decode line ≡ some o → same o.message_type summary_type ≡ false

  -- The lines hold a last summary object `o`.
  abbrev pub HasLast : List Text → BackupSummary → Type 0
  HasLast lines o =
      (pre : List Text) × (line : Text) × (post : List Text) × (lines ≡ pre ++ line ∷ post)
      × IsSummary line o
      × All NoSummary post

  abbrev Looped : List Text → Option BackupSummary → Option BackupSummary → Type 0
  Looped lines last r =
      (All NoSummary lines × (r ≡ last)) ⊎ ((o : BackupSummary) × HasLast lines o × (r ≡ some o))

  HasLast-cons :
      (line : Text) (lines : List Text) (o : BackupSummary)
      → HasLast lines o
      → HasLast (line ∷ lines) o
  HasLast-cons line lines o (pre, l, post, e, is, not) =
      (line ∷ pre, l, post, ap (◌∷◌ line) e, is, not)

  -- One line in front of lines that hold no summary object.
  Looped-cons :
      (line : Text) (lines : List Text) (last : Option BackupSummary)
      → All NoSummary lines
      → Looped (line ∷ lines) last (summary_step line last)
  unfolding summary_step
  Looped-cons line lines last h = elim (Option-cases (decode line)) [
    | inl e ↦ inl ((λ o q. cc, h), rw (e, summary_step))
    | inr (o, e) ↦ elim (Bool-cases (same o.message_type summary_type)) [
      | inl y ↦ inr (o, ([], line, lines, refl, (e, y), h), rw (e, summary_step, y))
      | inr n ↦ inl ((λ q r. ground arith, h), rw (e, summary_step, n))
    ]
  ]

  summary_loop-Looped :
      (lines : List Text) (last : Option BackupSummary)
      → Looped lines last (summary_loop lines last)
  unfolding summary_loop
  summary_loop-Looped [] last = inl (tt, refl)
  summary_loop-Looped (line ∷ lines) last =
      elim (summary_loop-Looped lines (summary_step line last)) [
        | inl (h, e) ↦ rw e (Looped-cons line lines last h)
        | inr (o, h, e) ↦ inr (o, HasLast-cons line lines o h, e)
      ]

  -- The summary that is returned is the last summary object among the scanned lines; the error is
  -- returned when no scanned line is a summary object.
  pub parse_backup_summary_last :
      (stdout : Text)
      → let lines = scan_lines (8 * 1024 * 1024) stdout in
        ((parse_backup_summary stdout ≡ missing) × All NoSummary lines)
        ⊎ ((o : BackupSummary) × (parse_backup_summary stdout ≡ found o) × HasLast lines o)
  unfolding parse_backup_summary
  parse_backup_summary_last stdout =
      elim (summary_loop-Looped (scan_lines (8 * 1024 * 1024) stdout) none) [
        | inl (h, e) ↦ inl (rw (e, parse_backup_summary), h)
        | inr (o, h, e) ↦ inr (o, rw (e, parse_backup_summary), h)
      ]
