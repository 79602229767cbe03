-- ===== src/Text/Lines.antt =====
-- The lines that a `bufio.Scanner` yields.
use oracle_backup.Base.{ℕ, List, [], ◌∷◌, ◌==◌, leb, if◌then◌else◌}
use oracle_backup.Text.Defs.{Text, split, byte_len}

-- No line is yielded for the empty text behind the last newline.
unfoldable pub drop_last_empty : List Text → List Text
drop_last_empty [] = []
drop_last_empty ([] ∷ []) = []
drop_last_empty (l ∷ ls) = l ∷ drop_last_empty ls

-- Scanning ends, with an error that the engine's callers do not read, at a line that fills the
-- scanner's buffer.
unfoldable pub until_long : ℕ → List Text → List Text
until_long most [] = []
until_long most (l ∷ ls) =
    let rest = until_long most ls in if leb most (byte_len l) then [] else l ∷ rest

-- A carriage return at the end of a line is dropped.
unfoldable pub strip_cr : Text → Text
strip_cr [] = []
strip_cr (c ∷ []) = if c == 13 then [] else c ∷ []
strip_cr (c ∷ d ∷ s) = c ∷ strip_cr (d ∷ s)

unfoldable pub strip_all : List Text → List Text
unfolding strip_cr
strip_all [] = []
strip_all (l ∷ ls) = strip_cr l ∷ strip_all ls

-- `bufio.NewScanner(…)` over the text with `most` bytes of buffer, `sc.Text()` of each `sc.Scan()`.
unfoldable pub scan_lines : ℕ → Text → List Text
unfolding strip_all until_long drop_last_empty split byte_len
scan_lines most s = strip_all (until_long most (drop_last_empty (split 10 s)))
