-- ===== src/Config/File.antt =====
-- The whole file: what `Save` writes, split by the scanner of `LoadConfig`.
use oracle_backup.Base.{◌<◌, false, ◌≡◌, refl, ap, ◌∙◌, List, [], ◌∷◌, ◌++◌, map, some, arith, All}
use oracle_backup.Text.{
  Text, elem, split, split_at_first, byte_len, drop_last_empty, until_long, strip_cr, strip_all,
  scan_lines,
}
use oracle_backup.Config.Load.{Config, Raw, from_raw, max_line, load_config}
use oracle_backup.Config.Save.{set_all, save_line, save_lines, save_text}
use oracle_backup.Config.Line.{IsEntry, entered, load_lines-save_lines}

-- One line for the scanner: no line break in it, and shorter than the scanner's buffer.
pub record IsOneLine (l : Text) : Type 0 where
  pub no_newline : elem 10 l ≡ false
  pub no_return : elem 13 l ≡ false
  pub fits : byte_len l < max_line

split-save_lines :
    (raw : Raw) (os : List Text)
    → All (λ o. IsOneLine (save_line raw o)) os
    → split 10 (save_lines raw os) ≡ map (save_line raw) os ++ ([] ∷ [])
unfolding save_lines split
split-save_lines raw [] a = refl
split-save_lines raw (o ∷ os) (h, a) =
    split_at_first 10 (save_line raw o) (save_lines raw os) h.no_newline
    ∙ ap (◌∷◌ (save_line raw o)) (split-save_lines raw os a)

drop_last_empty-append : (ls : List Text) → drop_last_empty (ls ++ ([] ∷ [])) ≡ ls
unfolding drop_last_empty
drop_last_empty-append [] = refl
drop_last_empty-append ([] ∷ []) = refl
drop_last_empty-append ([] ∷ l ∷ ls) = ap (◌∷◌ []) (drop_last_empty-append (l ∷ ls))
drop_last_empty-append ((c ∷ l) ∷ ls) = ap (◌∷◌ (c ∷ l)) (drop_last_empty-append ls)

until_long-map :
    (raw : Raw) (os : List Text)
    → All (λ o. IsOneLine (save_line raw o)) os
    → until_long max_line (map (save_line raw) os) ≡ map (save_line raw) os
unfolding until_long
until_long-map raw [] a = refl
until_long-map raw (o ∷ os) (h, a) = ground (arith, h.fits, until_long-map raw os a)

strip_cr-plain : (l : Text) → elem 13 l ≡ false → strip_cr l ≡ l
unfolding strip_cr elem
strip_cr-plain [] h = refl
strip_cr-plain (c ∷ []) h = ground arith
strip_cr-plain (c ∷ d ∷ l) h = ap (◌∷◌ c) (strip_cr-plain (d ∷ l) (ground arith))

strip_all-map :
    (raw : Raw) (os : List Text)
    → All (λ o. IsOneLine (save_line raw o)) os
    → strip_all (map (save_line raw) os) ≡ map (save_line raw) os
unfolding strip_all
strip_all-map raw [] a = refl
strip_all-map raw (o ∷ os) (h, a) =
    rw (strip_cr-plain (save_line raw o) h.no_return, strip_all-map raw os a) refl

scan_lines-save_lines :
    (raw : Raw) (os : List Text)
    → All (λ o. IsOneLine (save_line raw o)) os
    → scan_lines max_line (save_lines raw os) ≡ map (save_line raw) os
unfolding scan_lines
scan_lines-save_lines raw os a =
    ap (λ x. strip_all (until_long max_line (drop_last_empty x))) (split-save_lines raw os a)
    ∙ ap (λ x. strip_all (until_long max_line x)) (drop_last_empty-append (map (save_line raw) os))
    ∙ ap strip_all (until_long-map raw os a)
    ∙ strip_all-map raw os a

map-keys :
    (raw : Raw) (es : List (Text × Text))
    → map (save_line raw) (map (λ e. e.0) es) ≡ map (λ e. save_line raw e.0) es
map-keys raw [] = refl
map-keys raw (e ∷ es) = ap (◌∷◌ (save_line raw e.0)) (map-keys raw es)

-- The file that is saved loads again, through the scanner: where the lines of a configuration that is
-- saved are those of some entries of its map, the loaded configuration is made of exactly these
-- entries, with their keys in the same order. A key is trimmed, not empty, has no `=` and is not a
-- comment; a value has no quotes and no white space at its ends, and may be empty or hold blanks; a
-- line that is saved has no line break in it and is shorter than 64 KiB.
pub load_config-save_text :
    (c : Config) (raw : Raw) (es : List (Text × Text))
    → set_all c ≡ (raw, map (λ e. e.0) es)
    → All (IsEntry raw) es
    → All (λ o. IsOneLine (save_line raw o)) (map (λ e. e.0) es)
    → load_config (some (save_text c)) ≡ some (from_raw (entered es []) (map (λ e. e.0) es))
unfolding load_config save_text
load_config-save_text c raw es h a b =
    let keys = map (λ e. e.0) es in
    let scanned = scan_lines-save_lines raw keys b ∙ map-keys raw es in
    let loaded = load_lines-save_lines raw es [] [] a in rw (h, scanned, loaded) refl
