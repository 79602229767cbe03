-- ===== src/Text/Redact.antt =====
-- engine/web/redact.go: the credentials in rest: URLs are masked. The pattern
-- `(rest:https?://)[^:@/]+:[^@/]+@` has one way at most to match at a position, since each of its
-- repeated classes excludes the rune that follows it.
use oracle_backup.Base.{
  ℕ, zero, suc, ◌+◌, [], ◌∷◌, ◌++◌, Option, none, some, ◌==◌, if◌then◌else◌, drop, length,
}
use oracle_backup.Text.Defs.{Text, codes, has_prefix, elem}

-- The scheme that stands at the head of a text: group 1 of the pattern.
unfoldable pub scheme : Text → Option Text
unfolding has_prefix
scheme s =
    if has_prefix s (codes "rest:http://")
    then some (codes "rest:http://")
    else if has_prefix s (codes "rest:https://")
    then some (codes "rest:https://")
    else none

-- `[^…]+` and the rune `end` behind it: how many runes both take, and what follows.
unfoldable pub span_to : Text → ℕ → ℕ → Text → Option (ℕ × Text)
span_to stops end taken [] = none
span_to stops end taken (c ∷ s) =
    let rest = span_to stops end (suc taken) s in
    if c == end
    then (elim taken [ zero ↦ none | suc n ↦ some (suc (suc n), s) ])
    else if elem c stops
    then none
    else rest

-- Group 1 and the length of the match, if the pattern matches at the head of the text.
unfoldable pub match_cred : Text → Option (Text × ℕ)
unfolding scheme span_to elem
match_cred s = elim (scheme s) [
  | none ↦ none
  | some g ↦ elim (span_to (codes ":@/") b':' 0 (drop (length g) s)) [
    | none ↦ none
    | some (n, t) ↦ elim (span_to (codes "@/") b'@' 0 t) [
      | none ↦ none
      | some (m, u) ↦ some (g, length g + n + m)
    ]
  ]
]

abbrev pub mask : Text
mask = codes "***:***@"

-- `skip` runes are left of the match that was replaced last.
unfoldable pub redact_from : ℕ → Text → Text
unfolding match_cred
redact_from skip [] = []
redact_from (suc skip) (c ∷ s) = redact_from skip s
redact_from zero (c ∷ s) = elim (match_cred (c ∷ s)) [
  | none ↦ c ∷ redact_from zero s
  | some (g, zero) ↦ c ∷ redact_from zero s
  | some (g, suc n) ↦ g ++ (mask ++ redact_from n s)
]

-- `Redact`
unfoldable pub redact : Text → Text
unfolding redact_from
redact s = redact_from 0 s
