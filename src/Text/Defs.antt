-- ===== src/Text/Defs.antt =====
-- The text functions, as package strings documents them.
use Prim.Native.Char.{code}
use Prim.Native.String.{String}
use oracle_backup.Base.{
  ℕ, ◌+◌, Bool, true, false, ◌&&◌, ◌||◌, List, [], ◌∷◌, ltb, leb, ◌==◌, if◌then◌else◌,
}

abbrev pub Text : Type 0
Text = List ℕ

-- The code points of a literal.
abbrev pub codes : String → Text
codes String.[] = []
codes (String.◌∷◌ c s) = code c ∷ codes s

-- `s == t`
unfoldable pub same : Text → Text → Bool
same [] [] = true
same (a ∷ s) (b ∷ t) = a == b && same s t
same _ _ = false

-- `strings.HasPrefix(s, prefix)`
unfoldable pub has_prefix : Text → Text → Bool
has_prefix s [] = true
has_prefix [] (p ∷ ps) = false
has_prefix (c ∷ s) (p ∷ ps) = c == p && has_prefix s ps

-- `strings.Contains(s, sub)`
unfoldable pub contains : Text → Text → Bool
contains [] sub = has_prefix [] sub
contains (c ∷ s) sub = has_prefix (c ∷ s) sub || contains s sub

-- `strings.HasSuffix(s, suffix)`
unfoldable pub has_suffix : Text → Text → Bool
has_suffix [] suffix = same [] suffix
has_suffix (c ∷ s) suffix = same (c ∷ s) suffix || has_suffix s suffix

-- Membership of a code point in a text.
unfoldable pub elem : ℕ → Text → Bool
elem c [] = false
elem c (d ∷ s) = c == d || elem c s

-- `strings.ContainsAny(s, chars)`
unfoldable pub contains_any : Text → Text → Bool
contains_any [] chars = false
contains_any (c ∷ s) chars = elem c chars || contains_any s chars

-- `unicode.IsSpace`
unfoldable pub is_space : ℕ → Bool
is_space c =
    (leb 9 c && leb c 13)
    || c == 32
    || c == 0x85
    || c == 0xa0
    || c == 0x1680
    || (leb 0x2000 c && leb c 0x200a)
    || c == 0x2028
    || c == 0x2029
    || c == 0x202f
    || c == 0x205f
    || c == 0x3000

-- `strings.TrimLeftFunc(s, drop)`
unfoldable pub trim_left : (ℕ → Bool) → Text → Text
trim_left drop [] = []
trim_left drop (c ∷ s) = let rest = trim_left drop s in if drop c then rest else c ∷ s

-- One rune in front of a text that is already trimmed on the right.
unfoldable pub keep_left : (ℕ → Bool) → ℕ → Text → Text
keep_left drop c [] = if drop c then [] else c ∷ []
keep_left drop c (d ∷ s) = c ∷ d ∷ s

-- `strings.TrimRightFunc(s, drop)`
unfoldable pub trim_right : (ℕ → Bool) → Text → Text
unfolding keep_left
trim_right drop [] = []
trim_right drop (c ∷ s) = keep_left drop c (trim_right drop s)

-- `strings.TrimFunc(s, drop)`; `strings.Trim(s, cutset)` is `trim (λ c. elem c cutset) s`.
unfoldable pub trim : (ℕ → Bool) → Text → Text
unfolding trim_left trim_right
trim drop s = trim_right drop (trim_left drop s)

-- `strings.TrimSpace`
unfoldable pub trim_space : Text → Text
unfolding trim is_space
trim_space s = trim is_space s

-- Put a rune in front of the first part of a split.
unfoldable pub push_front : ℕ → List Text → List Text
push_front c [] = (c ∷ []) ∷ []
push_front c (part ∷ parts) = (c ∷ part) ∷ parts

-- `strings.Split(s, sep)` at a separator of one rune: always at least one part.
unfoldable pub split : ℕ → Text → List Text
unfolding push_front
split sep [] = [] ∷ []
split sep (c ∷ s) = let parts = split sep s in if c == sep then [] ∷ parts else push_front c parts

-- Close a field, unless it is empty.
unfoldable pub flush : Text → List Text → List Text
flush [] fields = fields
flush (c ∷ s) fields = (c ∷ s) ∷ fields

-- The fields of `strings.Fields(s)`: the text of the field that is open, then the closed ones.
unfoldable pub fields_open : Text → Text × List Text
unfolding flush is_space
fields_open [] = ([], [])
fields_open (c ∷ s) =
    let (cur, rest) = fields_open s in if is_space c then ([], flush cur rest) else (c ∷ cur, rest)

-- `strings.Fields(s)`
unfoldable pub fields : Text → List Text
unfolding fields_open
fields s = let (cur, rest) = fields_open s in flush cur rest

-- A rune below 0x20, or 0x7f.
abbrev pub is_control : ℕ → Bool
is_control c = ltb c 0x20 || c == 0x7f

-- The bytes of a rune in UTF-8.
abbrev pub rune_len : ℕ → ℕ
rune_len c = if ltb c 0x80 then 1 else if ltb c 0x800 then 2 else if ltb c 0x10000 then 3 else 4

-- `len(s)`
unfoldable pub byte_len : Text → ℕ
byte_len [] = 0
byte_len (c ∷ s) = rune_len c + byte_len s

-- An ASCII letter, digit, `_`, `.` or `-`: the class `[A-Za-z0-9_.-]`.
unfoldable pub is_ident : ℕ → Bool
is_ident c =
    (leb b'A' c && leb c b'Z')
    || (leb b'a' c && leb c b'z')
    || (leb b'0' c && leb c b'9')
    || c == b'_'
    || c == b'.'
    || c == b'-'
