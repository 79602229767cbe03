-- ===== src/Auth/Session.antt =====
-- Session tokens. HMAC-SHA256 and the raw URL alphabet of base64 are parameters; a text that is
-- signed or decoded stands for its bytes.
use oracle_backup.Base.{
  ℕ, suc, ◌+◌, ◌-◌, ◌*◌, ◌%◌, ◌^◌, Bool, true, false, not, ◌&&◌, ◌||◌, List, [], ◌∷◌, ◌++◌, Option,
  none, some, ltb, leb, ◌==◌, if◌then◌else◌,
}
use oracle_backup.Base.Int.{ℤ, pos, negsuc, pos_part, neg_part, sub_ℕ, ltb_ℤ}
use oracle_backup.Text.{Text, codes, same, split, format_nat, parse_nat}

abbrev pub bar : ℕ
bar = b'|'

-- 12 hours, in seconds
abbrev pub session_ttl : ℕ
session_ttl = 12 * 3600

-- `%d` of an `int64`
unfoldable pub format_int : ℤ → Text
format_int (pos n) = format_nat n
format_int (negsuc n) = b'-' ∷ format_nat (suc n)

-- A value within the bounds of `int64`.
unfoldable pub bounded : Bool → Option ℕ → Option ℤ
bounded neg none = none
bounded false (some n) = if ltb n (2 ^ 63) then some (pos n) else none
bounded true (some n) = if leb n (2 ^ 63) then some (sub_ℕ 0 n) else none

-- `strconv.ParseInt(s, 10, 64)`: a sign and at least one digit; `none` is the error.
unfoldable pub parse_int : Text → Option ℤ
unfolding bounded
parse_int [] = none
parse_int (c ∷ s) =
    if c == b'-'
    then bounded true (parse_nat s)
    else bounded false (parse_nat (if c == b'+' then s else c ∷ s))

-- A number that is at least 0, read as the `int64` with its low 64 bits; `flip` is the bitwise not.
unfoldable pub low_bits : ℕ → ℤ
low_bits n = let m = n % 2 ^ 64 in if ltb m (2 ^ 63) then pos m else negsuc (2 ^ 64 - m - 1)

unfoldable pub wrap : ℤ → ℤ
unfolding low_bits
wrap (pos n) = low_bits n
wrap (negsuc n) = low_bits (2 ^ 64 - 1 - n % 2 ^ 64)

-- `now - issued`, as `int64` computes it.
unfoldable pub sub_int64 : ℤ → ℤ → ℤ
unfolding wrap
sub_int64 a b = wrap (sub_ℕ (pos_part a + neg_part b) (neg_part a + pos_part b))

-- `now-issued > sessionTTL || now < issued`
unfoldable pub is_stale : ℤ → ℤ → Bool
unfolding sub_int64
is_stale now issued = ltb_ℤ (pos session_ttl) (sub_int64 now issued) || ltb_ℤ now issued

-- `user|issued|ver`
abbrev pub message : Text → Text → Text → Text
message user issued ver = user ++ (bar ∷ (issued ++ (bar ∷ ver)))

-- The tag of an admin hash: the hexadecimal text of the first four bytes of a SHA-256 digest, which
-- is a parameter.
unfoldable pub session_version : (Text → Text) → Text → Text
session_version short_digest admin_hash = short_digest (codes "sessionver|" ++ admin_hash)

module _ (hmac : Text → Text → Text) (encode : Text → Text) (decode : Text → Option Text) where
  -- The text of the signature of a message.
  abbrev pub signature : Text → Text → Text
  signature key msg = encode (hmac key msg)

  unfoldable pub sign_session : Text → ℤ → Text → Text → Text
  sign_session user issued ver key =
      let msg = message user (format_int issued) ver in encode (msg ++ (bar ∷ signature key msg))

  -- The part behind the tests of the signature and of the version.
  unfoldable pub check_age : Text → Option ℤ → ℤ → Option Text
  unfolding is_stale
  check_age user none now = none
  check_age user (some issued) now = if is_stale now issued then none else some user

  unfoldable pub check_parts : List Text → Text → ℤ → Text → Option Text
  unfolding check_age
  check_parts (user ∷ issued ∷ ver ∷ sig ∷ []) key now want_ver =
      if not (same sig (signature key (message user issued ver)))
      then none
      else if not (same want_ver []) && not (same ver want_ver)
      then none
      else check_age user (parse_int issued) now
  check_parts _ key now want_ver = none

  -- The user of an accepted token; `none` stands for `"", false`.
  unfoldable pub verify_session : Text → Text → ℤ → Text → Option Text
  unfolding check_parts
  verify_session tok key now want_ver = elim (decode tok) [
    | none ↦ none
    | some raw ↦ check_parts (split bar raw) key now want_ver
  ]
