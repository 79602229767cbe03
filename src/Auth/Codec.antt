-- ===== src/Auth/Codec.antt =====
-- A small codec, for the witnesses. It leaves out the separator by moving every code from it on up by
-- one.
use oracle_backup.Base.{
  ℕ, suc, ◌-◌, false, ◌≡◌, refl, [], ◌∷◌, Option, none, some, arith, ltb, ◌==◌, if◌then◌else◌,
}
use oracle_backup.Text.{Text, elem}
use oracle_backup.Auth.Session.{bar}

abbrev pub encode : Text → Text
encode [] = []
encode (c ∷ s) = (if ltb c bar then c else suc c) ∷ encode s

abbrev pub put : ℕ → Option Text → Option Text
put c none = none
put c (some s) = some (c ∷ s)

abbrev pub decode : Text → Option Text
decode [] = some []
decode (c ∷ s) = if c == bar then none else put (if ltb c bar then c else c - 1) (decode s)

pub decode-encode : (t : Text) → decode (encode t) ≡ some t
decode-encode [] = refl
decode-encode (c ∷ s) = rw (decode-encode s) (ground arith)

pub encode_no_bar : (t : Text) → elem bar (encode t) ≡ false
unfolding elem
encode_no_bar [] = refl
encode_no_bar (c ∷ s) = ground (arith, encode_no_bar s)
