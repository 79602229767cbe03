-- ===== src/Text/Decimal.antt =====
-- Decimal numbers: `%d`, `strconv.Itoa`, and the digits that `strconv.ParseInt` and `Atoi` read.
use oracle_backup.Base.{
  ℕ, zero, suc, ◌+◌, ◌-◌, ◌*◌, ◌/◌, ◌%◌, ◌<◌, Bool, true, false, ◌&&◌, ◌≡◌, refl, [], ◌∷◌, ◌++◌,
  Option, none, some, ltb, leb, if◌then◌else◌, arith, Bool-cases, inl, inr, ◌∙◌,
}
use oracle_backup.Text.Defs.{Text, elem}
use oracle_backup.Text.Laws.{elem-of-append}

-- The decimal digits of `n`, which `n + 1` rounds suffice for.
unfoldable pub digits : ℕ → ℕ → Text
digits zero n = []
digits (suc fuel) n =
    let more = digits fuel (n / 10) in
    if ltb n 10 then (b'0' + n) ∷ [] else more ++ (b'0' + n % 10) ∷ []

unfoldable pub format_nat : ℕ → Text
unfolding digits
format_nat n = digits (suc n) n

abbrev pub is_digit : ℕ → Bool
is_digit c = leb b'0' c && leb c b'9'

-- The value of a run of digits behind those that are read already.
unfoldable pub parse_digits : ℕ → Text → Option ℕ
parse_digits n [] = some n
parse_digits n (c ∷ s) =
    let rest = parse_digits (n * 10 + (c - b'0')) s in if is_digit c then rest else none

-- At least one digit.
unfoldable pub parse_nat : Text → Option ℕ
unfolding parse_digits
parse_nat [] = none
parse_nat (c ∷ s) = parse_digits 0 (c ∷ s)

parse_digits-append :
    (n : ℕ) (s : Text) (m : ℕ) (t : Text)
    → parse_digits n s ≡ some m
    → parse_digits n (s ++ t) ≡ parse_digits m t
unfolding parse_digits
parse_digits-append n [] m t e = ground arith
parse_digits-append n (c ∷ s) m t e =
    ground (arith, parse_digits-append (n * 10 + (c - b'0')) s m t)

digits_parse : (fuel n : ℕ) → n < fuel → parse_digits 0 (digits fuel n) ≡ some n
unfolding digits parse_digits
digits_parse zero n h = absurd (omega arith)
digits_parse (suc fuel) n h = elim (Bool-cases (ltb n 10)) [
  | inl small ↦ rw small (ground arith)
  | inr large ↦ rw large (
      parse_digits-append 0 (digits fuel (n / 10)) (n / 10) ((b'0' + n % 10) ∷ [])
        (digits_parse fuel (n / 10) (ground arith))
      ∙ ground arith)
]

digits-append_front :
    (fuel n : ℕ) → n < fuel → (c : ℕ) × (s : Text) × (digits fuel n ≡ c ∷ s) × (is_digit c ≡ true)
unfolding digits
digits-append_front zero n h = absurd (omega arith)
digits-append_front (suc fuel) n h = elim (Bool-cases (ltb n 10)) [
  | inl small ↦ (b'0' + n, [], rw small, ground arith)
  | inr large ↦
      let (c, s, e, d) = digits-append_front fuel (n / 10) (ground arith) in
      (c, s ++ (b'0' + n % 10) ∷ [], rw (large, e), d)
]

parse_nat_lem : (s : Text) (c : ℕ) (t : Text) → s ≡ c ∷ t → parse_nat s ≡ parse_digits 0 s
unfolding parse_nat
parse_nat_lem s c t e = rw e

-- A printed number starts with a digit, holds digits only, and is read back.
pub format_nat_lem :
    (n : ℕ)
    → (parse_nat (format_nat n) ≡ some n)
      × ((c : ℕ) × (s : Text) × (format_nat n ≡ c ∷ s) × (is_digit c ≡ true))
unfolding format_nat
format_nat_lem n =
    let (c, s, e, d) = digits-append_front (suc n) n (omega arith) in
    (parse_nat_lem _ c s e ∙ digits_parse (suc n) n (omega arith), (c, s, e, d))

digits-elem : (fuel n c : ℕ) → is_digit c ≡ false → elem c (digits fuel n) ≡ false
unfolding digits elem
digits-elem zero n c h = refl
digits-elem (suc fuel) n c h = elim (Bool-cases (ltb n 10)) [
  | inl small ↦ rw small (ground arith)
  | inr large ↦
      rw
        (
          large,
          elem-of-append c (digits fuel (n / 10)) ((b'0' + n % 10) ∷ []),
          digits-elem fuel (n / 10) c h,
        )
        (ground arith)
]

-- A printed number holds nothing but digits.
pub format_nat-elem : (n c : ℕ) → is_digit c ≡ false → elem c (format_nat n) ≡ false
unfolding format_nat
format_nat-elem n c h = digits-elem (suc n) n c h
