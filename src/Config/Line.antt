-- ===== src/Config/Line.antt =====
-- One line of config.env: what `Save` writes is what `LoadConfig` reads.
use oracle_backup.Base.{
  ℕ, Bool, false, ◌≡◌, ◌≢◌, ◌⊎◌, inl, inr, refl, sym, ap, ◌∙◌, List, [], ◌∷◌, ◌++◌, map,
  append_assoc, append-nil, some, arith, All, ◌==◌,
}
use oracle_backup.Text.{
  Text, same, same_iff, has_prefix, elem, elem-append, is_space, trim, trim_left, trim_right,
  trim_right_of_append, keep_left, trim_space,
}
use oracle_backup.Config.Load.{
  Raw, lookup, equals, before, behind, is_quote, is_remark, key_of, value_of, load_lines,
}
use oracle_backup.Config.Save.{escape, quote_val, save_line}

-- A text with a first rune that is neither white space nor `#`, no white space at its end and no `=`.
pub record IsKey (k : Text) : Type 0 where
  pub first : ℕ
  pub more : Text
  pub starts : k ≡ first ∷ more
  pub bare : is_space first ≡ false
  pub no_hash : (first == b'#') ≡ false
  pub tight : trim_right is_space k ≡ k
  pub no_equals : elem equals k ≡ false

-- A text without white space at its ends and without quotes.
pub record IsValue (v : Text) : Type 0 where
  pub tight_left : trim_left is_space v ≡ v
  pub tight_right : trim_right is_space v ≡ v
  pub no_quotes : All (λ c. is_quote c ≡ false) v

before-append : (k q : Text) → elem equals k ≡ false → before (k ++ (equals ∷ q)) ≡ k
unfolding before elem
before-append [] q h = ground arith
before-append (c ∷ k) q h = ground (arith, before-append k q)

behind-append : (k q : Text) → elem equals k ≡ false → behind (k ++ (equals ∷ q)) ≡ q
unfolding behind elem
behind-append [] q h = ground arith
behind-append (c ∷ k) q h = ground (arith, behind-append k q)

keep_left-append :
    (drop : ℕ → Bool) (c d : ℕ) (s t : Text) → keep_left drop c (s ++ d ∷ t) ≡ c ∷ (s ++ d ∷ t)
unfolding keep_left
keep_left-append drop c d [] t = refl
keep_left-append drop c d (e ∷ s) t = refl

-- A text keeps its end where the end is kept.
trim_right_end :
    (drop : ℕ → Bool) (s : Text) (d : ℕ) (t : Text)
    → trim_right drop (d ∷ t) ≡ d ∷ t
    → trim_right drop (s ++ d ∷ t) ≡ s ++ d ∷ t
unfolding trim_right
trim_right_end drop [] d t h = h
trim_right_end drop (c ∷ s) d t h =
    ap (keep_left drop c) (trim_right_end drop s d t h) ∙ keep_left-append drop c d s t

escape_plain : (v : Text) → All (λ c. is_quote c ≡ false) v → escape v ≡ v
unfolding escape
escape_plain [] a = refl
escape_plain (c ∷ v) a = ground (arith, escape_plain v a.1, a.0)

trim_right_plain : (v : Text) → All (λ c. is_quote c ≡ false) v → trim_right is_quote v ≡ v
unfolding trim_right keep_left
trim_right_plain [] a = refl
trim_right_plain (c ∷ []) a = ground (arith, a.0)
trim_right_plain (c ∷ d ∷ v) a = ap (keep_left is_quote c) (trim_right_plain (d ∷ v) a.1)

trim_left_plain : (v : Text) → All (λ c. is_quote c ≡ false) v → trim_left is_quote v ≡ v
unfolding trim_left
trim_left_plain [] a = refl
trim_left_plain (c ∷ v) a = ground (arith, a.0)

abbrev quotes : Text → Text
quotes v = b'"' ∷ (v ++ b'"' ∷ [])

-- The two ways to write a value.
quote_val_cases : (v : Text) → IsValue v → ((v ≢ []) × (quote_val v ≡ v)) ⊎ (quote_val v ≡ quotes v)
unfolding quote_val
quote_val_cases v h = ground (arith, same_iff v [], escape_plain v h.no_quotes)

trim_space-plain : (v : Text) → IsValue v → trim_space v ≡ v
unfolding trim_space trim
trim_space-plain v h = ap (trim_right is_space) h.tight_left ∙ h.tight_right

trim_plain : (v : Text) → All (λ c. is_quote c ≡ false) v → trim is_quote v ≡ v
unfolding trim
trim_plain v a = ap (trim_right is_quote) (trim_left_plain v a) ∙ trim_right_plain v a

quote_end : trim_right is_space (b'"' ∷ []) ≡ b'"' ∷ []
unfolding trim_right keep_left is_space
quote_end = refl

quotes_right : (v : Text) → trim_right is_space (quotes v) ≡ quotes v
quotes_right v = trim_right_end is_space (b'"' ∷ v) b'"' [] quote_end

trim_space-quotes : (v : Text) → trim_space (quotes v) ≡ quotes v
unfolding trim_space trim trim_left is_space
trim_space-quotes v = quotes_right v

-- The quote in front is dropped, and no other where the value has none.
trim_left-quotes :
    (v : Text)
    → All (λ c. is_quote c ≡ false) v
    → trim_right is_quote (trim_left is_quote (quotes v)) ≡ trim_right is_quote (v ++ b'"' ∷ [])
unfolding trim_left trim_right keep_left
trim_left-quotes [] a = refl
trim_left-quotes (c ∷ v) a = rw a.0 refl

trim-quotes : (v : Text) → All (λ c. is_quote c ≡ false) v → trim is_quote (quotes v) ≡ v
unfolding trim
trim-quotes v a =
    trim_left-quotes v a
    ∙ trim_right_of_append is_quote v (b'"' ∷ []) (refl, tt)
    ∙ trim_right_plain v a

-- A written value ends where it ends, and is read as the value.
record Written (v q : Text) : Type 0 where
  reads : trim is_quote (trim_space q) ≡ v
  ends : trim_right is_space q ≡ q

quote_val-Written : (v : Text) → IsValue v → Written v (quote_val v)
quote_val-Written v h = elim (quote_val_cases v h) [
  | inl (n, e) ↦ record {
    reads = rw (e, trim_space-plain v h) (trim_plain v h.no_quotes);
    ends = rw e h.tight_right;
  }
  | inr e ↦ record {
    reads = rw (e, trim_space-quotes v) (trim-quotes v h.no_quotes);
    ends = rw e (quotes_right v);
  }
]

equals_end : (q : Text) → trim_right is_space q ≡ q → trim_right is_space (equals ∷ q) ≡ equals ∷ q
unfolding trim_right keep_left is_space
equals_end [] h = refl
equals_end (c ∷ q) h = ap (keep_left is_space equals) h

module _ (k q : Text) (key : IsKey k) where
  line_tight : trim_right is_space q ≡ q → trim_space (k ++ (equals ∷ q)) ≡ k ++ (equals ∷ q)
  unfolding trim_space trim trim_left
  line_tight h =
      rw (key.starts, key.bare)
        (trim_right_end is_space (key.first ∷ key.more) equals q (equals_end q h))

  no_remark : is_remark (k ++ (equals ∷ q)) ≡ false
  unfolding is_remark has_prefix same
  no_remark = rw (elem-append equals k q) (rw key.starts (ground (arith, key.no_hash)))

key_tight : (k : Text) → IsKey k → trim_space k ≡ k
unfolding trim_space trim trim_left
key_tight k key = ap (trim_right is_space) left ∙ key.tight
  where
    left : trim_left is_space k ≡ k
    left = rw (key.starts, key.bare) refl

save_line_key :
    (raw : Raw) (k v : Text)
    → IsKey k
    → lookup k raw ≡ some v
    → save_line raw k ≡ k ++ (equals ∷ quote_val v)
unfolding save_line has_prefix same
save_line_key raw k v key h = rw (save_line, h, key.starts, key.no_hash) refl

load_line :
    (line k v : Text) (ls : List Text) (acc : Raw) (order : List Text)
    → trim_space line ≡ line
    → is_remark line ≡ false
    → key_of line ≡ k
    → value_of line ≡ v
    → load_lines (line ∷ ls) acc order ≡ load_lines ls ((k, v) ∷ acc) (order ++ k ∷ [])
unfolding load_lines
load_line line k v ls acc order t n e f = rw (load_lines, t, n, t, e, f) refl

-- Loading the line that is saved for a key enters its value and notes the key.
pub load_lines-save_line :
    (raw : Raw) (k v : Text) (ls : List Text) (acc : Raw) (order : List Text)
    → IsKey k
    → IsValue v
    → lookup k raw ≡ some v
    → load_lines (save_line raw k ∷ ls) acc order ≡ load_lines ls ((k, v) ∷ acc) (order ++ k ∷ [])
load_lines-save_line raw k v ls acc order key value h =
    let q = quote_val v in
    let w = quote_val-Written v value in
    rw (save_line_key raw k v key h) (
      load_line (k ++ (equals ∷ q)) k v ls acc order (line_tight k q key w.ends) (no_remark k q key)
        (unfold key_of in ap trim_space (before-append k q key.no_equals) ∙ key_tight k key)
        (unfold value_of in
          ap (λ t. trim is_quote (trim_space t)) (behind-append k q key.no_equals) ∙ w.reads))

-- A key of the map, with its value.
pub record IsEntry (raw : Raw) (e : Text × Text) : Type 0 where
  pub key : IsKey e.0
  pub value : IsValue e.1
  pub found : lookup e.0 raw ≡ some e.1

-- The entries, each in front of those before it.
unfoldable pub entered : List (Text × Text) → Raw → Raw
entered [] acc = acc
entered (e ∷ es) acc = entered es (e ∷ acc)

-- For any list of entries of the map, loading the lines that are saved for their keys enters exactly
-- these entries, in this order, and notes their keys in this order.
pub load_lines-save_lines :
    (raw : Raw) (es : List (Text × Text)) (acc : Raw) (order : List Text)
    → All (IsEntry raw) es
    → load_lines (map (λ e. save_line raw e.0) es) acc order
      ≡ (entered es acc, order ++ map (λ e. e.0) es)
unfolding entered
load_lines-save_lines raw [] acc order a =
    unfold load_lines in ap (λ o. (acc, o)) (sym (append-nil order))
load_lines-save_lines raw ((k, v) ∷ es) acc order (e, a) =
    load_lines-save_line raw k v (map (λ e. save_line raw e.0) es) acc order e.key e.value e.found
    ∙ load_lines-save_lines raw es ((k, v) ∷ acc) (order ++ k ∷ []) a
    ∙ ap (λ o. (entered es ((k, v) ∷ acc), o)) (append_assoc order (k ∷ []) (map (λ e. e.0) es))
