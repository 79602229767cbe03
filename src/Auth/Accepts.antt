-- ===== src/Auth/Accepts.antt =====
-- Which tokens are accepted.
use oracle_backup.Base.{
  ℕ, ◌+◌, ◌^◌, ◌≤◌, ◌<◌, true, false, not, ◌&&◌, ◌≡◌, ◌≢◌, ◌↔◌, ◌⊎◌, inl, inr, refl, sym, ap, ◌∙◌,
  List, [], ◌∷◌, ◌++◌, append_assoc, Option, none, some, if◌then◌else◌, arith, Option-cases,
}
use oracle_backup.Base.Int.{ℤ, pos}
use oracle_backup.Text.{
  Text, same, same_iff, same_refl, elem, split, split_plain, split_at_first, join_with,
  join_with-split, format_nat, parse_nat, format_nat_lem, format_nat-elem, is_digit,
}
use oracle_backup.Auth.Session.{
  bar, session_ttl, format_int, parse_int, is_stale, message, signature, sign_session, check_age,
  check_parts, verify_session,
}

is_stale_pos :
    (now issued : ℕ)
    → now < 2 ^ 63
    → issued < 2 ^ 63
    → (is_stale (pos now) (pos issued) ≡ false) ↔ ((issued ≤ now) × (now ≤ issued + session_ttl))
unfolding is_stale
is_stale_pos now issued h k = ground arith

parse_int_digits :
    (c n : ℕ) (s : Text)
    → n < 2 ^ 63
    → is_digit c ≡ true
    → parse_nat (c ∷ s) ≡ some n
    → parse_int (c ∷ s) ≡ some (pos n)
unfolding parse_int
parse_int_digits c n s h d e = ground arith

parse_int-format_nat : (n : ℕ) → n < 2 ^ 63 → parse_int (format_nat n) ≡ some (pos n)
parse_int-format_nat n h =
    let (read, (c, s, e, d)) = format_nat_lem n in rw e (parse_int_digits c n s h d (rw e at read))

-- Which times a token is good for.
abbrev pub InTime : ℕ → ℕ → Type 0
InTime issued now = (issued ≤ now) × (now ≤ issued + session_ttl)

module _ (hmac : Text → Text → Text) (encode : Text → Text) (decode : Text → Option Text)
    (decode-encode : (t : Text) → decode (encode t) ≡ some t)
    (no_bar : (t : Text) → elem bar (encode t) ≡ false) where
  split-message :
      (user ver sig : Text) (issued : ℕ)
      → elem bar user ≡ false
      → elem bar ver ≡ false
      → elem bar sig ≡ false
      → split bar (message user (format_int (pos issued)) ver ++ (bar ∷ sig))
        ≡ user ∷ format_nat issued ∷ ver ∷ sig ∷ []
  unfolding format_int
  split-message user ver sig issued hu hv hs = simp append_assoc (
      rw (
        split_at_first bar user (format_nat issued ++ (bar ∷ (ver ++ (bar ∷ sig)))) hu,
        split_at_first bar (format_nat issued) (ver ++ (bar ∷ sig))
            (format_nat-elem issued bar refl),
        split_at_first bar ver sig hv,
        split_plain bar sig hs,
      ))

  abbrev pub signed : Text → ℕ → Text → Text → Text
  signed user issued ver key = sign_session hmac encode decode user (pos issued) ver key

  check_parts_signed :
      (user ver want_ver key sig : Text) (issued : ℕ) (now : ℤ)
      → issued < 2 ^ 63
      → sig ≡ signature hmac encode decode key (message user (format_nat issued) ver)
      → check_parts hmac encode decode (user ∷ format_nat issued ∷ ver ∷ sig ∷ []) key now want_ver
        ≡ (if not (same want_ver []) && not (same ver want_ver)
            then none
            else check_age hmac encode decode user (some (pos issued)) now)
  unfolding check_parts
  check_parts_signed user ver want_ver key sig issued now hi e =
      rw (e, same_refl, parse_int-format_nat issued hi)

  -- What becomes of a token that was signed here.
  verify_signed :
      (user ver want_ver key : Text) (issued : ℕ) (now : ℤ)
      → elem bar user ≡ false
      → elem bar ver ≡ false
      → issued < 2 ^ 63
      → verify_session hmac encode decode (signed user issued ver key) key now want_ver ≡ (
          if not (same want_ver []) && not (same ver want_ver)
          then none
          else check_age hmac encode decode user (some (pos issued)) now)
  unfolding sign_session verify_session
  verify_signed user ver want_ver key issued now hu hv hi =
      rw (decode-encode _, verify_session)
        (rw
          (split-message user ver
            (signature hmac encode decode key (message user (format_int (pos issued)) ver)) issued
            hu hv (no_bar _))
          (unfold format_int in check_parts_signed user ver want_ver key _ issued now hi refl))

  -- Whatever the key, a token that `signSession` makes at a time `issued`, for a user and a version
  -- without the separator, is accepted for that user, when the wanted version is that version or
  -- empty, from that time on for 12 hours, and at no other time. The times are less than 2^63.
  pub verify_session-sign_session :
      (user ver want_ver key : Text) (issued now : ℕ)
      → elem bar user ≡ false
      → elem bar ver ≡ false
      → (want_ver ≡ []) ⊎ (ver ≡ want_ver)
      → issued < 2 ^ 63
      → now < 2 ^ 63
      → (verify_session hmac encode decode (signed user issued ver key) key (pos now) want_ver
          ≡ some user)
        ↔ InTime issued now
  unfolding check_age
  verify_session-sign_session user ver want_ver key issued now hu hv w hi hn =
      rw (verify_signed user ver want_ver key issued (pos now) hu hv hi)
        (ground (arith, same_iff want_ver [], same_iff ver want_ver, is_stale_pos now issued hn hi))

  -- A change of the admin password ends every session: a token whose version is not the wanted one is
  -- rejected at every time, though the key signed it.
  pub verify_session_other_version :
      (user ver want_ver key : Text) (issued : ℕ) (now : ℤ)
      → elem bar user ≡ false
      → elem bar ver ≡ false
      → issued < 2 ^ 63
      → want_ver ≢ []
      → ver ≢ want_ver
      → verify_session hmac encode decode (signed user issued ver key) key now want_ver ≡ none
  verify_session_other_version user ver want_ver key issued now hu hv hi h k =
      rw (verify_signed user ver want_ver key issued now hu hv hi)
        (ground (arith, same_iff want_ver [], same_iff ver want_ver))

-- What an accepted token holds.
abbrev pub Genuine :
    (Text → Text → Text)
    → (Text → Text)
    → (Text → Option Text)
    → Text
    → Text
    → ℤ
    → Text
    → Text
    → Type 0
Genuine hmac encode decode tok key now want_ver user =
    (issued_text : Text) × (ver : Text) × (issued : ℤ) × (decode tok
      ≡ some (
          message user issued_text ver
          ++ (bar ∷ signature hmac encode decode key (message user issued_text ver))))
    × ((want_ver ≡ []) ⊎ (ver ≡ want_ver))
    × (parse_int issued_text ≡ some issued)
    × (is_stale now issued ≡ false)

module _ (hmac : Text → Text → Text) (encode : Text → Text) (decode : Text → Option Text) where
  abbrev Parts : List Text → Text → ℤ → Text → Text → Type 0
  Parts parts key now want_ver user =
      (issued_text : Text) × (ver : Text) × (issued : ℤ) × (parts
        ≡ user
          ∷ issued_text
          ∷ ver
          ∷ signature hmac encode decode key (message user issued_text ver)
          ∷ [])
      × ((want_ver ≡ []) ⊎ (ver ≡ want_ver))
      × (parse_int issued_text ≡ some issued)
      × (is_stale now issued ≡ false)

  check_parts_sound :
      (parts : List Text) (key : Text) (now : ℤ) (want_ver user : Text)
      → check_parts hmac encode decode parts key now want_ver ≡ some user
      → Parts parts key now want_ver user
  unfolding check_parts
  check_parts_sound [] key now want_ver user h = cc
  check_parts_sound (u ∷ []) key now want_ver user h = cc
  check_parts_sound (u ∷ i ∷ []) key now want_ver user h = cc
  check_parts_sound (u ∷ i ∷ v ∷ []) key now want_ver user h = cc
  check_parts_sound (u ∷ i ∷ v ∷ sig ∷ []) key now want_ver user h =
      elim (Option-cases (parse_int i)) [
        | inl e ↦ absurd (ground arith)
        | inr (issued, e) ↦
            let sig_iff = same_iff sig (signature hmac encode decode key (message u i v)) in
            (
              i,
              v,
              issued,
              ground (arith, sig_iff),
              ground (arith, same_iff want_ver [], same_iff v want_ver),
              e,
              ground arith,
            )
      ]
  check_parts_sound (u ∷ i ∷ v ∷ sig ∷ p ∷ ps) key now want_ver user h = cc

  joined :
      (raw user i v sig : Text)
      → split bar raw ≡ user ∷ i ∷ v ∷ sig ∷ []
      → raw ≡ message user i v ++ (bar ∷ sig)
  unfolding join_with
  joined raw user i v sig e =
      sym (join_with-split bar raw) ∙ ap (join_with bar) e ∙ simp append_assoc

  -- Only genuine tokens are accepted: the token decodes to the user, the issue time, the version and
  -- the signature that the key gives for the three, joined by bars; the version is the wanted one,
  -- unless none is wanted; and the issue time reads as a number at which the token is not stale.
  pub verify_session_sound :
      (tok key : Text) (now : ℤ) (want_ver user : Text)
      → verify_session hmac encode decode tok key now want_ver ≡ some user
      → Genuine hmac encode decode tok key now want_ver user
  unfolding verify_session
  verify_session_sound tok key now want_ver user h = elim (Option-cases (decode tok)) [
    | inl e ↦ absurd (ground arith)
    | inr (raw, e) ↦
        let (i, v, issued, parts, version, reads, fresh) =
          check_parts_sound (split bar raw) key now want_ver user (rw (e, verify_session) at h) in
        (i, v, issued, rw e (ap some (joined raw user i v _ parts)), version, reads, fresh)
  ]
