-- ===== src/Auth/Tests.antt =====
-- A small hash, and a token, for the witnesses.
use oracle_backup.Base.{Bool, true, false, ◌≡◌, ◌≢◌, ◌↔◌, inr, refl, [], ◌∷◌, ◌++◌, some, arith}
use oracle_backup.Base.Int.{pos}
use oracle_backup.Text.{Text, codes, same, elem, same_refl}
use oracle_backup.Auth.Session.{bar, sign_session, verify_session}
use oracle_backup.Auth.Codec.{encode, decode, decode-encode, encode_no_bar}
use oracle_backup.Auth.Accepts.{InTime, Genuine, verify_session-sign_session, verify_session_sound}
use oracle_backup.Auth.Admin.{pick_admin_hash}

abbrev hmac : Text → Text → Text
hmac key msg = key ++ msg

abbrev user : Text
user = codes "admin"

abbrev ver : Text
ver = codes "0badcafe"

abbrev key : Text
key = codes "k"

user_no_bar : elem bar user ≡ false
unfolding elem
user_no_bar = refl

ver_no_bar : elem bar ver ≡ false
unfolding elem
ver_no_bar = refl

verify_session-sign_session_example :
    (verify_session hmac encode decode
        (sign_session hmac encode decode user (pos 100) ver key)
        key
        (pos 200)
        ver
      ≡ some user)
    ↔ InTime 100 200
verify_session-sign_session_example =
    verify_session-sign_session hmac encode decode decode-encode encode_no_bar user ver ver key 100
      200 user_no_bar ver_no_bar (inr refl) (omega arith) (omega arith)

abbrev token : Text
token = sign_session hmac encode decode user (pos 100) ver key

token_accepted : verify_session hmac encode decode token key (pos 200) ver ≡ some user
token_accepted =
    (verify_session-sign_session hmac encode decode decode-encode encode_no_bar user ver ver key 100
        200 user_no_bar ver_no_bar (inr refl) (omega arith) (omega arith)).1
      (omega arith, omega arith)

verify_session_sound_example : Genuine hmac encode decode token key (pos 200) ver user
verify_session_sound_example =
    verify_session_sound hmac encode decode token key (pos 200) ver user token_accepted

abbrev hash : Text → Text × Bool
hash pw = (b'h' ∷ pw, false)

abbrev check : Text → Text → Bool
check h pw = same h (b'h' ∷ pw)

hash_nonempty : (pw : Text) → (hash pw).1 ≡ false → (hash pw).0 ≢ []
hash_nonempty pw e q = cc

hash_checks : (pw : Text) → (hash pw).1 ≡ false → check (hash pw).0 pw ≡ true
hash_checks pw e = same_refl (b'h' ∷ pw)

first_fine : (pick_admin_hash hash check [] [] (codes "secret") (codes "gen")).failed ≡ false
unfolding pick_admin_hash same
first_fine = refl
