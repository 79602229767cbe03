-- ===== src/Terminal/Tests.antt =====
-- Sessions that come and go, for the witnesses.
use oracle_backup.Base.{◌≡◌, refl, [], ◌∷◌, some, arith}
use oracle_backup.Base.Int.{pos}
use oracle_backup.Text.{codes, same}
use oracle_backup.Terminal.Message.{set_size, input_of, typed, resize}
use oracle_backup.Terminal.Session.{
  upgraded, running, Terms, no_terms, opens, takes, Reached, none_yet, then_step,
}
use oracle_backup.Terminal.Slots.{IsCapped, terms-IsCapped}

abbrev one : Terms
one = record { slots = 1; sessions = upgraded ∷ running ∷ [] }

one-Reached : Reached one
one-Reached =
    then_step (then_step (then_step none_yet (opens no_terms)) (takes [] [] 0 (omega arith)))
      (opens (record { slots = 1; sessions = running ∷ [] }))

terms-IsCapped_example : IsCapped one
terms-IsCapped_example = terms-IsCapped one-Reached

-- A size of 2^16 passes the check and is set to 0.
input_of_test_wrap :
    input_of []
      (some (record { type = codes "resize"; text = []; cols = pos 65536; rows = pos 24 }))
    ≡ set_size 24 0
unfolding input_of typed same resize
input_of_test_wrap = refl
