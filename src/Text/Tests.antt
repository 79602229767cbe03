-- ===== src/Text/Tests.antt =====
-- What the masking leaves of some texts.
use oracle_backup.Base.{◌≡◌, refl}
use oracle_backup.Text.Defs.{Text, codes}
use oracle_backup.Text.Redact.{redact}
use oracle_backup.Text.Masked.{Redacts, redact-Redacts}

redact_test :
    redact (codes "at rest:http://u:p@h:8000/ x") ≡ codes "at rest:http://***:***@h:8000/ x"
unfolding redact
redact_test = refl

redact_test_none :
    redact (codes "rest:http://u@h/ rest:https://a:/b@c")
    ≡ codes "rest:http://u@h/ rest:https://a:/b@c"
unfolding redact
redact_test_none = refl

abbrev leaky : Text
leaky = codes "at rest:http://u:p@h:8000/ x"

redact-Redacts_example : Redacts leaky (redact leaky)
redact-Redacts_example = redact-Redacts leaky
