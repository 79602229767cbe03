-- ===== src/Rclone/Args.antt =====
-- `splitArgs`: what a quoted command splits into.
use oracle_backup.Base.{
  Bool, true, false, not, ◌&&◌, ◌≡◌, ◌≢◌, refl, ap, ◌∙◌, List, [], ◌∷◌, ◌++◌, append_assoc,
  append-nil, arith, ◌==◌, All,
}
use oracle_backup.Text.{Text, flush, elem}
use oracle_backup.Rclone.Cli.{quote, is_blank, args_from, split_args}

flush-All :
    (P : Text → Type 0)
    → (cur : Text) (as' : List Text) → (cur ≢ [] → P cur)
    → All P as'
    → All P (flush cur as')
unfolding flush
flush-All P [] as' h a = a
flush-All P (c ∷ cur) as' h a = (h (λ e. cc), a)

flush_nonempty : (t : Text) (as' : List Text) → t ≢ [] → flush t as' ≡ t ∷ as'
unfolding flush
flush_nonempty [] as' n = absurd (n refl)
flush_nonempty (c ∷ t) as' n = refl

args_from_nonempty : (inq : Bool) (cur s : Text) → All (λ a. a ≢ []) (args_from inq cur s)
unfolding args_from
args_from_nonempty inq cur [] = flush-All _ cur [] (λ h. h) tt
args_from_nonempty inq cur (r ∷ s) =
    elim (r == quote)
      as (λ b.
        All (λ a. a ≢ [])
          (elim b as (λ _. List Text) [
            | true ↦ args_from (not inq) cur s
            | false ↦ elim (is_blank r && not inq) as (λ _. List Text) [
              | true ↦ flush cur (args_from inq [] s)
              | false ↦ args_from inq (cur ++ r ∷ []) s
            ]
          ])) [
            | true ↦ args_from_nonempty (not inq) cur s
            | false ↦
                elim (is_blank r && not inq)
                  as (λ b.
                    All (λ a. a ≢ [])
                      (elim b as (λ _. List Text) [
                        | true ↦ flush cur (args_from inq [] s)
                        | false ↦ args_from inq (cur ++ r ∷ []) s
                      ])) [
                        | true ↦
                            flush-All _ cur (args_from inq [] s) (λ h. h)
                              (args_from_nonempty inq [] s)
                        | false ↦ args_from_nonempty inq (cur ++ r ∷ []) s
                      ]
          ]

-- Inside quotes, a text without a quote is taken as it is.
args_from_quoted :
    (cur a rest : Text)
    → elem quote a ≡ false
    → args_from true cur (a ++ (quote ∷ rest)) ≡ args_from false (cur ++ a) rest
unfolding args_from elem
args_from_quoted cur [] rest h = rw (append-nil cur)
args_from_quoted cur (c ∷ a) rest h =
    ground (arith, args_from_quoted (cur ++ c ∷ []) a rest, append_assoc cur (c ∷ []) a)

abbrev pub quoted : Text → Text
quoted a = quote ∷ (a ++ quote ∷ [])

-- A command line: each argument in quotes, with blanks between them.
pub command : List Text → Text
command [] = []
command (a ∷ as') = quote ∷ (a ++ (quote ∷ (b' ' ∷ command as')))

pub record IsArg (a : Text) : Type 0 where
  pub some_rune : a ≢ []
  pub no_quote : elem quote a ≡ false

-- Arguments that are not empty and hold no quote come back from the line that quotes each of them,
-- whatever blanks they hold.
pub split_args-command : (as' : List Text) → All IsArg as' → split_args (command as') ≡ as'
unfolding split_args command args_from flush
split_args-command [] h = refl
split_args-command (a ∷ as') (v, h) =
    args_from_quoted [] a (b' ' ∷ command as') v.no_quote
    ∙ flush_nonempty a _ v.some_rune
    ∙ ap (◌∷◌ a) (split_args-command as' h)

-- No argument is ever empty, whatever the text.
pub split_args_nonempty : (s : Text) → All (λ a. a ≢ []) (split_args s)
unfolding split_args
split_args_nonempty s = args_from_nonempty false [] s
