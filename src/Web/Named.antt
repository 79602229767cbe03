-- ===== src/Web/Named.antt =====
-- The names on the list of remotes.
use oracle_backup.Base.{
  ◌&&◌, ◌≡◌, inl, inr, refl, sym, ap, ◌∙◌, List, [], ◌∷◌, ◌++◌, map, Option, none, some,
  append_assoc, append-nil, Bool-cases,
}
use oracle_backup.Text.{Text, codes, split, trim_space, has_prefix, has_suffix}
use oracle_backup.Migrate.Remote.{between_brackets, remote_names, configured_remote_names}
use oracle_backup.Web.Request.{RemoteInfo}
use oracle_backup.Web.Remotes.{
  with_type, set_last_type, behind_equals, remote_line, remote_lines, configured_remotes,
  header_remote,
}

set_last_type-name :
    (t : Text) (out : List RemoteInfo)
    → map RemoteInfo.name (set_last_type t out) ≡ map RemoteInfo.name out
unfolding set_last_type
set_last_type-name t [] = refl
set_last_type-name t (i ∷ []) = refl
set_last_type-name t (i ∷ j ∷ is') = ap (λ ns. i.name ∷ ns) (set_last_type-name t (j ∷ is'))

with_type-name :
    (t : Option Text) (out : List RemoteInfo)
    → map RemoteInfo.name (with_type t out) ≡ map RemoteInfo.name out
with_type-name none out = refl
with_type-name (some t) out = set_last_type-name (trim_space t) out

map-append : {A B : Type 0} (f : A → B) (xs ys : List A) → map f (xs ++ ys) ≡ map f xs ++ map f ys
map-append f [] ys = refl
map-append f (x ∷ xs) ys = ap (λ zs. f x ∷ zs) (map-append f xs ys)

-- A line adds the name of its header, if it is one.
remote_line-name :
    (active : Text) (out : List RemoteInfo) (line : Text) (lines : List Text)
    → map RemoteInfo.name (remote_line active out line) ++ remote_names lines
      ≡ map RemoteInfo.name out ++ remote_names (line ∷ lines)
unfolding remote_line remote_names
remote_line-name active out line lines =
    let t = trim_space line in
    elim (Bool-cases (has_prefix t (codes "[") && has_suffix t (codes "]"))) [
      | inl y ↦
          rw (remote_line, remote_names, y)
            (ap (λ ns. ns ++ remote_names lines)
                (map-append RemoteInfo.name out
                  (header_remote active (trim_space (between_brackets t)) ∷ []))
              ∙ append_assoc (map RemoteInfo.name out) _ (remote_names lines))
      | inr n ↦ elim (Bool-cases (has_prefix t (codes "type"))) [
        | inl y ↦
            rw (remote_line, remote_names, n, y)
              (ap (λ ns. ns ++ remote_names lines) (with_type-name (behind_equals t) out))
        | inr m ↦ rw (remote_line, remote_names, n, m) refl
      ]
    ]

remote_lines-name :
    (active : Text) (out : List RemoteInfo) (lines : List Text)
    → map RemoteInfo.name (remote_lines active out lines)
      ≡ map RemoteInfo.name out ++ remote_names lines
unfolding remote_lines remote_names
remote_lines-name active out [] = sym (append-nil _)
remote_lines-name active out (line ∷ lines) =
    remote_lines-name active (remote_line active out line) lines
    ∙ remote_line-name active out line lines

-- The page of remotes shows just the names, in the same order, among which a migration's target is
-- looked up, whatever the remotes' types and the active remote are.
pub configured_remotes-name :
    (active : Text) (conf : Option Text)
    → map RemoteInfo.name (configured_remotes active conf) ≡ configured_remote_names conf
unfolding configured_remotes configured_remote_names
configured_remotes-name active none = refl
configured_remotes-name active (some c) = remote_lines-name active [] (split 10 c)
