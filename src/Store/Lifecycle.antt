-- ===== src/Store/Lifecycle.antt =====
-- What holds after any history of calls of the store.
use oracle_backup.Base.{ℕ, Bool, true, false, ◌≡◌, refl, List, [], ◌∷◌, arith}
use oracle_backup.Text.{Text}
use oracle_backup.Store.Table.{
  Row, Store, Outcome, start_run, update_where, update, finish_run, set_log, reconcile_stuck, audit,
  Below, IsValid,
}

-- One call of the store, with the engine's answer and the clock.
pub data Call : Type 0 where
  starts : Bool → Text → Text → Call
  finishes : Bool → ℕ → Outcome → Text → Call
  logs : Bool → ℕ → Text → Call
  reconciles : Bool → Text → Call
  audits : Bool → Text → Text → Text → Text → Call

unfoldable pub step : Call → Store → Store
step (starts fails trigger now) s = (start_run fails trigger now s).1
step (finishes fails id o now) s = (finish_run fails id o now s).1
step (logs fails id path) s = (set_log fails id path s).1
step (reconciles fails now) s = (reconcile_stuck fails now s).1
step (audits fails actor action result now) s = audit fails actor action result now s

unfoldable pub steps : List Call → Store → Store
unfolding step
steps [] s = s
steps (c ∷ cs) s = steps cs (step c s)

Below-update_where :
    (test : Row → Bool) (change : Row → Row)
    → ((r : Row) → (change r).id ≡ r.id)
    → (n : ℕ) (rs : List Row) → Below n rs
    → Below n (update_where test change rs)
unfolding update_where
Below-update_where test change same_id n [] b = tt
Below-update_where test change same_id n (r ∷ rs) b =
    ground (arith, same_id r, Below-update_where test change same_id r.id rs b.2)

update-IsValid :
    (fails : Bool) (test : Row → Bool) (change : Row → Row)
    → ((r : Row) → (change r).id ≡ r.id)
    → (s : Store) → IsValid s
    → IsValid (update fails test change s).1
unfolding update
update-IsValid true test change same_id s v = v
update-IsValid false test change same_id s v = Below-update_where test change same_id _ s.runs v

pub step-IsValid : (c : Call) (s : Store) → IsValid s → IsValid (step c s)
unfolding step start_run finish_run set_log reconcile_stuck audit
step-IsValid (starts true trigger now) s v = v
step-IsValid (starts false trigger now) s v = (omega arith, omega arith, v)
step-IsValid (finishes fails id o now) s v = update-IsValid fails _ _ (λ r. refl) s v
step-IsValid (logs fails id path) s v = update-IsValid fails _ _ (λ r. refl) s v
step-IsValid (reconciles fails now) s v = update-IsValid fails _ _ (λ r. refl) s v
step-IsValid (audits true actor action result now) s v = v
step-IsValid (audits false actor action result now) s v = v

-- Any sequence of calls, failed ones included, leads from a valid store to a valid one: ids are
-- positive, at most the last one given out, and strictly falling from the newest row to the oldest.
pub steps-IsValid : (cs : List Call) (s : Store) → IsValid s → IsValid (steps cs s)
unfolding steps
steps-IsValid [] s v = v
steps-IsValid (c ∷ cs) s v = steps-IsValid cs (step c s) (step-IsValid c s v)
