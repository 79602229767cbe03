-- ===== src/Store/Refines.antt =====
-- The database as a client sees it: the last id given out, and a run under each id.
use mathlib.Core.Option
use oracle_backup.Base.{
  ℕ, suc, true, false, ◌≡◌, refl, ap, ◌∙◌, List, [], ◌∷◌, Option, some, ◌==◌, if◌then◌else◌,
}
use oracle_backup.Store.Table.{
  Run, Store, started_row, start_run, finish_run, set_log, reconcile_stuck, audit, scan_run,
  get_run, update, IsValid,
}
use oracle_backup.Store.Lookup.{
  finished, logged, settled, get_run-start_run, get_run-finish_run, get_run-set_log,
  get_run-reconcile_stuck,
}
use oracle_backup.Store.Lifecycle.{
  Call, starts, finishes, logs, reconciles, audits, step, steps, step-IsValid,
}

pub record History : Type 0 where
  pub last : ℕ
  pub read : ℕ → Option Run

-- A call on a history: a refused statement does nothing, a start gives out the next id, an outcome and
-- a log go to the run of their id, if there is one, and a reconciliation goes to every run.
pub replay : Call → History → History
replay (starts true trigger now) h = h
replay (starts false trigger now) h = record {
  last = suc h.last;
  read = λ j.
      if suc h.last == j then some (scan_run (started_row (suc h.last) trigger now)) else h.read j;
}
replay (finishes true id o now) h = h
replay (finishes false id o now) h = record h {
  read = λ j. if id == j then Option.map (finished o now) (h.read j) else h.read j;
}
replay (logs true id path) h = h
replay (logs false id path) h = record h {
  read = λ j. if id == j then Option.map (logged path) (h.read j) else h.read j;
}
replay (reconciles true now) h = h
replay (reconciles false now) h = record h { read = λ j. Option.map (settled now) (h.read j) }
replay (audits fails actor action result now) h = h

unfoldable pub replay_all : List Call → History → History
replay_all [] h = h
replay_all (c ∷ cs) h = replay_all cs (replay c h)

abbrev pub view : Store → History
view s = record { last = s.seq; read = λ j. get_run false j s }

same_view :
    {h : History} {r : ℕ → Option Run} → ((j : ℕ) → h.read j ≡ r j) → h ≡ record h { read = r }
same_view {h} {r} e i = record h { read = λ j. e j i }

step-view : (c : Call) (s : Store) → IsValid s → view (step c s) ≡ replay c (view s)
unfolding step replay
step-view (starts true trigger now) s v = unfold start_run in refl
step-view (starts false trigger now) s v =
    unfold start_run in same_view (λ j. (get_run-start_run s trigger now v j).2)
step-view (finishes true id o now) s v = ap (λ p. view p.1) (get_run-finish_run s id 0 o now).1
step-view (finishes false id o now) s v =
    unfold finish_run update in same_view (λ j. (get_run-finish_run s id j o now).0)
step-view (logs true id path) s v = ap (λ p. view p.1) (get_run-set_log s id 0 path).1
step-view (logs false id path) s v =
    unfold set_log update in same_view (λ j. (get_run-set_log s id j path).0)
step-view (reconciles true now) s v = unfold reconcile_stuck update in refl
step-view (reconciles false now) s v =
    unfold reconcile_stuck update in same_view (λ j. (get_run-reconcile_stuck s now j).0)
step-view (audits true actor action result now) s v = unfold audit in refl
step-view (audits false actor action result now) s v = unfold audit get_run in refl

-- Any sequence of calls on a valid store, refused statements included, reads as the same calls on its
-- history: the table with its updates is the map from ids to runs that the calls describe.
pub steps_refines :
    (cs : List Call) (s : Store) → IsValid s → view (steps cs s) ≡ replay_all cs (view s)
unfolding steps replay_all
steps_refines [] s v = refl
steps_refines (c ∷ cs) s v =
    steps_refines cs (step c s) (step-IsValid c s v) ∙ ap (replay_all cs) (step-view c s v)
