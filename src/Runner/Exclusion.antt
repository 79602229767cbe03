-- ===== src/Runner/Exclusion.antt =====
-- What holds in every state that the threads can reach.
use oracle_backup.Base.{
  ℕ, true, false, ◌≡◌, ◌≢◌, ◌↔◌, refl, arith, Bool-cases, false_of_not, inl, inr,
}
use oracle_backup.Runner.Gate.{Runner, busy}
use oracle_backup.Runner.Threads.{
  Task, Pc, idle, gated, working, cleared, Move, refused, won, mark, finish, release, update,
  System, Step, pick, boot, Reach, here, next, holds, works,
}

pub record Inv (r : Runner) (pc : ℕ → Pc) : Type 0 where
  pub unique : (i j : ℕ) → holds (pc i) ≡ true → holds (pc j) ≡ true → i ≡ j
  pub locked : (i : ℕ) → holds (pc i) ≡ true → r.gate ≡ true
  pub marked : (i : ℕ) → works (pc i) ≡ true → r.running ≡ true
  pub held : r.gate ≡ true → (i : ℕ) × (holds (pc i) ≡ true)
  pub honest : r.running ≡ true → (i : ℕ) × (works (pc i) ≡ true)

Inv-boot : Inv boot.runner boot.pc
Inv-boot = record {
  unique = λ i j h k. cc;
  locked = λ i h. cc;
  marked = λ i h. cc;
  held = λ h. cc;
  honest = λ h. cc;
}

update_self : (pc : ℕ → Pc) (i : ℕ) (p : Pc) → update pc i p i ≡ p
update_self pc i p = ground arith

module _ {r : Runner} {pc : ℕ → Pc} (v : Inv r pc) (i : ℕ) where
  Move-Inv : {p : Pc} {r' : Runner} {p' : Pc} → Move r p r' p' → pc i ≡ p → Inv r' (update pc i p')
  Move-Inv (refused g) e = record {
    unique = λ a b h k. ground (arith, v.unique a b);
    locked = λ a h. g;
    marked = λ a h. ground (arith, v.marked a);
    held = λ h. let (a, q) = v.held g in (a, ground arith);
    honest = λ h. let (a, q) = v.honest h in (a, ground arith);
  }
  Move-Inv (won t g) e = record {
    unique = λ a b h k. ground (arith, v.locked a, v.locked b);
    locked = λ a h. refl;
    marked = λ a h. ground (arith, v.marked a);
    held = λ h. (i, rw (update_self pc i (gated t)));
    honest = λ h. let (a, q) = v.honest h in (a, ground arith);
  }
  Move-Inv (mark {t}) e = record {
    unique = λ a b h k. ground (arith, v.unique a b, v.unique a i, v.unique i b);
    locked = λ a h. v.locked i (ground arith);
    marked = λ a h. refl;
    held = λ h. (i, rw (update_self pc i (working t)));
    honest = λ h. (i, rw (update_self pc i (working t)));
  }
  Move-Inv (finish {t}) e = record {
    unique = λ a b h k. ground (arith, v.unique a b, v.unique a i, v.unique i b);
    locked = λ a h. v.locked i (ground arith);
    marked = λ a h. ground (arith, v.unique a i);
    held = λ h. (i, rw (update_self pc i cleared));
    honest = λ h. cc;
  }
  Move-Inv release e = record {
    unique = λ a b h k. ground (arith, v.unique a b);
    locked = λ a h. ground (arith, v.unique a i);
    marked = λ a h. ground (arith, v.marked a);
    held = λ h. cc;
    honest = λ h. let (a, q) = v.honest h in (a, ground arith);
  }

Step-Inv : {s t : System} → Step s t → Inv s.runner s.pc → Inv t.runner t.pc
Step-Inv (pick i m) v = Move-Inv v i m refl

Reach-Inv : {s t : System} → Inv s.runner s.pc → Reach s t → Inv t.runner t.pc
Reach-Inv v here = v
Reach-Inv v (next r st) = Step-Inv st (Reach-Inv v r)

-- However the calls of the four entry points interleave, while one thread has the gate no other
-- thread has it, so no two scripts or migrations run at once.
pub mutual_exclusion :
    {s : System} → Reach boot s → (i j : ℕ) → holds (s.pc i) ≡ true → i ≢ j → holds (s.pc j) ≡ false
mutual_exclusion {s} r i j h n =
    false_of_not (holds (s.pc j)) (λ k. n ((Reach-Inv Inv-boot r).unique i j h k))

-- `Busy` tells the truth in every reachable state: it answers yes exactly when some thread runs a
-- script or a migration.
pub busy_iff :
    {s : System} → Reach boot s → (busy s.runner ≡ true) ↔ ((i : ℕ) × (works (s.pc i) ≡ true))
busy_iff r = ((Reach-Inv Inv-boot r).honest, λ w. (Reach-Inv Inv-boot r).marked w.0 w.1)

-- The gate is locked exactly when some thread has it: a call is refused as busy only while another
-- one is under way, and no call is let in while one is.
pub gate_iff :
    {s : System} → Reach boot s → (s.runner.gate ≡ true) ↔ ((i : ℕ) × (holds (s.pc i) ≡ true))
gate_iff r = ((Reach-Inv Inv-boot r).held, λ w. (Reach-Inv Inv-boot r).locked w.0 w.1)

-- The gate is open and the flag is down.
abbrev pub IsQuiet : System → Type 0
IsQuiet s = (s.runner.gate ≡ false) × (s.runner.running ≡ false)

abbrev Quiets : System → Type 0
Quiets s = (t : System) × Reach s t × IsQuiet t

pick_at :
    (s : System) (i : ℕ) (p : Pc) {r : Runner} {p' : Pc}
    → s.pc i ≡ p
    → Move s.runner p r p'
    → Step s (record { runner = r; pc = update s.pc i p' })
pick_at s i p e m = pick i (rw e m)

Reach-trans : {s t u : System} → Reach s t → Reach t u → Reach s u
Reach-trans r here = r
Reach-trans r (next q st) = next (Reach-trans r q) st

Quiets-Step : {s t : System} → Step s t → Quiets t → Quiets s
Quiets-Step st (u, r, q) = (u, Reach-trans (next here st) r, q)

Quiets-cleared : (s : System) (i : ℕ) → s.pc i ≡ cleared → s.runner.running ≡ false → Quiets s
Quiets-cleared s i e f = (_, next here (pick_at s i cleared e release), (refl, f))

Quiets-working : (s : System) (i : ℕ) (t : Task) → s.pc i ≡ working t → Quiets s
Quiets-working s i t e =
    Quiets-Step (pick_at s i (working t) e finish)
      (Quiets-cleared _ i (update_self s.pc i cleared) refl)

Quiets-gated : (s : System) (i : ℕ) (t : Task) → s.pc i ≡ gated t → Quiets s
Quiets-gated s i t e =
    Quiets-Step (pick_at s i (gated t) e mark)
      (Quiets-working _ i t (update_self s.pc i (working t)))

Quiets-held :
    (s : System) (i : ℕ) (p : Pc) → Inv s.runner s.pc → s.pc i ≡ p → holds p ≡ true → Quiets s
Quiets-held s i idle v e h = cc
Quiets-held s i (gated t) v e h = Quiets-gated s i t e
Quiets-held s i (working t) v e h = Quiets-working s i t e
Quiets-held s i cleared v e h = elim (Bool-cases s.runner.running) [
  | inl y ↦ let (a, w) = v.honest y in absurd (ground (arith, v.unique a i))
  | inr n ↦ Quiets-cleared s i e n
]

-- The gate is never lost: from every reachable state the threads can go on to one in which the gate
-- is open and `Busy` answers no.
pub gate_opens : {s : System} → Reach boot s → (t : System) × Reach s t × IsQuiet t
gate_opens {s} r = elim (Bool-cases s.runner.gate) [
  | inl y ↦ let (i, h) = v.held y in Quiets-held s i (s.pc i) v refl h
  | inr n ↦ (
    s,
    here,
    (
      n,
      elim (Bool-cases s.runner.running) [
        | inl y ↦ let (i, w) = v.honest y in absurd (ground (arith, v.locked i))
        | inr m ↦ m
      ],
    ),
  )
]
  where
    v : Inv s.runner s.pc
    v = Reach-Inv Inv-boot r
