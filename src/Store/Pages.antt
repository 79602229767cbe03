-- ===== src/Store/Pages.antt =====
-- The history page: `ListRuns`.
use Prim.Native.Nat.add
use mathlib.Core.List.{map-append}
use oracle_backup.Base.{
  ℕ, suc, zero, ◌+◌, ◌<◌, ◌≤◌, false, ◌≡◌, refl, ap, sym, List, [], ◌∷◌, ◌++◌, map, some, arith,
  take, drop, length, length-take, length-map, ◌∙◌, ltb, inl, inr, Bool-cases,
}
use oracle_backup.Store.Table.{
  Row, Run, Store, insert_desc, sort_desc, scan_run, list_runs, Below, IsValid,
}

insert_desc_newest :
    (r : Row) (n : ℕ) (rs : List Row) → Below n (r ∷ rs) → insert_desc r rs ≡ r ∷ rs
unfolding insert_desc
insert_desc_newest r n [] b = refl
insert_desc_newest r n (q ∷ rs) b = ground arith

-- The rows stand in the order that the query asks for.
sort_desc-Below : (n : ℕ) (rs : List Row) → Below n rs → sort_desc rs ≡ rs
unfolding sort_desc
sort_desc-Below n [] b = refl
sort_desc-Below n (r ∷ rs) b = rw (sort_desc-Below r.id rs b.2) (insert_desc_newest r n rs b)

-- The ids of the runs are below the bound and fall from run to run.
abbrev pub Falling : ℕ → List Run → Type 0
Falling n [] = Unit {0}
Falling n (r ∷ rs) = (r.id < n) × Falling r.id rs

Falling-mono : (m n : ℕ) (l : List Run) → m ≤ n → Falling m l → Falling n l
Falling-mono m n [] h f = tt
Falling-mono m n (r ∷ l) h f = (omega arith, f.1)

Falling-page :
    (n k m : ℕ) (rs : List Row) → Below n rs → Falling n (map scan_run (take k (drop m rs)))
Falling-page n zero m rs b = tt
Falling-page n (suc k) zero [] b = tt
Falling-page n (suc k) zero (r ∷ rs) b = (b.1, Falling-page r.id k zero rs b.2)
Falling-page n (suc k) (suc m) [] b = tt
Falling-page n (suc k) (suc m) (r ∷ rs) b =
    Falling-mono r.id n _ (omega arith) (Falling-page r.id (suc k) m rs b.2)

Falling-all : (n : ℕ) (rs : List Row) → Below n rs → Falling n (map scan_run rs)
Falling-all n [] b = tt
Falling-all n (r ∷ rs) b = (b.1, Falling-all r.id rs b.2)

take-add {ℓ} :
    {A : Type ℓ} (a b : ℕ) (xs : List A) → take a xs ++ take b (drop a xs) ≡ take (a + b) xs
take-add zero b xs = rw (add.zero b)
take-add (suc a) zero [] = rw (add.suc a zero)
take-add (suc a) (suc b) [] = rw (add.suc a (suc b))
take-add (suc a) b (x ∷ xs) = rw (add.suc a b) (ap (◌∷◌ x) (take-add a b xs))

drop-add {ℓ} : {A : Type ℓ} (a b : ℕ) (xs : List A) → drop b (drop a xs) ≡ drop (a + b) xs
drop-add zero b xs = rw (add.zero b)
drop-add (suc a) zero [] = rw (add.suc a zero)
drop-add (suc a) (suc b) [] = rw (add.suc a (suc b))
drop-add (suc a) b (x ∷ xs) = rw (add.suc a b) (drop-add a b xs)

-- The page that `ListRuns` returns, over the stored rows.
pub page : ℕ → ℕ → Store → List Run
page limit offset s = map scan_run (take limit (drop offset s.runs))

page-append : (a b m : ℕ) (s : Store) → page a m s ++ page b (m + a) s ≡ page (a + b) m s
unfolding page
page-append a b m s =
    rw (← drop-add m a s.runs, ← map-append) (ap (map scan_run) (take-add a b (drop m s.runs)))

length-page : (a m : ℕ) (s : Store) → length (page a m s) ≤ a
unfolding page
length-page a m s =
    omega (arith, length-map scan_run (take a (drop m s.runs)), length-take a (drop m s.runs))

pub list_runs_page :
    (s : Store) (a m : ℕ)
    → IsValid s
    → (p : List Run) × (list_runs false a m s ≡ some p) × (length p ≤ a) × Falling (suc s.seq) p
unfolding list_runs page
list_runs_page s a m v = (
  page a m s,
  rw (sort_desc-Below (suc s.seq) s.runs v),
  length-page a m s,
  Falling-page (suc s.seq) a m s.runs v,
)

-- The second list has the rows of the first in some order: each row is put in somewhere.
pub data IsShuffle : List Row → List Row → Type 0 where
  nothing : IsShuffle [] []
  put :
      (r : Row) (rs pre post : List Row)
      → IsShuffle rs (pre ++ post)
      → IsShuffle (r ∷ rs) (pre ++ r ∷ post)

-- Every row has an id below the bound.
abbrev AllBelow : ℕ → List Row → Type 0
AllBelow n [] = Unit {0}
AllBelow n (r ∷ rs) = (r.id < n) × AllBelow n rs

AllBelow-Below : (n k : ℕ) (rs : List Row) → n ≤ k → Below n rs → AllBelow k rs
AllBelow-Below n k [] h b = tt
AllBelow-Below n k (r ∷ rs) h b = (omega arith, AllBelow-Below r.id k rs (omega arith) b.2)

AllBelow-put :
    (n : ℕ) (r : Row) (pre post : List Row)
    → r.id < n
    → AllBelow n (pre ++ post)
    → AllBelow n (pre ++ r ∷ post)
AllBelow-put n r [] post h a = (h, a)
AllBelow-put n r (p ∷ pre) post h a = (a.0, AllBelow-put n r pre post h a.1)

AllBelow-shuffle : (n : ℕ) (rs qs : List Row) → IsShuffle rs qs → AllBelow n rs → AllBelow n qs
AllBelow-shuffle n _ _ nothing a = tt
AllBelow-shuffle n _ _ (put r rs pre post h) a =
    AllBelow-put n r pre post a.0 (AllBelow-shuffle n rs (pre ++ post) h a.1)

AllBelow-insert :
    (n : ℕ) (r : Row) (rs : List Row) → r.id < n → AllBelow n rs → AllBelow n (insert_desc r rs)
unfolding insert_desc
AllBelow-insert n r [] h a = (h, tt)
AllBelow-insert n r (q ∷ rs) h a =
    let rest = AllBelow-insert n r rs h a.1 in
    elim (Bool-cases (ltb r.id q.id)) [ inl y ↦ rw y (a.0, rest) | inr y ↦ rw y (h, (a.0, a.1)) ]

AllBelow-sort : (n : ℕ) (rs : List Row) → AllBelow n rs → AllBelow n (sort_desc rs)
unfolding sort_desc
AllBelow-sort n [] a = tt
AllBelow-sort n (r ∷ rs) a = AllBelow-insert n r (sort_desc rs) a.0 (AllBelow-sort n rs a.1)

insert_desc_first : (r : Row) (rs : List Row) → AllBelow r.id rs → insert_desc r rs ≡ r ∷ rs
unfolding insert_desc
insert_desc_first r [] a = refl
insert_desc_first r (q ∷ rs) a = ground (arith, a.0)

-- A row whose id is above all others comes first, wherever it stands.
sort_desc-put :
    (r : Row) (pre post : List Row)
    → AllBelow r.id (pre ++ post)
    → sort_desc (pre ++ r ∷ post) ≡ r ∷ sort_desc (pre ++ post)
unfolding sort_desc insert_desc
sort_desc-put r [] post a = insert_desc_first r (sort_desc post) (AllBelow-sort r.id post a)
sort_desc-put r (p ∷ pre) post a = rw (sort_desc-put r pre post a.1) (ground (arith, a.0))

sort_desc-shuffle : (n : ℕ) (rs qs : List Row) → IsShuffle rs qs → Below n rs → sort_desc qs ≡ rs
unfolding sort_desc
sort_desc-shuffle n _ _ nothing b = refl
sort_desc-shuffle n _ _ (put r rs pre post h) b =
    let below =
      AllBelow-shuffle r.id rs (pre ++ post) h (AllBelow-Below r.id r.id rs (omega arith) b.2) in
    sort_desc-put r pre post below ∙ ap (◌∷◌ r) (sort_desc-shuffle r.id rs (pre ++ post) h b.2)

-- The table holds the rows of a valid one in any order. A page of `a` runs from offset `m` is then
-- what stands from place `m` on, `a` runs at most, in the order of falling ids: the newest run first,
-- whatever the order of the table. Two pages in a row are together the page of both, so that no run
-- is skipped or repeated.
pub list_runs_pages :
    (s t : Store) (a b m : ℕ)
    → IsValid s
    → IsShuffle s.runs t.runs
    → let p = map scan_run (take a (drop m s.runs)) in
      let q = map scan_run (take b (drop (m + a) s.runs)) in
      (list_runs false a m t ≡ some p)
      × (list_runs false b (m + a) t ≡ some q)
      × (list_runs false (a + b) m t ≡ some (p ++ q))
      × Falling (suc s.seq) (map scan_run s.runs)
unfolding list_runs page
list_runs_pages s t a b m v h =
    let sorted = sort_desc-shuffle (suc s.seq) s.runs t.runs h v in
    (
      rw sorted,
      rw sorted,
      rw sorted (ap some (sym (page-append a b m s))),
      Falling-all (suc s.seq) s.runs v,
    )
