-- ===== src/Collector/Cache.antt =====
-- `ListSnapshotsCached`: the snapshot list, kept for a short time and served stale on an error.
use oracle_backup.Base.{
  ◌≤◌, ℕ, ◌+◌, ◌<◌, Bool, true, false, not, Bool-cases, ◌&&◌, ◌≡◌, refl, ◌⊎◌, inl, inr, List, [],
  ◌∷◌, Option, none, some, arith, ltb, if◌then◌else◌,
}
use oracle_backup.Text.{Text, codes}

pub record Snapshot : Type 0 where
  pub id : Text
  pub short_id : Text
  pub time : Text
  pub hostname : Text
  pub tags : List Text
  pub paths : List Text

-- `snapCache`: `none` is the nil slice. `at` is 0 for the zero time.
pub record SnapCache : Type 0 where
  pub snaps : Option (List Snapshot)
  pub at : ℕ

-- A slice that may be nil, or an error.
pub data Listed : Type 0 where
  listed : Option (List Snapshot) → Listed
  failed : Listed

abbrev pub parsed : Option (Option (List Snapshot)) → Listed
parsed none = failed
parsed (some s) = listed s

-- `ListSnapshots`: `restic` is what a command prints, `none` for an error, and `decode` is
-- `json.Unmarshal`, which makes a nil slice of null.
unfoldable pub list_snapshots :
    (List Text → Option Text) → (Text → Option (Option (List Snapshot))) → Listed
list_snapshots restic decode =
    elim (restic (codes "restic" ∷ codes "snapshots" ∷ codes "--json" ∷ [])) [
      | none ↦ failed
      | some b ↦ parsed (decode b)
    ]

abbrev pub is_some {ℓ} : {A : Type ℓ} → Option A → Bool
is_some none = false
is_some (some a) = true

-- The part behind the fetch: `later` is the clock, and `c` the cache when its lock is taken again.
unfoldable pub store_fetched : Listed → ℕ → SnapCache → Listed × SnapCache
store_fetched (listed d) later c = (listed d, record { snaps = d; at = later })
store_fetched failed later c = if is_some c.snaps then (listed c.snaps, c) else (failed, c)

-- `!fresh && snapCache.data != nil && time.Since(snapCache.at) < ttl`
abbrev pub is_current : ℕ → Bool → ℕ → SnapCache → Bool
is_current ttl fresh now c = not fresh && is_some c.snaps && ltb now (c.at + ttl)

-- `fetch` is what `ListSnapshots` answers if it is called. Other calls may run during the fetch, so
-- the cache `c'` that the lock guards after it need not be the cache `c` before it.
unfoldable pub list_snapshots_cached :
    ℕ → Bool → ℕ → Listed → ℕ → SnapCache → SnapCache → Listed × SnapCache
unfolding store_fetched
list_snapshots_cached ttl fresh now fetch later c c' =
    if is_current ttl fresh now c then (listed c.snaps, c) else store_fetched fetch later c'

-- A fresh list is asked for, nothing is cached, or the cache is as old as the limit.
abbrev pub IsStale : ℕ → Bool → ℕ → SnapCache → Type 0
IsStale ttl fresh now c = (fresh ≡ true) ⊎ ((is_some c.snaps ≡ false) ⊎ (c.at + ttl ≤ now))

IsStale_lem :
    (ttl now : ℕ) (fresh : Bool) (c : SnapCache)
    → is_current ttl fresh now c ≡ false
    → IsStale ttl fresh now c
IsStale_lem ttl now true c h = inl refl
IsStale_lem ttl now false c h = elim (Bool-cases (is_some c.snaps)) [
  | inr n ↦ inr (inl n)
  | inl y ↦ inr (inr (ground (arith, h, y)))
]

-- The answer and the cache that the call leaves.
abbrev pub Served : ℕ → Bool → ℕ → Listed → ℕ → SnapCache → SnapCache → Listed × SnapCache → Type 0
Served ttl fresh now fetch later c c' r =
    ((fresh ≡ false) × (is_some c.snaps ≡ true) × (now < c.at + ttl) × (r ≡ (listed c.snaps, c)))
    ⊎ (IsStale ttl fresh now c
        × (((d : Option (List Snapshot)) × (fetch ≡ listed d)
              × (r ≡ (listed d, record { snaps = d; at = later })))
            ⊎ (((fetch ≡ failed) × (is_some c'.snaps ≡ true) × (r ≡ (listed c'.snaps, c')))
                ⊎ ((fetch ≡ failed) × (is_some c'.snaps ≡ false) × (r ≡ (failed, c'))))))

-- The answer of a call is the cached list, when a fresh one is not asked for and the cache is younger
-- than the limit. Only when a fresh one is asked for, nothing is cached or the cache is as old as the
-- limit, it is one of three others: the fetched list, which is then cached with its time; on a failed
-- fetch the list that is cached then, however old; and the error when the fetch fails and nothing is
-- cached. In all but the second of the four the cache is left as it was found.
pub list_snapshots_cached-Served :
    (ttl now later : ℕ) (fresh : Bool) (fetch : Listed) (c c' : SnapCache)
    → Served ttl fresh now fetch later c c' (list_snapshots_cached ttl fresh now fetch later c c')
unfolding list_snapshots_cached
list_snapshots_cached-Served ttl now later fresh fetch c c' =
    elim (Bool-cases (is_current ttl fresh now c)) [
      | inl y ↦ inl (ground arith, ground arith, ground arith, rw y)
      | inr n ↦ rw n (inr (IsStale_lem ttl now fresh c n, fetched fetch))
    ]
  where
    fetched :
        (f : Listed)
        → ((d : Option (List Snapshot)) × (f ≡ listed d)
            × (store_fetched f later c' ≡ (listed d, record { snaps = d; at = later })))
          ⊎ (((f ≡ failed)
                × (is_some c'.snaps ≡ true)
                × (store_fetched f later c' ≡ (listed c'.snaps, c')))
              ⊎ ((f ≡ failed)
                  × (is_some c'.snaps ≡ false)
                  × (store_fetched f later c' ≡ (failed, c'))))
    fetched (listed d) = inl (d, refl, refl)
    fetched failed = elim (Bool-cases (is_some c'.snaps)) [
      | inl y ↦ inr (inl (refl, y, rw y))
      | inr n ↦ inr (inr (refl, n, rw n))
    ]

-- A list is younger than `ttl` at the next call within it: right after a successful fetch a call
-- that does not ask for a fresh list is answered from the cache, whatever a fetch would answer.
pub list_snapshots_cached_twice :
    (ttl now later soon : ℕ) (fresh : Bool) (snaps : List Snapshot) (fetch : Listed) (end : ℕ)
    (c c' c'' : SnapCache)
    → is_current ttl fresh now c ≡ false
    → soon < later + ttl
    → (list_snapshots_cached ttl false soon fetch end
        (list_snapshots_cached ttl fresh now (listed (some snaps)) later c c').1
        c'').0
      ≡ listed (some snaps)
unfolding list_snapshots_cached
list_snapshots_cached_twice ttl now later soon fresh snaps fetch end c c' c'' stale h =
    rw stale (ground arith)
