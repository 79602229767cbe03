-- ===== src/Web/Kept.antt =====
-- The cache of listings: what it holds, and that it keeps it.
use oracle_backup.Base.{
  true, false, ◌≡◌, ◌⊎◌, inl, inr, refl, sym, ap, ◌∙◌, subst, List, [], ◌∷◌, Option, none, some,
  arith, All, Bool-cases, Option-cases,
}
use oracle_backup.Text.{Text, codes, same, same_iff}
use oracle_backup.Inputs.Texts.{valid_snap_id, safe_restic_path}
use oracle_backup.Web.Request.{Listing, Request, Site, Response, str, text, json, listing}
use oracle_backup.Web.Listings.{
  Node, cache_key, path_or_root, find_listing, listing_of, list_directory, handle_snapshot_ls,
}
use oracle_backup.Web.Browsed.{Lists, listing_of-Lists, cache_key_injective, valid_snap_id-no_zero}

-- What `restic ls` prints for a path of a snapshot, whenever it prints something.
abbrev pub Answers : (Text → Text → Option Text) → (Text → Text → Text) → Type 0
Answers restic content =
    (snap path out : Text) → restic snap path ≡ some out → out ≡ content snap path

-- A listing of the cache is the one of the snapshot and path that its key stands for.
pub record IsTrueAt (decode : Text → Option Node) (content : Text → Text → Text)
    (at : Text × Listing) : Type 0 where
  pub snap : Text
  pub path : Text
  pub valid : valid_snap_id snap ≡ true
  pub keyed : at.0 ≡ cache_key snap path
  pub true_listing : at.1 ≡ listing_of decode path (content snap path)

abbrev pub IsTrue : (Text → Option Node) → (Text → Text → Text) → Site → Type 0
IsTrue decode content s = All (IsTrueAt decode content) s.ls_cache

find_listing-All :
    (P : Text × Listing → Type 0) (key : Text) (l : Listing) (cache : List (Text × Listing))
    → All P cache
    → find_listing key cache ≡ some l
    → P (key, l)
unfolding find_listing
find_listing-All P key l [] h e = absurd (ground arith)
find_listing-All P key l ((k, m) ∷ cache) (p, h) e = elim (Bool-cases (same k key)) [
  | inl y ↦
      let u : k ≡ key = (same_iff k key).0 y in
      let w : m ≡ l = ground arith in subst P (cc (u, w)) p
  | inr n ↦ find_listing-All P key l cache h (ground arith)
]

-- What a request for a directory may be answered with, and what it leaves.
pub record Shows (decode : Text → Option Node) (snap path out : Text) (resp : Response)
    : Type 0 where
  pub valid : valid_snap_id snap ≡ true
  pub safe_path : safe_restic_path path ≡ true
  pub shown : Listing
  pub answer : resp ≡ listing shown
  pub lists : Lists decode (path_or_root path) out shown

abbrev pub Fails : Response → Type 0
Fails resp =
    (resp ≡ text 400 (codes "bad params"))
    ⊎ (resp ≡ json 502 ((codes "error", str (codes "ls failed")) ∷ []))

-- Why a request for a directory may fail.
abbrev pub Unanswerable : (Text → Text → Option Text) → Text → Text → Site → Type 0
Unanswerable restic snap path s =
    (valid_snap_id snap ≡ false)
    ⊎ ((safe_restic_path path ≡ false)
        ⊎ ((find_listing (cache_key snap (path_or_root path)) s.ls_cache ≡ none)
            × (restic snap (path_or_root path) ≡ none)))

listed-Lists :
    (decode : Text → Option Node) (content : Text → Text → Text) (snap path : Text) (l : Listing)
    → valid_snap_id snap ≡ true
    → IsTrueAt decode content (cache_key snap path, l)
    → Lists decode path (content snap path) l
listed-Lists decode content snap path l v t =
    let (a, b) =
      cache_key_injective snap t.snap path t.path (valid_snap_id-no_zero snap v)
        (valid_snap_id-no_zero t.snap t.valid) t.keyed in
    subst (Lists decode path (content snap path)) (cc (a, b, t.true_listing))
      (listing_of-Lists decode path (content snap path))

module _ (decode : Text → Option Node) (restic : Text → Text → Option Text) where
  -- The request for a directory is answered from the cache, fails, or adds its listing to the cache.
  pub list_directory_cases :
      (snap path : Text) (r : Request) (s : Site)
      → ((l : Listing) × (find_listing (cache_key snap path) s.ls_cache ≡ some l)
          × (list_directory decode restic snap path r s ≡ (listing l, s)))
        ⊎ ((find_listing (cache_key snap path) s.ls_cache ≡ none)
            × (restic snap path ≡ none)
            × Fails (list_directory decode restic snap path r s).0
            × ((list_directory decode restic snap path r s).1 ≡ s))
        ⊎ ((out : Text) × (find_listing (cache_key snap path) s.ls_cache ≡ none)
            × (restic snap path ≡ some out)
            × (list_directory decode restic snap path r s ≡ (
              listing (listing_of decode path out),
              record s {
                ls_cache = (cache_key snap path, listing_of decode path out) ∷ s.ls_cache;
              },
            )))
  unfolding list_directory
  list_directory_cases snap path r s =
      elim (Option-cases (find_listing (cache_key snap path) s.ls_cache)) [
        | inr (l, e) ↦ inl (l, e, ground arith)
        | inl e ↦ elim (Option-cases (restic snap path)) [
          | inl k ↦ inr (inl (e, k, inr (ground arith), ground arith))
          | inr (out, k) ↦ inr (inr (out, e, k, ground arith))
        ]
      ]

  pub handle_snapshot_ls_lem :
      (r : Request) (s : Site)
      → let snap = r.query (codes "id") in
        let path = r.query (codes "path") in
        (((valid_snap_id snap ≡ false) ⊎ (safe_restic_path path ≡ false))
          × (handle_snapshot_ls decode restic r s ≡ (text 400 (codes "bad params"), s)))
        ⊎ ((valid_snap_id snap ≡ true)
            × (safe_restic_path path ≡ true)
            × (handle_snapshot_ls decode restic r s
                ≡ list_directory decode restic snap (path_or_root path) r s))
  unfolding handle_snapshot_ls
  handle_snapshot_ls_lem r s = elim (Bool-cases (valid_snap_id (r.query (codes "id")))) [
    | inr n ↦ inl (inl n, ground arith)
    | inl y ↦ elim (Bool-cases (safe_restic_path (r.query (codes "path")))) [
      | inr n ↦ inl (inr n, ground arith)
      | inl z ↦ inr (y, z, ground arith)
    ]
  ]

-- The cache of listings stays true to the snapshots, as long as what `restic ls` prints depends only
-- on the snapshot and the path: each listing in it is the one of the snapshot and path of its key. A
-- request with a valid snapshot and a safe path, for which `restic ls` does not fail, gets the listing
-- of just that snapshot and path, whether from the cache or not: sorted, and with the first 1000
-- entries that `restic ls` prints. An error is answered only where the snapshot or the path is not
-- valid, or nothing is cached and `restic ls` fails; it changes nothing.
pub handle_snapshot_ls-Shows :
    (decode : Text → Option Node) (restic : Text → Text → Option Text)
    (content : Text → Text → Text) (r : Request) (s : Site)
    → Answers restic content
    → IsTrue decode content s
    → let snap = r.query (codes "id") in
      let path = r.query (codes "path") in
      let (resp, s') = handle_snapshot_ls decode restic r s in
      (Unanswerable restic snap path s × Fails resp × (s' ≡ s))
      ⊎ (Shows decode snap path (content snap (path_or_root path)) resp × IsTrue decode content s')
handle_snapshot_ls-Shows decode restic content r s a t =
    elim (handle_snapshot_ls_lem decode restic r s) [
      | inl (w, e) ↦
          inl
            (elim w [ inl v ↦ inl v | inr v ↦ inr (inl v) ], inl (ap (λ x. x.0) e), ap (λ x. x.1) e)
      | inr (v, p, e) ↦
          let snap = r.query (codes "id") in
          let path = path_or_root (r.query (codes "path")) in
          elim (list_directory_cases decode restic snap path r s) [
            | inl (l, f, d) ↦ inr (
              record {
                valid = v;
                safe_path = p;
                shown = l;
                answer = ap (λ x. x.0) (e ∙ d);
                lists =
                    listed-Lists decode content snap path l v
                      (find_listing-All _ _ l s.ls_cache t f);
              },
              subst (IsTrue decode content) (sym (ap (λ x. x.1) (e ∙ d))) t,
            )
            | inr (inl (n, k, f, d)) ↦
                inl (inr (inr (n, k)), subst Fails (sym (ap (λ x. x.0) e)) f, ap (λ x. x.1) e ∙ d)
            | inr (inr (out, n, k, d)) ↦
                let l = listing_of decode path out in
                let c = a snap path out k in
                inr (
                  record {
                    valid = v;
                    safe_path = p;
                    shown = l;
                    answer = ap (λ x. x.0) (e ∙ d);
                    lists = subst (λ o. Lists decode path o l) c (listing_of-Lists decode path out);
                  },
                  subst (IsTrue decode content) (sym (ap (λ x. x.1) (e ∙ d))) (
                    record {
                      snap = snap;
                      path = path;
                      valid = v;
                      keyed = refl;
                      true_listing = ap (listing_of decode path) c;
                    },
                    t,
                  ),
                )
          ]
    ]
