-- ===== src/Web/Stays.antt =====
-- What the cache of listings answers once a directory was shown.
use oracle_backup.Base.{
  true, ◌≡◌, inl, [], Bool-cases, inr, refl, sym, ap, ◌∙◌, subst, List, ◌∷◌, Option, some, arith,
}
use oracle_backup.Text.{Text, codes, same, same_iff}
use oracle_backup.Inputs.Texts.{valid_snap_id, safe_restic_path}
use oracle_backup.Web.Request.{Listing, Request, Site, listing}
use oracle_backup.Web.Listings.{
  Node, cache_key, path_or_root, find_listing, listing_of, list_directory, handle_snapshot_ls,
}
use oracle_backup.Web.Kept.{Fails, handle_snapshot_ls_lem, list_directory_cases}

again :
    (decode : Text → Option Node) (restic : Text → Text → Option Text) (r : Request) (s : Site)
    (l : Listing)
    → valid_snap_id (r.query (codes "id")) ≡ true
    → safe_restic_path (r.query (codes "path")) ≡ true
    → find_listing
        (cache_key (r.query (codes "id")) (path_or_root (r.query (codes "path"))))
        s.ls_cache
      ≡ some l
    → handle_snapshot_ls decode restic r s ≡ (listing l, s)
unfolding handle_snapshot_ls list_directory
again decode restic r s l v p f = rw (handle_snapshot_ls, v, p, list_directory, f) refl

find_listing-here :
    (key : Text) (l : Listing) (cache : List (Text × Listing))
    → find_listing key ((key, l) ∷ cache) ≡ some l
unfolding find_listing
find_listing-here key l cache = ground (arith, same_iff key key)

-- A listing that is cached stays, whatever directory is asked for.
find_listing-stays :
    (decode : Text → Option Node) (restic : Text → Text → Option Text) (r : Request) (s : Site)
    (key : Text) (l : Listing)
    → find_listing key s.ls_cache ≡ some l
    → find_listing key (handle_snapshot_ls decode restic r s).1.ls_cache ≡ some l
unfolding find_listing
find_listing-stays decode restic r s key l h = elim (handle_snapshot_ls_lem decode restic r s) [
  | inl (w, e) ↦ rw e h
  | inr (v, p, e) ↦
      let snap = r.query (codes "id") in
      let path = path_or_root (r.query (codes "path")) in
      elim (list_directory_cases decode restic snap path r s) [
        | inl (m, f, d) ↦ rw (e ∙ d) h
        | inr (inl (n, k, f, d)) ↦ rw (ap (λ x. x.1) e ∙ d) h
        | inr (inr (out, n, k, d)) ↦ elim (Bool-cases (same (cache_key snap path) key)) [
          | inl y ↦
              let w : cache_key snap path ≡ key = (same_iff (cache_key snap path) key).0 y in
              absurd (cc (sym h ∙ ap (λ x. find_listing x s.ls_cache) (sym w) ∙ n))
          | inr y ↦ rw (e ∙ d, y) h
        ]
      ]
]

-- Requests for directories, each with what `restic ls` prints by then.
unfoldable pub browse :
    (Text → Option Node) → List (Request × (Text → Text → Option Text)) → Site → Site
browse decode [] s = s
browse decode ((r, restic) ∷ rs) s = browse decode rs (handle_snapshot_ls decode restic r s).1

find_listing-browse :
    (decode : Text → Option Node) (rs : List (Request × (Text → Text → Option Text))) (s : Site)
    (key : Text) (l : Listing)
    → find_listing key s.ls_cache ≡ some l
    → find_listing key (browse decode rs s).ls_cache ≡ some l
unfolding browse
find_listing-browse decode [] s key l h = h
find_listing-browse decode ((r, restic) ∷ rs) s key l h =
    find_listing-browse decode rs (handle_snapshot_ls decode restic r s).1 key l
      (find_listing-stays decode restic r s key l h)

-- A directory that was shown is cached as it was shown.
shown_cached :
    (decode : Text → Option Node) (restic : Text → Text → Option Text) (r : Request) (s : Site)
    (l : Listing)
    → (handle_snapshot_ls decode restic r s).0 ≡ listing l
    → let snap = r.query (codes "id") in
      let path = r.query (codes "path") in
      (valid_snap_id snap ≡ true)
      × (safe_restic_path path ≡ true)
      × (find_listing
            (cache_key snap (path_or_root path))
            (handle_snapshot_ls decode restic r s).1.ls_cache
          ≡ some l)
shown_cached decode restic r s l h = elim (handle_snapshot_ls_lem decode restic r s) [
  | inl (w, e) ↦ absurd (cc (sym h ∙ ap (λ x. x.0) e))
  | inr (v, p, e) ↦
      let snap = r.query (codes "id") in
      let path = path_or_root (r.query (codes "path")) in
      elim (list_directory_cases decode restic snap path r s) [
        | inl (m, f, d) ↦
            let q : listing l ≡ listing m = sym h ∙ ap (λ x. x.0) (e ∙ d) in
            (v, p, rw (ap (λ x. x.1) (e ∙ d)) (f ∙ cc q))
        | inr (inl (n, k, f, d)) ↦ elim (subst Fails (sym (ap (λ x. x.0) e) ∙ h) f) [
          | inl g ↦ absurd (cc g)
          | inr g ↦ absurd (cc g)
        ]
        | inr (inr (out, n, k, d)) ↦
            let m = listing_of decode path out in
            let q : listing l ≡ listing m = sym h ∙ ap (λ x. x.0) (e ∙ d) in
            (
              v,
              p,
              rw (ap (λ x. x.1) (e ∙ d))
                  (find_listing-here (cache_key snap path) m s.ls_cache ∙ cc q),
            )
      ]
]

-- Once a directory was shown, every later request for it, from any session and behind any number of
-- other requests for directories, gets the very same listing and changes nothing, whatever
-- `restic ls` would print by then; the snapshot "latest" is no exception.
pub handle_snapshot_ls_stays :
    (decode : Text → Option Node) (restic restic' : Text → Text → Option Text) (r r' : Request)
    (s : Site) (l : Listing) (between : List (Request × (Text → Text → Option Text)))
    → (handle_snapshot_ls decode restic r s).0 ≡ listing l
    → r'.query (codes "id") ≡ r.query (codes "id")
    → r'.query (codes "path") ≡ r.query (codes "path")
    → let s' = browse decode between (handle_snapshot_ls decode restic r s).1 in
      handle_snapshot_ls decode restic' r' s' ≡ (listing l, s')
handle_snapshot_ls_stays decode restic restic' r r' s l between h i p =
    let (v, w, f) = shown_cached decode restic r s l h in
    again decode restic' r' _ l (rw i v) (rw p w)
      (rw (i, p) (find_listing-browse decode between _ _ l f))
