-- ===== src/Web/DockerTests.antt =====
-- A listing, a new remote and a command line, for the witnesses.
use oracle_backup.Base.{
  false, true, ◌≡◌, ◌⊎◌, refl, [], ◌∷◌, ◌++◌, Option, none, some, if◌then◌else◌,
}
use oracle_backup.Base.Int.{pos}
use oracle_backup.Text.{Text, codes, same, trim_space}
use oracle_backup.Inputs.Texts.{valid_snap_id, safe_restic_path, valid_webhook_url}
use oracle_backup.Rclone.Engine.{Docker}
use oracle_backup.Web.Request.{Request, Listing, listing, require_auth}
use oracle_backup.Web.Saved.{Trusted}
use oracle_backup.Web.Listings.{
  Node, path_or_root, find_listing, listing_of, list_directory, handle_snapshot_ls,
}
use oracle_backup.Web.Kept.{Answers, IsTrue, Fails, Unanswerable, Shows, handle_snapshot_ls-Shows}
use oracle_backup.Web.Stays.{browse, handle_snapshot_ls_stays}
use oracle_backup.Web.Remotes.{AddBody}
use oracle_backup.Web.Looked.{Sends, handle_alert_webhook_test-Sends}
use oracle_backup.Web.Destinations.{Remotes, answered, handle_alert_webhook_test}
use oracle_backup.Web.Tests.{env, post, site}

abbrev pub decode : Text → Option Node
decode line = some (record {
  name = line;
  type = codes "file";
  path = codes "/" ++ line;
  size = pos 1;
  struct_type = codes "node";
})

abbrev content : Text → Text → Text
content snap path = codes "{b\n{a\nx"

abbrev pub restic : Text → Text → Option Text
restic snap path = some (content snap path)

restic-Answers : Answers restic content
restic-Answers snap path out e = cc e

abbrev asks : Request
asks = record post { query = λ key. if same key (codes "id") then codes "latest" else [] }

site-IsTrue : IsTrue decode content site
site-IsTrue = tt

handle_snapshot_ls-Shows_example :
    let snap = asks.query (codes "id") in
    let path = asks.query (codes "path") in
    let (resp, s') = handle_snapshot_ls decode restic asks site in
    (Unanswerable restic snap path site × Fails resp × (s' ≡ site))
    ⊎ (Shows decode snap path (content snap (path_or_root path)) resp × IsTrue decode content s')
handle_snapshot_ls-Shows_example =
    handle_snapshot_ls-Shows decode restic content asks site restic-Answers site-IsTrue

abbrev shown : Listing
shown = listing_of decode (codes "/") (content [] [])

latest_shown : (handle_snapshot_ls decode restic asks site).0 ≡ listing shown
unfolding handle_snapshot_ls valid_snap_id same safe_restic_path list_directory find_listing
latest_shown = refl

abbrev gone : Text → Text → Option Text
gone snap path = none

abbrev asks_other : Request
asks_other = record post { query = λ key. if same key (codes "id") then codes "abcd1234" else [] }

abbrev asks_again : Request
asks_again = record asks { session = none }

handle_snapshot_ls_stays_example :
    let s' =
      browse decode ((asks_other, restic) ∷ []) (handle_snapshot_ls decode restic asks site).1 in
    handle_snapshot_ls decode gone asks_again s' ≡ (listing shown, s')
handle_snapshot_ls_stays_example =
    handle_snapshot_ls_stays decode restic gone asks asks_again site shown
      ((asks_other, restic) ∷ []) latest_shown refl refl

abbrev pub docker : Docker
docker = record {
  run = λ args. (none, codes "ok");
  decode = λ out. some (
      record {
        mounts = record { source = codes "/srv/rclone"; destination = codes "/etc/rclone" } ∷ [];
        image = codes "engine";
        running = true;
        networks = codes "net" ∷ [];
      }
      ∷ []);
  self_container = codes "engine";
  hostname = none;
}

abbrev line : Text
line = codes "lsd nas:"

abbrev nas : AddBody
nas = record {
  name = codes "nas";
  type = codes "sftp";
  params = (codes "host", codes "10.0.0.2") ∷ [];
}

abbrev pub remotes : Remotes
remotes = record {
  connected = λ t. true;
  list = λ t. some [];
  has_repo = λ t. false;
  post = λ u b. answered 204;
  host_tag = [];
}

abbrev hook : Text
hook = codes "https://hooks.example/x"

handle_alert_webhook_test-Sends_example :
    let res = require_auth env (handle_alert_webhook_test env remotes (some hook)) post site in
    (res.1 ≡ site)
    ⊎ (Trusted env (codes "POST") post
        × (u : Text) × (some hook ≡ some u)
        × (valid_webhook_url (trim_space u) ≡ true)
        × Sends env remotes (trim_space u) post site res.1)
handle_alert_webhook_test-Sends_example =
    handle_alert_webhook_test-Sends env remotes (some hook) post site
