-- ===== src/Collector/Tests.antt =====
-- A summary line and a cache, for the witnesses. The decoder reads one text as the summary object.
use oracle_backup.Base.{false, [], Option, none, some, if◌then◌else◌}
use oracle_backup.Base.Int.{pos}
use oracle_backup.Text.{Text, codes, same}
use oracle_backup.Collector.Summary.{BackupSummary, summary_type}
use oracle_backup.Collector.Cache.{
  SnapCache, failed, Served, list_snapshots_cached, list_snapshots_cached-Served,
}

abbrev summary : BackupSummary
summary = record {
  message_type = summary_type;
  data_added = pos 7;
  total_bytes = pos 9;
  snapshot_id = codes "abcd1234";
}

abbrev decode : Text → Option BackupSummary
decode t = if same t (codes "S") then some summary else none

abbrev stdout : Text
stdout = codes "x\nS\ny\n"

abbrev empty_cache : SnapCache
empty_cache = record { snaps = none; at = 0 }

abbrev stale_cache : SnapCache
stale_cache = record { snaps = some []; at = 5 }

list_snapshots_cached-Served_example :
    Served 15 false 30 failed 31 stale_cache stale_cache
      (list_snapshots_cached 15 false 30 failed 31 stale_cache stale_cache)
list_snapshots_cached-Served_example =
    list_snapshots_cached-Served 15 30 31 false failed stale_cache stale_cache
