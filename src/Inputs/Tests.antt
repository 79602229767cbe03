-- ===== src/Inputs/Tests.antt =====
-- Inputs of each kind, for the witnesses.
use oracle_backup.Base.{◌≡◌, ◌≢◌, ◌↔◌, refl, [], ◌∷◌, none, All}
use oracle_backup.Text.{Text, codes, fields, clean, slash, elem, is_space}
use oracle_backup.Inputs.DbJobs.{default_db_jobs, valid_db_jobs}
use oracle_backup.Inputs.ValidJobs.{IsJob, Distinct, valid_db_jobs_iff}
use oracle_backup.Inputs.SourcePaths.{valid_source_paths}
use oracle_backup.Inputs.Sources.{IsSource, valid_source_paths_iff}
use oracle_backup.Inputs.DoubleSlash.{IsPlainName, doubled, doubled_accepted}

valid_db_jobs_iff_example :
    (valid_db_jobs default_db_jobs ≡ none)
    ↔ (All IsJob default_db_jobs × Distinct [] default_db_jobs)
valid_db_jobs_iff_example = valid_db_jobs_iff default_db_jobs

abbrev sources : Text
sources = codes "/home /srv/data"

valid_source_paths_iff_example :
    (valid_source_paths sources ≡ none) ↔ ((fields sources ≢ []) × All IsSource (fields sources))
valid_source_paths_iff_example = valid_source_paths_iff sources

etc-IsPlainName : IsPlainName (codes "etc")
unfolding elem is_space
etc-IsPlainName = record { some_rune = λ e. cc; no_slash = refl; no_dot = refl; no_space = refl }

doubled_accepted_example :
    (valid_source_paths (doubled (codes "etc")) ≡ none)
    × (clean (doubled (codes "etc")) ≡ slash ∷ codes "etc")
doubled_accepted_example = doubled_accepted (codes "etc") etc-IsPlainName

abbrev hook : Text
hook = codes "https://a.example/x"

abbrev folder : Text
folder = codes " backups/a "
