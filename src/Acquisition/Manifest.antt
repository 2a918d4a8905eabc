-- ===== src/Acquisition/Manifest.antt =====
-- analysis/provenance.py: compute_output_manifest_hash, output_manifest_problems and
-- collection_run_problems.
use logistics_situation_plat.Evidence.{instant}
use logistics_situation_plat.Acquisition.Digest.{is_sha256}
use logistics_situation_plat.Grading.{text_gt}
use logistics_situation_plat.Model.{
  Run, RunStatus, Time, ManifestEntry, run_status_eq, run_success, run_not_modified, run_disabled,
  run_error, run_dry,
}
use logistics_situation_plat.Base.{
  length, lookup, is_present, distinct, ℕ, ltb, map, problem_if, String, string_eq, option_eq,
  nat_eq, Option, none, some, List, [], ◌∷◌, ◌++◌, if◌then◌else◌, ◌==◌, ◌&&◌, Bool, false, not,
}

-- `sorted` by the record id: equal ids stay in their order.
unfoldable pub insert_entry : ManifestEntry → List ManifestEntry → List ManifestEntry
insert_entry entry [] = entry ∷ []
insert_entry entry (other ∷ rest) =
    let after = insert_entry entry rest in
    if text_gt entry.record_id other.record_id then other ∷ after else entry ∷ other ∷ rest

unfoldable pub sort_entries : List ManifestEntry → List ManifestEntry
sort_entries [] = []
sort_entries (entry ∷ rest) = insert_entry entry (sort_entries rest)

-- The hash of a manifest. `digest` stands for json.dumps and hashlib.sha256 on the sorted entries, of
-- which it reads the three keys.
unfoldable pub compute_output_manifest_hash :
    (List ManifestEntry → String) → Option (List ManifestEntry) → Option String
compute_output_manifest_hash digest none = none
compute_output_manifest_hash digest (some entries) = some (digest (sort_entries entries))

pub data ManifestProblem : Type 0 where
  malformed_hash disagreeing_hash disagreeing_source_record repeated_record :
      String → ManifestProblem

abbrev pub has_sha256 : Option String → Bool
has_sha256 none = false
has_sha256 (some text) = is_sha256 text

-- `seen_hashes` and `seen_source_ids`: the first entry with each id.
abbrev pub SeenEntries : Type 0
SeenEntries = List (String × ManifestEntry)

-- The two tests on an entry whose id was seen.
abbrev pub repeat_problems : Option ManifestEntry → ManifestEntry → List ManifestProblem
repeat_problems none entry = []
repeat_problems (some first) entry =
    problem_if (not (first.content_sha256 == entry.content_sha256))
      (disagreeing_hash entry.record_id)
    ++ problem_if (not (first.source_record_id == entry.source_record_id))
        (disagreeing_source_record entry.record_id)

-- The loop over the entries, and then over `duplicates`, a set.
unfoldable pub entry_loop : SeenEntries → List String → List ManifestEntry → List ManifestProblem
entry_loop seen duplicates [] = map repeated_record (distinct duplicates)
entry_loop seen duplicates (entry ∷ rest) =
    problem_if (not (has_sha256 entry.content_sha256)) (malformed_hash entry.record_id)
    ++ repeat_problems (lookup entry.record_id seen) entry
    ++ entry_loop
        (if is_present (lookup entry.record_id seen)
          then seen
          else seen ++ (entry.record_id, entry) ∷ [])
        (if is_present (lookup entry.record_id seen)
          then entry.record_id ∷ duplicates
          else duplicates)
        rest

unfoldable pub output_manifest_problems : List ManifestEntry → List ManifestProblem
output_manifest_problems emitted_records = entry_loop [] [] emitted_records

pub data RunProblem : Type 0 where
  no_start no_completion reversed_interval : RunProblem
  no_count nonzero_count unexpected_count wrong_count : RunProblem
  manifest_problem : ManifestProblem → RunProblem
  wrong_hash unhashed_manifest : RunProblem

abbrev pub is_reversed : Option Time → Option Time → Bool
is_reversed (some started) (some completed) = ltb completed started
is_reversed _ _ = false

-- The test of `records_emitted` for each status; a count is a whole number or absent.
unfoldable pub count_problems : RunStatus → Option ℕ → List RunProblem
count_problems run_success count = problem_if (not (is_present count)) no_count
count_problems run_not_modified count = problem_if (not (count == some 0)) nonzero_count
count_problems run_disabled count = problem_if (is_present count) unexpected_count
count_problems run_error count = problem_if (is_present count) unexpected_count
count_problems run_dry count = problem_if (is_present count) unexpected_count

-- The tests on a manifest that is there.
unfoldable pub manifest_problems :
    (List ManifestEntry → String) → Run → List ManifestEntry → List RunProblem
manifest_problems digest run entries =
    problem_if
      (is_present run.records_emitted && not (run.records_emitted == some (length entries)))
      wrong_count
    ++ map manifest_problem (output_manifest_problems entries)
    ++ problem_if
        (is_present run.output_manifest_sha256
          && not (run.output_manifest_sha256 == compute_output_manifest_hash digest (some entries)))
        wrong_hash
    ++ problem_if (run.status == run_success && not (is_present run.output_manifest_sha256))
        unhashed_manifest

unfoldable pub collection_run_problems : (List ManifestEntry → String) → Run → List RunProblem
collection_run_problems digest run =
    problem_if (not (is_present (instant run.started_at))) no_start
    ++ problem_if (not (is_present (instant run.completed_at))) no_completion
    ++ problem_if (is_reversed (instant run.started_at) (instant run.completed_at))
        reversed_interval
    ++ count_problems run.status run.records_emitted
    ++ (elim run.emitted_records [
      | none ↦ []
      | some entries ↦ manifest_problems digest run entries
    ])
