-- ===== src/Tests/Acquisition.antt =====
-- A feed's successful run, a later run that reconfirms it, and a record of theirs.
use logistics_situation_plat.Acquisition.Hashes.{IsHexRun}
use logistics_situation_plat.Tests.Current.{closure_publication}
use logistics_situation_plat.Acquisition.Acquired.{qualified-IsAcquired_iff, IsAcquired}
use logistics_situation_plat.Evidence.{instant}
use logistics_situation_plat.Acquisition.Unique.{output_manifest_problems-nil_iff}
use logistics_situation_plat.Acquisition.Refinement.{resolve_governing_run-Governs_iff}
use logistics_situation_plat.Acquisition.BoundIff.{resolve_live_record_binding-IsBound_iff}
use logistics_situation_plat.Acquisition.Sound.{unproblematic_run_governs}
use logistics_situation_plat.Acquisition.Order.{resolve_governing_run-IsGoverning}
use logistics_situation_plat.Acquisition.Bound.{IsBound, binding_to}
use logistics_situation_plat.Acquisition.Termination.{resolve_governing_run_ends}
use logistics_situation_plat.Tests.Data.{registry, stamp, next_day, closure_record, quiet_run}
use logistics_situation_plat.Acquisition.Governing.{is_new, Governs, IsGoverning, IsSound}
use logistics_situation_plat.Provenance.{publish_bounded_claim, Record}
use logistics_situation_plat.Acquisition.{
  find_event, events_of, review_check, check_reviewed_at, is_hex_run, is_sha256, insert_entry,
  sort_entries, compute_output_manifest_hash, entry_loop, count_problems, manifest_problems,
  find_entry, run_index, find_run, runs_of, match_manifest, has_sound_interval, prior_of, cycle,
  by_status, faulted, found, hop, resolve_within, output_manifest_problems,
  acquisition_binding_problems, Resolution, resolve_live_record_binding, collection_run_problems,
  resolve_governing_run, RunsBySource, RunIndex,
}
use logistics_situation_plat.Model.{
  ReviewEvent, Run, ManifestEntry, run_success, run_not_modified, live_retrieved, retrieved,
}
use logistics_situation_plat.Base.{
  String, some, false, ◌==◌, lookup, contains, distinct, true, Memᴰ, ◌↔◌, ==_iff, ◌≤◌, ok, ◌≢◌, ◌≡◌,
  String, List, some, none, [], ◌∷◌, option_eq, string_eq, nat_eq, refl,
}

abbrev entry : ManifestEntry
entry = record {
  record_id = "OBS-1";
  source_record_id = some "77";
  content_sha256 = some "aaaaaaaaaaaaaaaaaaaaaaaaaaaaaaaaaaaaaaaaaaaaaaaaaaaaaaaaaaaaaaaa";
}

abbrev digest_of : List ManifestEntry → String
digest_of entries = "digest"

abbrev first_run : Run
first_run = record quiet_run {
  run_id = "RUN-1";
  source_id = some "FEED";
  status = run_success;
  started_at = some (stamp "t1" 1000);
  completed_at = some (stamp "t2" 2000);
  adapter_version = some "v1";
  records_emitted = some 1;
  emitted_records = some (entry ∷ []);
  output_manifest_sha256 = some "digest";
}

abbrev second_run : Run
second_run = record quiet_run {
  run_id = "RUN-2";
  source_id = some "FEED";
  status = run_not_modified;
  started_at = some (stamp "t3" 3000);
  completed_at = some (stamp "t4" 4000);
  records_emitted = some 0;
  emitted_records = none;
  output_manifest_sha256 = none;
  supersedes_run_id = some "RUN-1";
}

-- A run that names itself.
abbrev looping_run : Run
looping_run = record second_run { run_id = "RUN-3"; supersedes_run_id = some "RUN-3" }

abbrev index : RunIndex
index = ("RUN-2", second_run) ∷ ("RUN-1", first_run) ∷ ("RUN-3", looping_run) ∷ []

abbrev feed_runs : RunsBySource
feed_runs = ("FEED", first_run ∷ second_run ∷ []) ∷ []

abbrev live_record : Record
live_record = record closure_record {
  top = record closure_record.top {
    evidence_origin = some live_retrieved;
    source_id = some "FEED";
    retrieval_status = some retrieved;
    record_id = some "OBS-1";
    retrieved_at = some (stamp "t" 1500);
    collection_run_id = some "RUN-2";
    parser_version = some "v1";
    content_sha256 = some "aaaaaaaaaaaaaaaaaaaaaaaaaaaaaaaaaaaaaaaaaaaaaaaaaaaaaaaaaaaaaaaa";
    source_record_id = some "77";
  };
}

unfoldable pub all_acquisition : Unit {0}
unfolding resolve_governing_run resolve_within hop by_status prior_of has_sound_interval
    resolve_live_record_binding match_manifest runs_of find_run run_index find_entry
    collection_run_problems manifest_problems count_problems output_manifest_problems entry_loop
    compute_output_manifest_hash sort_entries insert_entry is_sha256 is_hex_run distinct instant
    contains lookup ◌==◌
all_acquisition = tt

second_resolves :
    resolve_governing_run second_run index ≡ some (found first_run ("RUN-2" ∷ "RUN-1" ∷ []))
unfolding all_acquisition
second_resolves = refl

looping_faults :
    resolve_governing_run looping_run index ≡ some (faulted cycle ("RUN-3" ∷ "RUN-3" ∷ []))
unfolding all_acquisition
looping_faults = refl

first_unproblematic : collection_run_problems digest_of first_run ≡ []
unfolding all_acquisition
first_unproblematic = refl

live_binding :
    resolve_live_record_binding feed_runs (some 9000) live_record
    ≡ ok (binding_to live_record second_run first_run ("RUN-2" ∷ "RUN-1" ∷ []))
unfolding all_acquisition
live_binding = refl

resolve_governing_run_ends_example :
    (result : Resolution) × (resolve_governing_run looping_run index ≡ some result)
resolve_governing_run_ends_example = resolve_governing_run_ends looping_run index

resolve_governing_run-Governs_iff_example :
    (resolve_governing_run second_run index ≡ some (found first_run ("RUN-2" ∷ "RUN-1" ∷ []))) ↔ (
      Governs index second_run.source_id second_run first_run ("RUN-2" ∷ "RUN-1" ∷ [])
      × (is_new [] ("RUN-2" ∷ "RUN-1" ∷ []) ≡ true))
resolve_governing_run-Governs_iff_example =
    resolve_governing_run-Governs_iff second_run index first_run ("RUN-2" ∷ "RUN-1" ∷ [])

resolve_governing_run-IsGoverning_example :
    (sound : IsSound second_run.source_id second_run) × (g : IsGoverning second_run.source_id
      first_run)
    × (g.sound.completed ≤ sound.completed)
resolve_governing_run-IsGoverning_example =
    resolve_governing_run-IsGoverning second_run first_run index ("RUN-2" ∷ "RUN-1" ∷ [])
      second_resolves

resolve_live_record_binding-IsBound_iff_example :
    (resolve_live_record_binding feed_runs (some 9000) live_record
      ≡ ok (binding_to live_record second_run first_run ("RUN-2" ∷ "RUN-1" ∷ [])))
    ↔ ((b : IsBound feed_runs (some 9000) live_record) × (binding_to live_record second_run
            first_run
            ("RUN-2" ∷ "RUN-1" ∷ [])
          ≡ binding_to live_record b.run b.governing b.chain))
resolve_live_record_binding-IsBound_iff_example =
    resolve_live_record_binding-IsBound_iff feed_runs (some 9000) live_record
      (binding_to live_record second_run first_run ("RUN-2" ∷ "RUN-1" ∷ []))

qualified-IsAcquired_iff_example :
    (acquisition_binding_problems [] [] (some next_day) closure_record ≡ ok tt)
    ↔ IsAcquired [] [] (some next_day) closure_record
qualified-IsAcquired_iff_example =
    qualified-IsAcquired_iff [] [] (some next_day) closure_record (some registry)
      publish_bounded_claim closure_publication.0

differing : (one other : String) → (one == other) ≡ false → one ≢ other
differing one other h e = cc (h, (==_iff one other).1 e)

digest_not_blank : (entries : List ManifestEntry) → digest_of entries ≢ ""
unfolding ◌==◌
digest_not_blank entries = differing "digest" "" refl

unproblematic_run_governs_example :
    resolve_governing_run first_run index ≡ some (found first_run ("RUN-1" ∷ []))
unproblematic_run_governs_example =
    unproblematic_run_governs digest_of digest_not_blank first_run index (entry ∷ [])
      first_unproblematic refl refl

output_manifest_problems-nil_iff_example : (output_manifest_problems (entry ∷ entry ∷ []) ≡ []) ↔ (
    ((each : ManifestEntry)
      → Memᴰ each (entry ∷ entry ∷ [])
      → (text : String) × (each.content_sha256 ≡ some text) × IsHexRun 64 text)
    × (is_new [] ("OBS-1" ∷ "OBS-1" ∷ []) ≡ true))
output_manifest_problems-nil_iff_example = output_manifest_problems-nil_iff (entry ∷ entry ∷ [])

-- A hash that ends in a line feed passes the pattern.
line_feed_accepted :
    is_sha256 "aaaaaaaaaaaaaaaaaaaaaaaaaaaaaaaaaaaaaaaaaaaaaaaaaaaaaaaaaaaaaaaa\n" ≡ true
unfolding is_sha256 is_hex_run
line_feed_accepted = refl

-- A reviewed event with no review time passes, whatever the as-of time.
abbrev undated_event : ReviewEvent
undated_event = record {
  event_id = some "MAN-1";
  source_id = some "PORT-AUTHORITY";
  is_reviewed = true;
  reviewed_at = none;
  record_count = none;
  related_record_ids = "REC-1" ∷ [];
  bounded_content_confirmed = true;
}

abbrev reviewed_record : Record
reviewed_record = record closure_record {
  top = record closure_record.top {
    record_id = some "REC-1";
    manual_review_event_id = some "MAN-1";
  };
}

undated_review_accepted :
    acquisition_binding_problems []
      (("PORT-AUTHORITY", undated_event ∷ []) ∷ [])
      (some next_day)
      reviewed_record
    ≡ ok tt
unfolding acquisition_binding_problems review_check check_reviewed_at find_event events_of contains
    lookup ◌==◌
undated_review_accepted = refl
