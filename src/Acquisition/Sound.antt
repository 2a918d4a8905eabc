-- ===== src/Acquisition/Sound.antt =====
-- analysis/provenance.py: a run that passes collection_run_problems, in resolve_governing_run.
use logistics_situation_plat.Acquisition.Refinement.{resolve_governing_run-Governs_iff}
use logistics_situation_plat.Acquisition.Chain.{found, resolve_governing_run, RunIndex}
use logistics_situation_plat.Evidence.{instant}
use logistics_situation_plat.Acquisition.Governing.{Governs, is_new, IsSound}
use logistics_situation_plat.Acquisition.Manifest.{
  sort_entries, count_problems, reversed_interval, no_completion, no_start,
  compute_output_manifest_hash, manifest_problems, is_reversed, collection_run_problems,
}
use logistics_situation_plat.Model.{run_status_eq, run_success, Run, ManifestEntry, Time}
use logistics_situation_plat.Base.{
  nat_eq, contains, some-truthy, string_eq, option_eq, ◌≢◌, ==_iff, true, ◌==◌, problem_if-nil_iff,
  Bool, ◌&&◌, problem_if, none, ◌≤◌, append-nil_iff, some, false, ◌∷◌, is_present, [], String, not,
  ◌≡◌, map, Option, List, arith, refl,
}

pub map-nil : {A B : Type 0} (f : A → B) (xs : List A) → map f xs ≡ [] → xs ≡ []
map-nil f [] h = refl
map-nil f (x ∷ xs) h = ground arith

interval_parts :
    (started completed : Option Time)
    → not (is_present started) ≡ false
    → not (is_present completed) ≡ false
    → is_reversed started completed ≡ false
    → (s : Time) × (c : Time) × (started ≡ some s) × (completed ≡ some c) × (s ≤ c)
interval_parts (some s) (some c) h1 h2 h3 = (s, c, refl, refl, ground arith)
interval_parts none completed h1 h2 h3 = ground arith
interval_parts (some s) none h1 h2 h3 = ground arith

module _ (digest : List ManifestEntry → String) (run : Run) where
  -- The five parts of the problem list, each empty.
  parts_nil :
      collection_run_problems digest run ≡ []
      → (problem_if (not (is_present (instant run.started_at))) no_start ≡ [])
        × (problem_if (not (is_present (instant run.completed_at))) no_completion ≡ [])
        × (problem_if
              (is_reversed (instant run.started_at) (instant run.completed_at))
              reversed_interval
            ≡ [])
        × (elim run.emitted_records [
          | none ↦ []
          | some entries ↦ manifest_problems digest run entries
        ]
            ≡ [])
  unfolding collection_run_problems
  parts_nil h =
      let (h1, e) = (append-nil_iff _ _).0 h in
      let (h2, d) = (append-nil_iff _ (count_problems run.status run.records_emitted)).0 h1 in
      let (h3, c) =
        (append-nil_iff _ (
            problem_if (is_reversed (instant run.started_at) (instant run.completed_at))
              reversed_interval)).0
          h2 in
      let (a, b) = (append-nil_iff _ _).0 h3 in (a, b, c, e)

  interval_lemma : collection_run_problems digest run ≡ [] → IsSound run.source_id run
  interval_lemma h =
      let (a, b, c, e) = parts_nil h in
      let (started, completed, s, t, le) =
        interval_parts (instant run.started_at) (instant run.completed_at)
          ((problem_if-nil_iff _ _).0 a) ((problem_if-nil_iff _ _).0 b)
          ((problem_if-nil_iff _ _).0 c) in
      record {
        same_source = refl;
        started = started;
        started_at = s;
        completed = completed;
        completed_at = t;
        in_order = le;
      }

  hash_rule :
      (declared computed : Option String)
      → (is_present declared && not (declared == computed)) ≡ false
      → is_present declared ≡ true
      → declared ≡ computed
  hash_rule declared computed h present = ground (arith, ==_iff declared computed)

  declared_rule :
      (succeeded present : Bool)
      → (succeeded && not present) ≡ false
      → succeeded ≡ true
      → present ≡ true
  declared_rule succeeded present h s = ground arith

  -- A successful run with a manifest declares the manifest's hash.
  hashed_of :
      (entries : List ManifestEntry)
      → manifest_problems digest run entries ≡ []
      → run.status ≡ run_success
      → run.output_manifest_sha256 ≡ compute_output_manifest_hash digest (some entries)
  unfolding manifest_problems
  hashed_of entries h success =
      let (h1, declared) = (append-nil_iff _ _).0 h in
      let (h2, hash) = (append-nil_iff _ _).0 h1 in
      hash_rule _ _ ((problem_if-nil_iff _ _).0 hash) (
        declared_rule (run.status == run_success) _ ((problem_if-nil_iff _ _).0 declared)
          ((==_iff run.status run_success).1 success))

-- A successful run with a manifest and no problems of its own governs itself, among any runs: the first
-- round of the walk returns it. The digest is taken to be no empty text.
pub unproblematic_run_governs :
    (digest : List ManifestEntry → String)
    → ((entries : List ManifestEntry) → digest entries ≢ "")
    → (run : Run) (index : RunIndex) (entries : List ManifestEntry)
    → collection_run_problems digest run ≡ []
    → run.status ≡ run_success
    → run.emitted_records ≡ some entries
    → resolve_governing_run run index ≡ some (found run (run.run_id ∷ []))
unfolding compute_output_manifest_hash is_new contains
unproblematic_run_governs digest not_blank run index entries h success listed =
    let (a, b, c, e) = parts_nil digest run h in
    let hash = hashed_of digest run entries (rw listed at e) success in
    (resolve_governing_run-Governs_iff run index run (run.run_id ∷ [])).1 (
      Governs.itself (record {
        sound = interval_lemma digest run h;
        succeeded = success;
        hashed =
            rw hash
              (some-truthy (digest (sort_entries entries)) (not_blank (sort_entries entries)));
        listed = rw listed refl;
      }),
      refl,
    )
