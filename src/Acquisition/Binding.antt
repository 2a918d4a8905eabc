-- ===== src/Acquisition/Binding.antt =====
-- analysis/provenance.py: resolve_live_record_binding and acquisition_binding_problems. The code returns
-- at the first problem, so the problems of a record are at most one fault.
use logistics_situation_plat.Evidence.{instant}
use logistics_situation_plat.Provenance.{
  record_source_id, record_retrieval_status, provenance_of, Record,
}
use logistics_situation_plat.Acquisition.Chain.{resolve_governing_run, RunIndex, ChainFault}
use logistics_situation_plat.Model.{
  ManifestEntry, RunStatus, Time, Run, run_status_eq, retrieval_status_eq, retrieved, run_success,
  run_not_modified,
}
use logistics_situation_plat.Base.{
  not, leb, ltb, require, given, false, lookup, Result, Bool, truthy, or_else, String, ◌>>=◌, ◌>>◌,
  string_eq, option_eq, Option, none, some, List, [], ◌∷◌, ok, raise, if◌then◌else◌, ◌==◌, ◌++◌,
  ◌||◌, ◌&&◌,
}

-- Why a record that claims to be live is bound to no run.
pub data BindingFault : Type 0 where
  unretrieved undated_retrieval cites_no_run unknown_run other_source : BindingFault
  failed_run unended no_governing undated_run run_after_as_of : BindingFault
  retrieved_after_as_of undated_governing outside_interval other_parser : BindingFault
  not_in_manifest other_content other_source_record : BindingFault
  broken_chain : ChainFault → BindingFault

-- The binding, but for the problems.
pub record Binding : Type 0 where
  pub record_id : Option String
  pub confirming_run_id : String
  pub governing_run_id : String
  pub output_manifest_sha256 : Option String
  pub supersedes_chain : List String

-- `collection_runs_by_source`, and the runs of a source in it.
abbrev pub RunsBySource : Type 0
RunsBySource = List (String × List Run)

unfoldable pub runs_of : RunsBySource → Option String → List Run
runs_of by_source source_id = or_else (lookup (or_else source_id "") by_source) []

unfoldable pub find_run : Option String → List Run → Option Run
find_run wanted [] = none
find_run wanted (run ∷ rest) = if some run.run_id == wanted then some run else find_run wanted rest

-- `runs_by_id`: of two runs with one id, the later one stays.
unfoldable pub run_index : List Run → RunIndex
run_index [] = []
run_index (run ∷ rest) = run_index rest ++ (run.run_id, run) ∷ []

-- `provenance.get("record_id") or record.get("evidence_id")`
abbrev pub bound_record_id : Record → Option String
bound_record_id item =
    if truthy (provenance_of item).record_id
    then (provenance_of item).record_id
    else item.evidence_id

unfoldable pub find_entry : Option String → List ManifestEntry → Option ManifestEntry
find_entry wanted [] = none
find_entry wanted (entry ∷ rest) =
    if some entry.record_id == wanted then some entry else find_entry wanted rest

-- `as_of is not None and value > as_of`
abbrev pub is_after : Option Time → Time → Bool
is_after none value = false
is_after (some as_of) value = ltb as_of value

abbrev pub chain_result : Option ChainFault → Option Run → Result BindingFault Run
chain_result (some fault) governing = raise (broken_chain fault)
chain_result none governing = given governing no_governing

abbrev pub is_successful : RunStatus → Bool
is_successful status = status == run_success || status == run_not_modified

-- The tests on the record and its governing run.
unfoldable pub match_manifest :
    Record → Time → Run → Run → List String → Result BindingFault Binding
match_manifest item retrieved_ts confirming governing chain = do
  started ← given (instant governing.started_at) undated_governing
  completed ← given (instant governing.completed_at) undated_governing
  require (leb started retrieved_ts && leb retrieved_ts completed) outside_interval
  require ((provenance_of item).parser_version == governing.adapter_version) other_parser
  entry ←
      given (find_entry (bound_record_id item) (or_else governing.emitted_records []))
        not_in_manifest
  require ((provenance_of item).content_sha256 == entry.content_sha256) other_content
  require ((provenance_of item).source_record_id == entry.source_record_id) other_source_record
  ok (record {
    record_id = bound_record_id item;
    confirming_run_id = confirming.run_id;
    governing_run_id = governing.run_id;
    output_manifest_sha256 = governing.output_manifest_sha256;
    supersedes_chain = chain;
  })

-- The tests in the code's order; the first that fails is the problem.
unfoldable pub resolve_live_record_binding :
    RunsBySource → Option Time → Record → Result BindingFault Binding
resolve_live_record_binding by_source as_of item = do
  require (record_retrieval_status item == some retrieved) unretrieved
  retrieved_ts ← given (instant (provenance_of item).retrieved_at) undated_retrieval
  require (truthy (provenance_of item).collection_run_id) cites_no_run
  run ←
      given
        (find_run (provenance_of item).collection_run_id
          (runs_of by_source (record_source_id item)))
        unknown_run
  require (run.source_id == record_source_id item) other_source
  require (is_successful run.status) failed_run
  resolution ←
      given (resolve_governing_run run (run_index (runs_of by_source (record_source_id item))))
        unended
  governing ← chain_result resolution.problem resolution.governing
  completed ← given (instant run.completed_at) undated_run
  require (not (is_after as_of completed)) run_after_as_of
  require (not (is_after as_of retrieved_ts)) retrieved_after_as_of
  match_manifest item retrieved_ts run governing resolution.chain
