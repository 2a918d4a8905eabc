-- ===== src/Acquisition/BoundIff.antt =====
-- analysis/provenance.py: resolve_live_record_binding against the description of a bound record.
use logistics_situation_plat.Evidence.{instant}
use logistics_situation_plat.Acquisition.Refinement.{resolve_governing_run-Governs_iff}
use logistics_situation_plat.Acquisition.Governing.{is_new, Governs}
use logistics_situation_plat.Acquisition.Bound.{
  chain_result-ok, match_manifest-IsListed, IsListed-match_manifest, is_after-IsNotAfter,
  is_successful-IsSuccessful, binding_to, IsBound,
}
use logistics_situation_plat.Provenance.{
  provenance_of, record_retrieval_status, record_source_id, Record,
}
use logistics_situation_plat.Acquisition.Chain.{resolve_governing_run, Resolution, RunIndex}
use logistics_situation_plat.Acquisition.Binding.{
  retrieved_after_as_of, run_after_as_of, is_after, undated_run, chain_result, unended, failed_run,
  is_successful, other_source, unknown_run, find_run, cites_no_run, undated_retrieval, run_index,
  unretrieved, runs_of, Binding, resolve_live_record_binding, RunsBySource,
}
use logistics_situation_plat.Model.{retrieval_status_eq, retrieved, Time, Run}
use logistics_situation_plat.Base.{
  string_eq, option_eq, given-ok, not, truthy, given, bind-ok, true, sym, ◌==◌, [], ap, ◌∙◌, ==_iff,
  require-ok, ◌↔◌, none, ok, some, List, ◌≡◌, Option,
}

-- A resolution without a problem is that of a governing run.
resolution_found :
    (run : Run) (index : RunIndex) (resolution : Resolution) (governing : Run)
    → resolve_governing_run run index ≡ some resolution
    → (resolution.problem ≡ none) × (resolution.governing ≡ some governing)
    → Governs index run.source_id run governing resolution.chain
      × (is_new [] resolution.chain ≡ true)
resolution_found run index resolution governing h (p, g) =
    (resolve_governing_run-Governs_iff run index governing resolution.chain).0 (h ∙ ap some (cc))

module _ (by_source : RunsBySource) (as_of : Option Time) (item : Record) where
  runs : List Run
  runs = runs_of by_source (record_source_id item)

  resolved-IsBound :
      (binding : Binding)
      → resolve_live_record_binding by_source as_of item ≡ ok binding
      → (b : IsBound by_source as_of item) × (binding ≡ binding_to item b.run b.governing b.chain)
  unfolding resolve_live_record_binding runs
  resolved-IsBound binding h =
      let (retrieval, h1) =
        require-ok (record_retrieval_status item == some retrieved) unretrieved h in
      let (at, a, h2) =
        bind-ok (given (instant (provenance_of item).retrieved_at) undated_retrieval) h1 in
      let (cites, h3) =
        require-ok (truthy (provenance_of item).collection_run_id) cites_no_run h2 in
      let (run, r, h4) =
        bind-ok (given (find_run (provenance_of item).collection_run_id runs) unknown_run) h3 in
      let (same, h5) = require-ok (run.source_id == record_source_id item) other_source h4 in
      let (successful, h6) = require-ok (is_successful run.status) failed_run h5 in
      let (resolution, s, h7) =
        bind-ok (given (resolve_governing_run run (run_index runs)) unended) h6 in
      let (governing, g, h8) = bind-ok (chain_result resolution.problem resolution.governing) h7 in
      let (completed, c, h9) = bind-ok (given (instant run.completed_at) undated_run) h8 in
      let (before, h10) = require-ok (not (is_after as_of completed)) run_after_as_of h9 in
      let (before', h11) = require-ok (not (is_after as_of at)) retrieved_after_as_of h10 in
      let (manifest, e) =
        match_manifest-IsListed item at run governing resolution.chain binding h11 in
      let (governs, acyclic) =
        resolution_found run (run_index runs) resolution governing
          (given-ok (resolve_governing_run run (run_index runs)) unended resolution s)
          (chain_result-ok resolution.problem resolution.governing governing g) in
      (
        record {
          retrieval = (==_iff (record_retrieval_status item) (some retrieved)).0 retrieval;
          retrieved_ts = at;
          retrieved_at =
              given-ok (instant (provenance_of item).retrieved_at) undated_retrieval at a;
          cites = cites;
          run = run;
          persisted =
              given-ok (find_run (provenance_of item).collection_run_id runs) unknown_run run r;
          same_source = (==_iff run.source_id (record_source_id item)).0 same;
          successful = (is_successful-IsSuccessful run.status).0 successful;
          governing = governing;
          chain = resolution.chain;
          governs = governs;
          acyclic = acyclic;
          completed = completed;
          completed_at = given-ok (instant run.completed_at) undated_run completed c;
          completed_before = (is_after-IsNotAfter as_of completed).0 before;
          retrieved_before = (is_after-IsNotAfter as_of at).0 before';
          manifest = manifest;
        },
        e,
      )

  IsBound-resolved :
      (b : IsBound by_source as_of item)
      → resolve_live_record_binding by_source as_of item
        ≡ ok (binding_to item b.run b.governing b.chain)
  unfolding resolve_live_record_binding
  IsBound-resolved b = rw ((==_iff (record_retrieval_status item) (some retrieved)).1 b.retrieval) (
      rw b.retrieved_at (
        rw b.cites (
          rw b.persisted (
            rw ((==_iff b.run.source_id (record_source_id item)).1 b.same_source) (
              rw ((is_successful-IsSuccessful b.run.status).1 b.successful) (
                rw
                  ((resolve_governing_run-Governs_iff b.run
                      (run_index (runs_of by_source (record_source_id item))) b.governing b.chain).1
                    (b.governs, b.acyclic))
                  (rw b.completed_at (
                    rw ((is_after-IsNotAfter as_of b.completed).1 b.completed_before) (
                      rw ((is_after-IsNotAfter as_of b.retrieved_ts).1 b.retrieved_before) (
                        IsListed-match_manifest item b.retrieved_ts b.run b.governing b.chain
                          b.manifest))))))))))

-- A record resolves to a binding exactly when it is bound: it was retrieved; it cites a successful or
-- reconfirming run of its own source that was completed, like its retrieval, by the as-of time; a chain
-- without a cycle leads to a governing run; and that run's interval holds the retrieval, its parser is
-- the record's, and its manifest lists the record under the same content hash and source-record id.
-- The binding names these two runs and the chain between them.
pub resolve_live_record_binding-IsBound_iff :
    (by_source : RunsBySource) (as_of : Option Time) (item : Record) (binding : Binding)
    → (resolve_live_record_binding by_source as_of item ≡ ok binding)
      ↔ ((b : IsBound by_source as_of item) × (binding ≡ binding_to item b.run b.governing b.chain))
resolve_live_record_binding-IsBound_iff by_source as_of item binding = (
  resolved-IsBound by_source as_of item binding,
  λ (b, e). IsBound-resolved by_source as_of item b ∙ ap ok (sym e),
)
