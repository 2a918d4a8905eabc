-- ===== src/Acquisition/Bound.antt =====
-- analysis/provenance.py: when resolve_live_record_binding binds a record.
use logistics_situation_plat.Acquisition.Governing.{is_new, Governs}
use logistics_situation_plat.Evidence.{instant}
use logistics_situation_plat.Acquisition.Chain.{ChainFault}
use logistics_situation_plat.Acquisition.Binding.{
  other_source_record, other_content, not_in_manifest, other_parser, outside_interval, run_index,
  undated_governing, runs_of, bound_record_id, find_run, find_entry, Binding, chain_result,
  is_after, is_successful, match_manifest, RunsBySource,
}
use logistics_situation_plat.Provenance.{
  record_source_id, provenance_of, record_retrieval_status, Record,
}
use logistics_situation_plat.Model.{
  run_status_eq, ManifestEntry, run_not_modified, retrieved, run_success, Run, Time, RunStatus,
}
use logistics_situation_plat.Base.{
  refl, ok_inj, sym, given-ok, ◌==◌, string_eq, option_eq, require-ok, [], given, or_else, bind-ok,
  none, ==_iff, truthy, ok, ◌↔◌, String, ◌⊎◌, ◌&&◌, true, List, ◌≤◌, leb, not, ◌≡◌, some, Option,
  arith,
}

-- `value` is no later than the as-of time, if there is one.
abbrev IsNotAfter : Option Time → Time → Type 0
IsNotAfter none value = Unit
IsNotAfter (some as_of) value = value ≤ as_of

abbrev IsSuccessful : RunStatus → Type 0
IsSuccessful status = (status ≡ run_success) ⊎ (status ≡ run_not_modified)

-- The governing run's interval, parser and manifest agree with the record.
pub record IsListed (item : Record) (retrieved_ts : Time) (governing : Run) : Type 0 where
  pub started : Time
  pub started_at : instant governing.started_at ≡ some started
  pub completed : Time
  pub completed_at : instant governing.completed_at ≡ some completed
  pub since : started ≤ retrieved_ts
  pub until : retrieved_ts ≤ completed
  pub parser : (provenance_of item).parser_version ≡ governing.adapter_version
  pub entry : ManifestEntry
  pub listed : find_entry (bound_record_id item) (or_else governing.emitted_records []) ≡ some entry
  pub same_content : (provenance_of item).content_sha256 ≡ entry.content_sha256
  pub same_source_record : (provenance_of item).source_record_id ≡ entry.source_record_id

-- The cited run, the run that governs it, and what ties the record to them.
pub record IsBound (by_source : RunsBySource) (as_of : Option Time) (item : Record) : Type 0 where
  pub retrieval : record_retrieval_status item ≡ some retrieved
  pub retrieved_ts : Time
  pub retrieved_at : instant (provenance_of item).retrieved_at ≡ some retrieved_ts
  pub cites : truthy (provenance_of item).collection_run_id ≡ true
  pub run : Run
  pub persisted :
      find_run (provenance_of item).collection_run_id (runs_of by_source (record_source_id item))
      ≡ some run
  pub same_source : run.source_id ≡ record_source_id item
  pub successful : IsSuccessful run.status
  pub governing : Run
  pub chain : List String
  pub governs :
      Governs
        (run_index (runs_of by_source (record_source_id item)))
        run.source_id
        run
        governing
        chain
  pub acyclic : is_new [] chain ≡ true
  pub completed : Time
  pub completed_at : instant run.completed_at ≡ some completed
  pub completed_before : IsNotAfter as_of completed
  pub retrieved_before : IsNotAfter as_of retrieved_ts
  pub manifest : IsListed item retrieved_ts governing

abbrev pub binding_to : Record → Run → Run → List String → Binding
binding_to item confirming governing chain = record {
  record_id = bound_record_id item;
  confirming_run_id = confirming.run_id;
  governing_run_id = governing.run_id;
  output_manifest_sha256 = governing.output_manifest_sha256;
  supersedes_chain = chain;
}

pub is_after-IsNotAfter :
    (as_of : Option Time) (value : Time)
    → (not (is_after as_of value) ≡ true) ↔ IsNotAfter as_of value
is_after-IsNotAfter none value = ((λ h. tt), λ h. refl)
is_after-IsNotAfter (some as_of) value = ground arith

pub is_successful-IsSuccessful :
    (status : RunStatus) → (is_successful status ≡ true) ↔ IsSuccessful status
is_successful-IsSuccessful status =
    ground (arith, ==_iff status run_success, ==_iff status run_not_modified)

within_iff : (a b c : Time) → (leb a b && leb b c ≡ true) ↔ ((a ≤ b) × (b ≤ c))
within_iff a b c = ground arith

pub chain_result-ok :
    (problem : Option ChainFault) (governing : Option Run) (run : Run)
    → chain_result problem governing ≡ ok run
    → (problem ≡ none) × (governing ≡ some run)
chain_result-ok problem governing run h = ground arith

pub match_manifest-IsListed :
    (item : Record) (retrieved_ts : Time) (confirming governing : Run) (chain : List String)
    (binding : Binding)
    → match_manifest item retrieved_ts confirming governing chain ≡ ok binding
    → IsListed item retrieved_ts governing × (binding ≡ binding_to item confirming governing chain)
unfolding match_manifest
match_manifest-IsListed item retrieved_ts confirming governing chain binding h =
    let (started, s, h1) = bind-ok (given (instant governing.started_at) undated_governing) h in
    let (completed, c, h2) =
      bind-ok (given (instant governing.completed_at) undated_governing) h1 in
    let (within, h3) =
      require-ok (leb started retrieved_ts && leb retrieved_ts completed) outside_interval h2 in
    let (parser, h4) =
      require-ok ((provenance_of item).parser_version == governing.adapter_version) other_parser
        h3 in
    let (entry, e, h5) =
      bind-ok
        (given (find_entry (bound_record_id item) (or_else governing.emitted_records []))
          not_in_manifest)
        h4 in
    let (content, h6) =
      require-ok ((provenance_of item).content_sha256 == entry.content_sha256) other_content h5 in
    let (source_record, h7) =
      require-ok ((provenance_of item).source_record_id == entry.source_record_id)
        other_source_record h6 in
    let (since, until) = (within_iff started retrieved_ts completed).0 within in
    (
      record {
        started = started;
        started_at = given-ok (instant governing.started_at) undated_governing started s;
        completed = completed;
        completed_at = given-ok (instant governing.completed_at) undated_governing completed c;
        since = since;
        until = until;
        parser = (==_iff (provenance_of item).parser_version governing.adapter_version).0 parser;
        entry = entry;
        listed =
            given-ok (find_entry (bound_record_id item) (or_else governing.emitted_records []))
              not_in_manifest entry e;
        same_content = (==_iff (provenance_of item).content_sha256 entry.content_sha256).0 content;
        same_source_record =
            (==_iff (provenance_of item).source_record_id entry.source_record_id).0 source_record;
      },
      sym (ok_inj h7),
    )

pub IsListed-match_manifest :
    (item : Record) (retrieved_ts : Time) (confirming governing : Run) (chain : List String)
    → IsListed item retrieved_ts governing
    → match_manifest item retrieved_ts confirming governing chain
      ≡ ok (binding_to item confirming governing chain)
unfolding match_manifest
IsListed-match_manifest item retrieved_ts confirming governing chain l =
    let within = (within_iff l.started retrieved_ts l.completed).1 (l.since, l.until) in
    let parser =
      (==_iff (provenance_of item).parser_version governing.adapter_version).1 l.parser in
    let content =
      (==_iff (provenance_of item).content_sha256 l.entry.content_sha256).1 l.same_content in
    let source_record =
      (==_iff (provenance_of item).source_record_id l.entry.source_record_id).1
        l.same_source_record in
    rw l.started_at
      (rw l.completed_at (rw within (rw parser (rw l.listed (rw content (rw source_record refl))))))
