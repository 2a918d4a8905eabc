-- ===== src/Grading/Qualified.antt =====
-- analysis/grading.py: _source_of, eligible_claims, independent_group_count, _modal_assertion_group,
-- _has_capping_contradiction.
use logistics_situation_plat.Base.{
  ℕ, String, Option, none, some, Bool, false, not, ◌&&◌, ◌||◌, List, map, if◌then◌else◌, ◌==◌,
  string_eq, option_eq, any_of, keep, contains, distinct, length, truthy, lookup, lookup?, or_else,
  collect, most_common,
}
use logistics_situation_plat.Model.{
  Claim, Document, Source, Registry, Event, Conflict, empty_document, current_publication,
  dataset_eq, review_status_eq, approved, ResolutionStatus, resolution_status_eq,
  contradiction_type_eq, existence, status_change,
}
use logistics_situation_plat.Evidence.{source_entry, strength_basis, is_verified}

-- `claims_by_id` and `documents_by_id`
abbrev pub Claims : Type 0
Claims = List (String × Claim)

abbrev pub Documents : Type 0
Documents = List (String × Document)

-- `_source_of`: the same search as the adapter's `_source_entry`, by the document's source.
unfoldable pub source_of : Document → Registry → Source
source_of document registry = source_entry registry document.source_id

-- `documents_by_id.get(claim.get("document_id")) or {}`
abbrev pub doc_of : Documents → Claim → Document
doc_of documents claim = or_else (lookup? claim.document_id documents) empty_document

-- The tests of the loop body on a claim that resolves.
unfoldable pub is_eligible : Documents → Registry → Claim → Bool
is_eligible documents registry claim =
    claim.dataset == some current_publication
    && claim.review_status == some approved
    && not (truthy claim.superseded_by)
    && (elim (lookup? claim.document_id documents) [
      | none ↦ false
      | some document ↦
          (source_of document registry).enabled_for_public_claims
          && is_verified (strength_basis document)
    ])

-- One round of the loop over `event["claim_ids"]`: `none` is `continue`.
unfoldable pub eligible_claim : Claims → Documents → Registry → String → Option Claim
eligible_claim claims documents registry claim_id = elim (lookup claim_id claims) [
  | none ↦ none
  | some claim ↦ if is_eligible documents registry claim then some claim else none
]

unfoldable pub eligible_claims : Event → Claims → Documents → Registry → List Claim
eligible_claims event claims documents registry =
    collect (eligible_claim claims documents registry) event.claim_ids

-- The document ids of claims whose document is recorded as a duplicate.
unfoldable pub excluded_duplicates : List Claim → Documents → List (Option String)
excluded_duplicates claims documents =
    map (λ claim. claim.document_id)
      (keep (λ claim. truthy (doc_of documents claim).duplicate_of) claims)

unfoldable pub independence_groups : List Claim → Documents → List String
independence_groups claims documents =
    let excluded = excluded_duplicates claims documents in
    distinct (
      collect
        (λ claim.
          if not (contains excluded claim.document_id) && truthy claim.independence_group
          then claim.independence_group
          else none)
        claims)

unfoldable pub independent_group_count : List Claim → Documents → ℕ
independent_group_count claims documents = length (independence_groups claims documents)

unfoldable pub modal_assertion_group : List Claim → Option String
modal_assertion_group claims = most_common (
    collect (λ claim. if truthy claim.assertion_group_id then claim.assertion_group_id else none)
      claims)

abbrev pub is_capping : Conflict → Bool
is_capping entry =
    entry.resolution_status == some ResolutionStatus.unresolved
    && (entry.contradiction_type == some existence
        || entry.contradiction_type == some status_change)

unfoldable pub has_capping_contradiction : Event → Bool
has_capping_contradiction event = any_of is_capping event.conflicting_evidence
