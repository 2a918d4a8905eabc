-- ===== src/Validation/Walk.antt =====
-- analysis/situation_validation.py: explainability_walk_problems and
-- shared_independence_group_without_basis_problems.
use logistics_situation_plat.Situations.{SituationStatus}
use logistics_situation_plat.Model.{Document}
use logistics_situation_plat.Validation.Rules.{
  event_without_claims, no_independence_basis, ungraded_event, unresolved_document,
  no_canonical_url, unregistered_source, unresolved_event, unresolved_claim, requires_basis,
  RuleProblem, Events,
}
use logistics_situation_plat.Grading.{Documents, Claims}
use logistics_situation_plat.Base.{
  is_empty, map, length, is_present, lookup?, ltb, truthy, contains, keep, collect, gather, lookup,
  problem_if, distinct, String, string_eq, option_eq, none, some, List, [], ◌∷◌, ◌++◌,
  if◌then◌else◌, ◌==◌, false, not,
}

-- The last links: the document's source and its URL.
unfoldable pub document_link_problems :
    List String → String → String → String → Document → List RuleProblem
document_link_problems registry_source_ids situation_id event_id claim_id document =
    problem_if
      (not (elim document.source_id [ none ↦ false | some id ↦ contains registry_source_ids id ]))
      (unregistered_source situation_id event_id claim_id)
    ++ problem_if (not (truthy document.canonical_url))
        (no_canonical_url situation_id event_id claim_id)

unfoldable pub claim_link_problems :
    Claims → Documents → List String → String → String → String → List RuleProblem
claim_link_problems claims_by_id documents_by_id registry_source_ids situation_id event_id
      claim_id =
    elim (lookup claim_id claims_by_id) [
      | none ↦ unresolved_claim situation_id event_id claim_id ∷ []
      | some claim ↦ elim (lookup? claim.document_id documents_by_id) [
        | none ↦ unresolved_document situation_id event_id claim_id ∷ []
        | some document ↦
            document_link_problems registry_source_ids situation_id event_id claim_id document
      ]
    ]

-- The links from an entry of `status_basis`.
unfoldable pub event_link_problems :
    Events → Claims → Documents → List String → String → String → List RuleProblem
event_link_problems events_by_id claims_by_id documents_by_id registry_source_ids situation_id
      event_id =
    elim (lookup event_id events_by_id) [
      | none ↦ unresolved_event situation_id event_id ∷ []
      | some event ↦
          problem_if (not (is_present event.evidence_grade)) (ungraded_event situation_id event_id)
          ++ (if is_empty event.claim_ids
              then event_without_claims situation_id event_id ∷ []
              else gather
                  (claim_link_problems claims_by_id documents_by_id registry_source_ids situation_id
                    event_id)
                  event.claim_ids)
    ]

-- A stored situation, of which its id, its status and the event ids of its `status_basis` are read.
pub record StoredSituation : Type 0 where
  pub situation_id : String
  pub status : SituationStatus
  pub basis_event_ids : List String

unfoldable pub walk_problems :
    Events → Claims → Documents → List String → StoredSituation → List RuleProblem
walk_problems events_by_id claims_by_id documents_by_id registry_source_ids situation =
    if requires_basis situation.status
    then gather
        (event_link_problems events_by_id claims_by_id documents_by_id registry_source_ids
          situation.situation_id)
        situation.basis_event_ids
    else []

unfoldable pub explainability_walk_problems :
    List StoredSituation → Events → Claims → Documents → List String → List RuleProblem
explainability_walk_problems situations events_by_id claims_by_id documents_by_id
      registry_source_ids =
    gather (walk_problems events_by_id claims_by_id documents_by_id registry_source_ids) situations

-- The truthy groups of the documents, each once.
unfoldable pub groups_of : List Document → List String
groups_of documents = distinct (
    collect
      (λ document. if truthy document.independence_group then document.independence_group else none)
      documents)

-- The problems of one shared group.
unfoldable pub group_problems : List Document → String → List RuleProblem
group_problems documents group =
    let members = keep (λ document. document.independence_group == some group) documents in
    if ltb 1 (length (distinct (map (λ document. document.publisher) members)))
    then gather
        (λ document.
          problem_if (not (truthy document.independence_basis))
            (no_independence_basis document.document_id group))
        members
    else []

unfoldable pub shared_independence_group_without_basis_problems : List Document → List RuleProblem
shared_independence_group_without_basis_problems documents =
    gather (group_problems documents) (groups_of documents)
