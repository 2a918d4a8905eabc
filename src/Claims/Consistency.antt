-- ===== src/Claims/Consistency.antt =====
-- analysis/claims.py: regional_scope_thailand_relevance_problems and
-- claim_document_consistency_problems.
use logistics_situation_plat.Grading.{Documents}
use logistics_situation_plat.Claims.Gates.{
  unpermitted_quotation, other_group, other_layer, unresolved_document, other_source,
  regional_relevance, ClaimProblem,
}
use logistics_situation_plat.Model.{
  Document, Claim, claim_scope_eq, relevance_eq, evidence_layer_eq, region, asserted_by_source,
}
use logistics_situation_plat.Base.{
  lookup?, problem_if, gather, string_eq, option_eq, none, some, List, [], ◌∷◌, ◌++◌, ◌==◌, ◌&&◌,
  not,
}

unfoldable pub regional_scope_thailand_relevance_problems : List Claim → List ClaimProblem
regional_scope_thailand_relevance_problems claims =
    gather
      (λ claim.
        problem_if
          (claim.claim_scope == some region
            && claim.thailand_relevance_asserted == some asserted_by_source)
          (regional_relevance claim.claim_id))
      claims

-- The tests on a claim whose document resolves.
unfoldable pub document_disagreements : Claim → Document → List ClaimProblem
document_disagreements claim document =
    problem_if (not (claim.source_id == document.source_id)) (other_source claim.claim_id)
    ++ problem_if (not (claim.evidence_layer == document.evidence_layer))
        (other_layer claim.claim_id)
    ++ problem_if (not (claim.independence_group == document.independence_group))
        (other_group claim.claim_id)
    ++ problem_if (claim.quotation_used && not document.quotation_allowed)
        (unpermitted_quotation claim.claim_id)

unfoldable pub claim_document_problems : Documents → Claim → List ClaimProblem
claim_document_problems documents_by_id claim = elim (lookup? claim.document_id documents_by_id) [
  | none ↦ unresolved_document claim.claim_id ∷ []
  | some document ↦ document_disagreements claim document
]

unfoldable pub claim_document_consistency_problems : List Claim → Documents → List ClaimProblem
claim_document_consistency_problems claims documents_by_id =
    gather (claim_document_problems documents_by_id) claims
