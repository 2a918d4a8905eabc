-- ===== src/Validation/StatusChange.antt =====
-- analysis/situation_validation.py: is_status_change and status_change_classification_problems.
use logistics_situation_plat.Evidence.{authority_covers}
use logistics_situation_plat.Validation.Rules.{not_a_status_change, RuleProblem}
use logistics_situation_plat.Grading.{doc_of, Documents, text_gt, Claims}
use logistics_situation_plat.Model.{
  Conflict, Event, Document, ClaimType, Claim, Stamp, contradiction_type_eq, official_notice,
  verified_fact, denial_or_correction, ContradictionType,
}
use logistics_situation_plat.Base.{
  problem_if, gather, non_empty, lookup?, collect, lookup, String, string_eq, option_eq, Option,
  none, some, List, [], ◌∷◌, if◌then◌else◌, ◌==◌, ◌&&◌, Bool, true, false, not,
}

-- A date-time text that is there and not empty.
abbrev pub text_of : Option Stamp → Option String
text_of none = none
text_of (some stamp) = if stamp.text == "" then none else some stamp.text

-- The claims that resolve and have a start, with its text.
unfoldable pub dated_claim : Claims → String → Option (String × Claim)
dated_claim claims_by_id claim_id = elim (lookup claim_id claims_by_id) [
  | none ↦ none
  | some claim ↦ elim (text_of claim.event_start_at) [
    | none ↦ none
    | some text ↦ some (text, claim)
  ]
]

-- `max` by the text: the first of the greatest.
unfoldable pub latest : String × Claim → List (String × Claim) → Claim
latest best [] = best.1
latest best (entry ∷ rest) = latest (if text_gt entry.0 best.0 then entry else best) rest

unfoldable pub newest_claim : List String → Claims → Option Claim
newest_claim claim_ids claims_by_id = elim (collect (dated_claim claims_by_id) claim_ids) [
  | [] ↦ none
  | entry ∷ rest ↦ some (latest entry rest)
]

-- `_STATUS_CHANGE_CLAIM_TYPES`
abbrev pub changes_status : Option ClaimType → Bool
changes_status (some official_notice) = true
changes_status (some verified_fact) = true
changes_status (some denial_or_correction) = true
changes_status _ = false

-- The newer side is published, and later than the older side where that is published.
abbrev pub is_published_later : Option String → Option String → Bool
is_published_later none older = false
is_published_later (some newer) none = true
is_published_later (some newer) (some older) = text_gt newer older

-- The tests on the newest claim of each side and the newer one's document.
unfoldable pub changes_with : Documents → Claim → Claim → Document → Bool
changes_with documents_by_id older newer newer_document =
    is_published_later (text_of newer_document.published_at)
      (text_of (doc_of documents_by_id older).published_at)
    && changes_status newer.claim_type
    && authority_covers newer newer_document

unfoldable pub is_status_change : List String → List String → Claims → Documents → Bool
is_status_change older_claim_ids newer_claim_ids claims_by_id documents_by_id =
    elim (newest_claim newer_claim_ids claims_by_id) [
      | none ↦ false
      | some newer ↦ elim (lookup? newer.document_id documents_by_id) [
        | none ↦ false
        | some newer_document ↦ elim (newest_claim older_claim_ids claims_by_id) [
          | none ↦ false
          | some older ↦ changes_with documents_by_id older newer newer_document
        ]
      ]
    ]

unfoldable pub is_mislabelled : Claims → Documents → Conflict → Bool
is_mislabelled claims_by_id documents_by_id entry =
    entry.contradiction_type == some ContradictionType.status_change
    && non_empty entry.claim_ids_side_a
    && non_empty entry.claim_ids_side_b
    && not (
        is_status_change entry.claim_ids_side_a entry.claim_ids_side_b claims_by_id documents_by_id)

unfoldable pub status_change_classification_problems :
    List Event → Claims → Documents → List RuleProblem
status_change_classification_problems events claims_by_id documents_by_id =
    gather
      (λ event.
        gather
          (λ entry.
            problem_if (is_mislabelled claims_by_id documents_by_id entry)
              (not_a_status_change event.event_id))
          event.conflicting_evidence)
      events
