-- ===== src/Attachment/Decision.antt =====
-- analysis/attachment.py: decide_attachment.
use logistics_situation_plat.Grading.{Claims}
use logistics_situation_plat.Attachment.Gate.{
  gate_matches, predicate_class_agreement, entity_match, TextFunctions,
}
use logistics_situation_plat.Model.{Event, Claim}
use logistics_situation_plat.Base.{
  keep, map, non_empty, String, string_eq, option_eq, List, [], ◌∷◌, if◌then◌else◌, ◌||◌, Bool,
}

pub data Outcome : Type 0 where
  auto_attach auto_new unattached : Outcome

pub data MergeStatus : Type 0 where
  matched_fingerprint unmatched : MergeStatus

pub data RuleId : Type 0 where
  rule_3 rule_6 rule_7 : RuleId

-- What the basis texts say.
pub data AttachmentBasis : Type 0 where
  confirmed_alone : String → AttachmentBasis
  no_candidate : AttachmentBasis
  unconfirmed_candidate : String → AttachmentBasis
  several_candidates : List String → AttachmentBasis
  no_geography : AttachmentBasis

pub record AttachmentDecision : Type 0 where
  pub outcome : Outcome
  pub event_ids : List String
  pub merge_status : MergeStatus
  pub rule_id : RuleId
  pub basis : AttachmentBasis

abbrev pub has_geography : Claim → Bool
has_geography claim =
    non_empty claim.node_ids
    || non_empty claim.chokepoint_ids
    || non_empty claim.lane_ids
    || non_empty claim.country_ids

abbrev pub attached_to : String → AttachmentDecision
attached_to event_id = record {
  outcome = auto_attach;
  event_ids = event_id ∷ [];
  merge_status = matched_fingerprint;
  rule_id = rule_3;
  basis = confirmed_alone event_id;
}

abbrev pub gate_basis : List Event → AttachmentBasis
gate_basis [] = no_candidate
gate_basis (event ∷ []) = unconfirmed_candidate event.event_id
gate_basis (event ∷ other ∷ rest) =
    several_candidates (map (λ each. each.event_id) (event ∷ other ∷ rest))

-- Rules 6 and 7.
unfoldable pub without_attachment : Claim → List Event → AttachmentDecision
without_attachment claim matching =
    if has_geography claim
    then record {
      outcome = auto_new;
      event_ids = [];
      merge_status = unmatched;
      rule_id = rule_6;
      basis = gate_basis matching;
    }
    else record {
      outcome = unattached;
      event_ids = [];
      merge_status = unmatched;
      rule_id = rule_7;
      basis = no_geography;
    }

-- S5 or S6.
unfoldable pub is_confirmed : TextFunctions → Claim → Claims → Event → Bool
is_confirmed text claim claims_by_id event =
    entity_match text claim event || predicate_class_agreement claim event claims_by_id

unfoldable pub matching_events : Claim → List Event → Claims → List Event
matching_events claim candidate_events claims_by_id =
    keep (λ event. gate_matches claim event claims_by_id) candidate_events

-- Rule 3 for a single match.
unfoldable pub decide_on : TextFunctions → Claim → Claims → List Event → AttachmentDecision
decide_on text claim claims_by_id [] = without_attachment claim []
decide_on text claim claims_by_id (event ∷ []) =
    if is_confirmed text claim claims_by_id event
    then attached_to event.event_id
    else without_attachment claim (event ∷ [])
decide_on text claim claims_by_id (event ∷ other ∷ rest) =
    without_attachment claim (event ∷ other ∷ rest)

unfoldable pub decide_attachment : TextFunctions → Claim → List Event → Claims → AttachmentDecision
decide_attachment text claim candidate_events claims_by_id =
    decide_on text claim claims_by_id (matching_events claim candidate_events claims_by_id)
