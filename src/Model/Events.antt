-- ===== src/Model/Events.antt =====
-- Events with their impact assessments and conflicts, under the reading rules of `Records`.
use logistics_situation_plat.Base.{ℕ, String, Option, Bool, List}
use logistics_situation_plat.Model.Records.{Stamp, Time}
use logistics_situation_plat.Model.DocumentTags.{Dataset}
use logistics_situation_plat.Model.EventTags.{
  Grade, SituationState, ResolutionStatus, ContradictionType, LifecycleStatus, EventClass, Area,
  ImpactStatus, Severity, Strength,
}

-- A date text with the day number that `date.fromisoformat(text[:10])` reads from it, and with the
-- instant that `datetime.fromisoformat` reads from the whole text; `none` where they raise ValueError.
pub record DateStamp : Type 0 where
  pub text : String
  pub day_number : Option ℕ
  pub instant_of : Option Time

-- An entry of `conflicting_evidence`.
pub record Conflict : Type 0 where
  pub resolution_status : Option ResolutionStatus
  pub contradiction_type : Option ContradictionType
  pub evidence_ids : List String
  pub claim_ids_side_a : List String
  pub claim_ids_side_b : List String
  pub resolution_basis : Option String

-- An entry of `impact_assessments`.
pub record Impact : Type 0 where
  pub area : Area
  pub status : Option ImpactStatus
  pub severity : Severity
  pub evidence_strength : Option Strength
  pub no_material_basis : Option String
  pub watch_trigger : Option String
  pub not_relevant_basis : Option String
  pub transmission_mechanism : Option String
  pub evidence_ids : List String

-- The links of `transmission_chain`, each read for its truth.
pub record Chain : Type 0 where
  pub external_driver : Bool
  pub operational_change : Bool
  pub logistics_mechanism : Bool
  pub observable_indicator : Bool
  pub outcome : Bool

-- `grade_override`, of which `to` is read.
pub record GradeOverride : Type 0 where
  pub to : Option Grade

pub record Event : Type 0 where
  pub event_id : String
  pub event_class : Option EventClass
  pub dataset : Option Dataset
  pub lifecycle_status : Option LifecycleStatus
  pub closure_basis : Option String
  pub event_date : Option Stamp
  pub event_end_date : Option DateStamp
  pub active_as_of : Option Stamp
  pub active_basis : Option String
  pub first_seen_at : Option Stamp
  pub operator_or_entity : Option String
  pub evidence_ids : List String
  pub claim_ids : List String
  pub verified_facts : List String
  pub conflicting_evidence : List Conflict
  pub situation_state : Option SituationState
  pub evidence_grade : Option Grade
  pub grade_override : Option GradeOverride
  pub transmission_chain : Chain
  pub impact_assessments : List Impact
  pub negative_operational_evidence : Bool
  pub node_ids : List String
  pub chokepoint_ids : List String
  pub country_ids : List String
  pub lane_relevance : List String
