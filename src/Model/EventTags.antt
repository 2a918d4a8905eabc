-- ===== src/Model/EventTags.antt =====
-- The vocabularies that the JSON schemas fix for events, impacts and evidence items, one type for each, with
-- the equality test that the code's `==` is on their strings. Each type names its schema (schemas/).
use logistics_situation_plat.Base.{ℕ, ◌≡◌, Eq, by_code, arith}

-- logistics_event.schema.json: evidence_grade
pub data Grade : Type 0 where
  confirmed corroborated reported analytical_inference : Grade

abbrev pub grade_code : Grade → ℕ
grade_code confirmed = 0
grade_code corroborated = 1
grade_code reported = 2
grade_code analytical_inference = 3

pub grade_inj : (a b : Grade) → grade_code a ≡ grade_code b → a ≡ b
grade_inj x y h = ground arith

instance abbrev pub grade_eq : Eq Grade
grade_eq = by_code grade_code grade_inj

-- logistics_event.schema.json: situation_state
pub data SituationState : Type 0 where
  emerging active developing stable easing : SituationState
  resolved uncertain : SituationState

abbrev pub situation_state_code : SituationState → ℕ
situation_state_code emerging = 0
situation_state_code active = 1
situation_state_code developing = 2
situation_state_code stable = 3
situation_state_code easing = 4
situation_state_code resolved = 5
situation_state_code uncertain = 6

pub situation_state_inj :
    (a b : SituationState) → situation_state_code a ≡ situation_state_code b → a ≡ b
situation_state_inj x y h = ground arith

instance abbrev pub situation_state_eq : Eq SituationState
situation_state_eq = by_code situation_state_code situation_state_inj

-- logistics_event.schema.json: conflicting_evidence[].resolution_status
pub data ResolutionStatus : Type 0 where
  unresolved resolved_by_primary_source superseded confidence_reduced escalated_for_verification :
      ResolutionStatus
  resolved_as_status_change : ResolutionStatus

abbrev pub resolution_status_code : ResolutionStatus → ℕ
resolution_status_code unresolved = 0
resolution_status_code resolved_by_primary_source = 1
resolution_status_code superseded = 2
resolution_status_code confidence_reduced = 3
resolution_status_code escalated_for_verification = 4
resolution_status_code resolved_as_status_change = 5

pub resolution_status_inj :
    (a b : ResolutionStatus) → resolution_status_code a ≡ resolution_status_code b → a ≡ b
resolution_status_inj x y h = ground arith

instance abbrev pub resolution_status_eq : Eq ResolutionStatus
resolution_status_eq = by_code resolution_status_code resolution_status_inj

-- logistics_event.schema.json: conflicting_evidence[].contradiction_type
pub data ContradictionType : Type 0 where
  existence magnitude duration causation scope : ContradictionType
  attribution status_change retraction : ContradictionType

abbrev pub contradiction_type_code : ContradictionType → ℕ
contradiction_type_code existence = 0
contradiction_type_code magnitude = 1
contradiction_type_code duration = 2
contradiction_type_code causation = 3
contradiction_type_code scope = 4
contradiction_type_code attribution = 5
contradiction_type_code status_change = 6
contradiction_type_code retraction = 7

pub contradiction_type_inj :
    (a b : ContradictionType) → contradiction_type_code a ≡ contradiction_type_code b → a ≡ b
contradiction_type_inj x y h = ground arith

instance abbrev pub contradiction_type_eq : Eq ContradictionType
contradiction_type_eq = by_code contradiction_type_code contradiction_type_inj

-- logistics_event.schema.json: lifecycle_status
pub data LifecycleStatus : Type 0 where
  discovery_lead reported_event verified_event operational_impact_observed potential_impact :
      LifecycleStatus
  monitoring insufficient_evidence closed : LifecycleStatus

abbrev pub lifecycle_status_code : LifecycleStatus → ℕ
lifecycle_status_code discovery_lead = 0
lifecycle_status_code reported_event = 1
lifecycle_status_code verified_event = 2
lifecycle_status_code operational_impact_observed = 3
lifecycle_status_code potential_impact = 4
lifecycle_status_code monitoring = 5
lifecycle_status_code insufficient_evidence = 6
lifecycle_status_code closed = 7

pub lifecycle_status_inj :
    (a b : LifecycleStatus) → lifecycle_status_code a ≡ lifecycle_status_code b → a ≡ b
lifecycle_status_inj x y h = ground arith

instance abbrev pub lifecycle_status_eq : Eq LifecycleStatus
lifecycle_status_eq = by_code lifecycle_status_code lifecycle_status_inj

-- logistics_event.schema.json: event_class
pub data EventClass : Type 0 where
  direct_operational_event external_driver discovery_lead : EventClass

abbrev pub event_class_code : EventClass → ℕ
event_class_code direct_operational_event = 0
event_class_code external_driver = 1
event_class_code discovery_lead = 2

pub event_class_inj : (a b : EventClass) → event_class_code a ≡ event_class_code b → a ≡ b
event_class_inj x y h = ground arith

instance abbrev pub event_class_eq : Eq EventClass
event_class_eq = by_code event_class_code event_class_inj

-- impact_assessment.schema.json: area
pub data Area : Type 0 where
  warehouse logistics transport import_export inventory : Area
  cost capacity service business_continuity : Area

abbrev pub area_code : Area → ℕ
area_code warehouse = 0
area_code logistics = 1
area_code transport = 2
area_code import_export = 3
area_code inventory = 4
area_code cost = 5
area_code capacity = 6
area_code service = 7
area_code business_continuity = 8

pub area_inj : (a b : Area) → area_code a ≡ area_code b → a ≡ b
area_inj x y h = ground arith

instance abbrev pub area_eq : Eq Area
area_eq = by_code area_code area_inj

-- impact_assessment.schema.json: status
pub data ImpactStatus : Type 0 where
  observed potential no_material insufficient_evidence elevated_watch : ImpactStatus
  not_relevant : ImpactStatus

abbrev pub impact_status_code : ImpactStatus → ℕ
impact_status_code observed = 0
impact_status_code potential = 1
impact_status_code no_material = 2
impact_status_code insufficient_evidence = 3
impact_status_code elevated_watch = 4
impact_status_code not_relevant = 5

pub impact_status_inj : (a b : ImpactStatus) → impact_status_code a ≡ impact_status_code b → a ≡ b
impact_status_inj x y h = ground arith

instance abbrev pub impact_status_eq : Eq ImpactStatus
impact_status_eq = by_code impact_status_code impact_status_inj

-- impact_assessment.schema.json: severity
pub data Severity : Type 0 where
  no_severity low moderate high critical : Severity

abbrev pub severity_code : Severity → ℕ
severity_code no_severity = 0
severity_code low = 1
severity_code moderate = 2
severity_code high = 3
severity_code critical = 4

pub severity_inj : (a b : Severity) → severity_code a ≡ severity_code b → a ≡ b
severity_inj x y h = ground arith

instance abbrev pub severity_eq : Eq Severity
severity_eq = by_code severity_code severity_inj

-- event_evidence.schema.json: strength
pub data Strength : Type 0 where
  strength_a strength_b strength_c strength_d : Strength

abbrev pub strength_code : Strength → ℕ
strength_code strength_a = 0
strength_code strength_b = 1
strength_code strength_c = 2
strength_code strength_d = 3

pub strength_inj : (a b : Strength) → strength_code a ≡ strength_code b → a ≡ b
strength_inj x y h = ground arith

instance abbrev pub strength_eq : Eq Strength
strength_eq = by_code strength_code strength_inj

-- FRESHNESS_STATES of analysis/claim_evidence_adapter.py, least stale first.
pub data FreshnessState : Type 0 where
  fresh ageing stale expired unknown : FreshnessState

abbrev pub freshness_state_code : FreshnessState → ℕ
freshness_state_code fresh = 0
freshness_state_code ageing = 1
freshness_state_code stale = 2
freshness_state_code expired = 3
freshness_state_code unknown = 4

pub freshness_state_inj :
    (a b : FreshnessState) → freshness_state_code a ≡ freshness_state_code b → a ≡ b
freshness_state_inj x y h = ground arith

instance abbrev pub freshness_state_eq : Eq FreshnessState
freshness_state_eq = by_code freshness_state_code freshness_state_inj
