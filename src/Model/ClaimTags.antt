-- ===== src/Model/ClaimTags.antt =====
-- The vocabularies that the JSON schemas fix for claims, one type for each, with
-- the equality test that the code's `==` is on their strings. Each type names its schema (schemas/).
use logistics_situation_plat.Base.{ℕ, ◌≡◌, Eq, by_code, arith}

-- claim.schema.json: claim_type
pub data ClaimType : Type 0 where
  verified_fact official_notice official_forecast reported_claim analytical_inference : ClaimType
  discovery_lead structural_finding historical_fact denial_or_correction : ClaimType

abbrev pub claim_type_code : ClaimType → ℕ
claim_type_code verified_fact = 0
claim_type_code official_notice = 1
claim_type_code official_forecast = 2
claim_type_code reported_claim = 3
claim_type_code analytical_inference = 4
claim_type_code discovery_lead = 5
claim_type_code structural_finding = 6
claim_type_code historical_fact = 7
claim_type_code denial_or_correction = 8

pub claim_type_inj : (a b : ClaimType) → claim_type_code a ≡ claim_type_code b → a ≡ b
claim_type_inj x y h = ground arith

instance abbrev pub claim_type_eq : Eq ClaimType
claim_type_eq = by_code claim_type_code claim_type_inj

-- claim.schema.json: assertion.predicate_class
pub data PredicateClass : Type 0 where
  berth_or_facility_availability transit_or_passage service_schedule capacity_or_equipment
        customs_or_clearance :
      PredicateClass
  tariff_or_fee sanction_or_regulation hazard_or_security labour_action structural_finding :
      PredicateClass

abbrev pub predicate_class_code : PredicateClass → ℕ
predicate_class_code berth_or_facility_availability = 0
predicate_class_code transit_or_passage = 1
predicate_class_code service_schedule = 2
predicate_class_code capacity_or_equipment = 3
predicate_class_code customs_or_clearance = 4
predicate_class_code tariff_or_fee = 5
predicate_class_code sanction_or_regulation = 6
predicate_class_code hazard_or_security = 7
predicate_class_code labour_action = 8
predicate_class_code structural_finding = 9

pub predicate_class_inj :
    (a b : PredicateClass) → predicate_class_code a ≡ predicate_class_code b → a ≡ b
predicate_class_inj x y h = ground arith

instance abbrev pub predicate_class_eq : Eq PredicateClass
predicate_class_eq = by_code predicate_class_code predicate_class_inj

-- claim.schema.json: evidence_layer
pub data EvidenceLayer : Type 0 where
  current_evidence context structural_research : EvidenceLayer

abbrev pub evidence_layer_code : EvidenceLayer → ℕ
evidence_layer_code current_evidence = 0
evidence_layer_code context = 1
evidence_layer_code structural_research = 2

pub evidence_layer_inj :
    (a b : EvidenceLayer) → evidence_layer_code a ≡ evidence_layer_code b → a ≡ b
evidence_layer_inj x y h = ground arith

instance abbrev pub evidence_layer_eq : Eq EvidenceLayer
evidence_layer_eq = by_code evidence_layer_code evidence_layer_inj

-- claim.schema.json: review_status
pub data ReviewStatus : Type 0 where
  unreviewed approved rejected needs_review superseded : ReviewStatus

abbrev pub review_status_code : ReviewStatus → ℕ
review_status_code unreviewed = 0
review_status_code approved = 1
review_status_code rejected = 2
review_status_code needs_review = 3
review_status_code superseded = 4

pub review_status_inj : (a b : ReviewStatus) → review_status_code a ≡ review_status_code b → a ≡ b
review_status_inj x y h = ground arith

instance abbrev pub review_status_eq : Eq ReviewStatus
review_status_eq = by_code review_status_code review_status_inj

-- claim.schema.json: contradiction_status
pub data ContradictionStatus : Type 0 where
  none_recorded unresolved resolved_by_primary_source superseded confidence_reduced :
      ContradictionStatus

abbrev pub contradiction_status_code : ContradictionStatus → ℕ
contradiction_status_code none_recorded = 0
contradiction_status_code unresolved = 1
contradiction_status_code resolved_by_primary_source = 2
contradiction_status_code superseded = 3
contradiction_status_code confidence_reduced = 4

pub contradiction_status_inj :
    (a b : ContradictionStatus) → contradiction_status_code a ≡ contradiction_status_code b → a ≡ b
contradiction_status_inj x y h = ground arith

instance abbrev pub contradiction_status_eq : Eq ContradictionStatus
contradiction_status_eq = by_code contradiction_status_code contradiction_status_inj

-- claim.schema.json: corroboration_status
pub data CorroborationStatus : Type 0 where
  uncorroborated corroborated_dependent corroborated_independent officially_confirmed contradicted :
      CorroborationStatus
  not_assessed : CorroborationStatus

abbrev pub corroboration_status_code : CorroborationStatus → ℕ
corroboration_status_code uncorroborated = 0
corroboration_status_code corroborated_dependent = 1
corroboration_status_code corroborated_independent = 2
corroboration_status_code officially_confirmed = 3
corroboration_status_code contradicted = 4
corroboration_status_code not_assessed = 5

pub corroboration_status_inj :
    (a b : CorroborationStatus) → corroboration_status_code a ≡ corroboration_status_code b → a ≡ b
corroboration_status_inj x y h = ground arith

instance abbrev pub corroboration_status_eq : Eq CorroborationStatus
corroboration_status_eq = by_code corroboration_status_code corroboration_status_inj

-- claim.schema.json: extraction_method
pub data ExtractionMethod : Type 0 where
  human_transcription human_extraction ai_proposed_human_approved ai_proposed_unreviewed
        rule_based_parse :
      ExtractionMethod
  structured_field_map : ExtractionMethod

abbrev pub extraction_method_code : ExtractionMethod → ℕ
extraction_method_code human_transcription = 0
extraction_method_code human_extraction = 1
extraction_method_code ai_proposed_human_approved = 2
extraction_method_code ai_proposed_unreviewed = 3
extraction_method_code rule_based_parse = 4
extraction_method_code structured_field_map = 5

pub extraction_method_inj :
    (a b : ExtractionMethod) → extraction_method_code a ≡ extraction_method_code b → a ≡ b
extraction_method_inj x y h = ground arith

instance abbrev pub extraction_method_eq : Eq ExtractionMethod
extraction_method_eq = by_code extraction_method_code extraction_method_inj

-- claim.schema.json: event_date_precision
pub data DatePrecision : Type 0 where
  date datetime month unknown : DatePrecision

abbrev pub date_precision_code : DatePrecision → ℕ
date_precision_code date = 0
date_precision_code datetime = 1
date_precision_code month = 2
date_precision_code unknown = 3

pub date_precision_inj :
    (a b : DatePrecision) → date_precision_code a ≡ date_precision_code b → a ≡ b
date_precision_inj x y h = ground arith

instance abbrev pub date_precision_eq : Eq DatePrecision
date_precision_eq = by_code date_precision_code date_precision_inj

-- claim.schema.json: thailand_relevance_asserted
pub data Relevance : Type 0 where
  asserted_by_source inferred_by_platform not_asserted : Relevance

abbrev pub relevance_code : Relevance → ℕ
relevance_code asserted_by_source = 0
relevance_code inferred_by_platform = 1
relevance_code not_asserted = 2

pub relevance_inj : (a b : Relevance) → relevance_code a ≡ relevance_code b → a ≡ b
relevance_inj x y h = ground arith

instance abbrev pub relevance_eq : Eq Relevance
relevance_eq = by_code relevance_code relevance_inj

-- claim.schema.json: claim_scope
pub data ClaimScope : Type 0 where
  asset facility node route lane : ClaimScope
  country region global : ClaimScope

abbrev pub claim_scope_code : ClaimScope → ℕ
claim_scope_code asset = 0
claim_scope_code facility = 1
claim_scope_code node = 2
claim_scope_code route = 3
claim_scope_code lane = 4
claim_scope_code country = 5
claim_scope_code region = 6
claim_scope_code global = 7

pub claim_scope_inj : (a b : ClaimScope) → claim_scope_code a ≡ claim_scope_code b → a ≡ b
claim_scope_inj x y h = ground arith

instance abbrev pub claim_scope_eq : Eq ClaimScope
claim_scope_eq = by_code claim_scope_code claim_scope_inj
