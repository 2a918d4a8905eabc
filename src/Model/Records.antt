-- ===== src/Model/Records.antt =====
-- Claims, documents, events and the source registry, as the analysis reads them.
-- A key that is absent and a key that is null read the same by `.get`, and are `none`; where the
-- code writes `.get(key) or []`, a list that is absent, null or empty is `[]`; a flag of which only
-- the truth is read is a `Bool`. `assertion`, `governance`, `qualification`, `rights` and
-- `authority_scope` are read by `(… or {}).get(key)`, and their keys stand here as fields.
use logistics_situation_plat.Base.{ℕ, ◌*◌, String, Option, none, Bool, false, List, []}
use logistics_situation_plat.Model.ClaimTags.{
  ClaimType, PredicateClass, EvidenceLayer, ReviewStatus, ContradictionStatus, CorroborationStatus,
  ExtractionMethod, DatePrecision, Relevance, ClaimScope,
}
use logistics_situation_plat.Model.DocumentTags.{
  Dataset, Origin, RetrievalStatus, AccessMethod, PublicationUse, ManualIntake, LicenceStatus,
}

-- An instant, in microseconds (the resolution of Python's datetime) from a fixed origin.
abbrev pub Time : Type 0
Time = ℕ

abbrev pub minute : Time
minute = 60000000

abbrev pub hour : Time
hour = 60 * minute

abbrev pub day : Time
day = 24 * hour

-- A date-time text with the instant that `datetime.fromisoformat` reads from it (a text with no
-- offset is UTC, a trailing Z is +00:00); `none` where that call raises ValueError.
pub record Stamp : Type 0 where
  pub text : String
  pub parsed : Option Time

-- `claim.attributed_to`, of which only `is_named` is read.
pub record Attribution : Type 0 where
  pub is_named : Option Bool

pub record Claim : Type 0 where
  pub claim_id : String
  pub document_id : Option String
  pub source_id : Option String
  pub event_ids : List String
  pub claim_text : Option String
  pub claim_type : Option ClaimType
  pub claim_scope : Option ClaimScope
  pub dataset : Option Dataset
  pub review_status : Option ReviewStatus
  pub supersedes : List String
  pub superseded_by : Option String
  pub evidence_layer : Option EvidenceLayer
  pub independence_group : Option String
  pub assertion_group_id : Option String
  pub contradiction_status : Option ContradictionStatus
  pub corroboration_status : Option CorroborationStatus
  pub primary_for_this_claim : Bool
  pub attributed_to : Option Attribution
  pub predicate_class : Option PredicateClass
  pub subject_ref : Option String
  pub node_ids : List String
  pub chokepoint_ids : List String
  pub lane_ids : List String
  pub country_ids : List String
  pub event_start_at : Option Stamp
  pub event_end_at : Option Stamp
  pub event_date_precision : Option DatePrecision
  pub extraction_method : Option ExtractionMethod
  pub thailand_relevance_asserted : Option Relevance
  pub quotation_used : Bool
  pub known_limitations : List String

-- `document.publisher_authority.authority_scope`
pub record AuthorityScope : Type 0 where
  pub predicate_classes : List PredicateClass
  pub node_ids : List String
  pub chokepoint_ids : List String
  pub country_ids : List String

pub record Document : Type 0 where
  pub document_id : Option String
  pub source_id : Option String
  pub publisher : Option String
  pub canonical_url : Option String
  pub originator_document_url : Option String
  pub evidence_origin : Option Origin
  pub dataset : Option Dataset
  pub retrieval_status : Option RetrievalStatus
  pub paywall_encountered : Bool
  pub published_at : Option Stamp
  pub retrieved_at : Option Stamp
  pub updated_at : Option Stamp
  pub publisher_authority : Option AuthorityScope
  pub duplicate_of : Option String
  pub evidence_layer : Option EvidenceLayer
  pub independence_group : Option String
  pub geographies : List String
  pub quotation_allowed : Bool
  pub redistribution_status : Option String
  pub content_sha256 : Option String
  pub content_hash_scope : Option String
  pub known_limitations : List String
  pub collection_run_id : Option String
  pub manual_review_event_id : Option String
  pub independence_basis : Option String

-- `{}` read as a document: what `documents_by_id.get(…) or {}` gives on a miss.
abbrev pub empty_document : Document
empty_document = record {
  document_id = none;
  source_id = none;
  publisher = none;
  canonical_url = none;
  originator_document_url = none;
  evidence_origin = none;
  dataset = none;
  retrieval_status = none;
  paywall_encountered = false;
  published_at = none;
  retrieved_at = none;
  updated_at = none;
  publisher_authority = none;
  duplicate_of = none;
  evidence_layer = none;
  independence_group = none;
  geographies = [];
  quotation_allowed = false;
  redistribution_status = none;
  content_sha256 = none;
  content_hash_scope = none;
  known_limitations = [];
  collection_run_id = none;
  manual_review_event_id = none;
  independence_basis = none;
}

-- One source contract of config/sources.yaml.
pub record Source : Type 0 where
  pub id : String
  pub purposes : List String
  pub logistics_role : List String
  pub max_stale_minutes : Option ℕ
  pub expected_cadence_minutes : Option ℕ
  pub enabled : Bool
  pub enabled_for_public_claims : Bool
  pub governance_layer : Option EvidenceLayer
  pub required_for_publication : Bool
  pub access_method : Option AccessMethod
  pub publication_use : Option PublicationUse
  pub manual_intake_status : Option ManualIntake
  pub licence_status : Option LicenceStatus
  pub source_class : Option String
  pub parser : Option String
  pub is_conduit : Bool

-- `{}` read as a source: what a registry lookup gives on a miss.
abbrev pub empty_source : Source
empty_source = record {
  id = "";
  purposes = [];
  logistics_role = [];
  max_stale_minutes = none;
  expected_cadence_minutes = none;
  enabled = false;
  enabled_for_public_claims = false;
  governance_layer = none;
  required_for_publication = false;
  access_method = none;
  publication_use = none;
  manual_intake_status = none;
  licence_status = none;
  source_class = none;
  parser = none;
  is_conduit = false;
}

-- `registry["sources"]`; the code reads a registry that is None as one with no source.
abbrev pub Registry : Type 0
Registry = List Source
