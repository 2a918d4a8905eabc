-- ===== src/Tests/Data.antt =====
-- A port authority's closure notice, the claim read from it, and the event that it establishes.
use logistics_situation_plat.Situations.{Inputs}
use logistics_situation_plat.Provenance.{Record}
use logistics_situation_plat.Model.{
  Run, run_success, no_material, Severity, asserted_by_source, human_transcription, DatePrecision,
  confirmed, officially_confirmed, LicenceStatus, active, strength_a, none_recorded, allowed,
  verified_event, Severity, approved, RetrievalStatus, bounded_claim_and_link_only, existence,
  current_publication, observed, facility, human_reviewed_manual, AccessMethod, ResolutionStatus,
  direct_operational_event, Area, denial_or_correction, official_notice, empty_document,
  berth_or_facility_availability, current_evidence, day, Stamp, Conflict, Event, Impact, Claim,
  Document, AuthorityScope, Registry, Source, Time,
}
use logistics_situation_plat.Base.{
  ◌*◌, String, true, false, none, some, List, [], ◌∷◌, string_eq, option_eq, nat_eq,
}

abbrev pub stamp : String → Time → Stamp
stamp text time = record { text = text; parsed = some time }

-- A day on which the notice is a day old, and one on which it is stale.
abbrev pub notice_time : Time
notice_time = 100 * day

abbrev pub next_day : Time
next_day = 101 * day

abbrev pub weeks_later : Time
weeks_later = 106 * day

abbrev pub port_source : Source
port_source = record {
  id = "PORT-AUTHORITY";
  purposes = "operational_notices" ∷ [];
  logistics_role = "official_operational_notice" ∷ [];
  max_stale_minutes = some 2880;
  expected_cadence_minutes = none;
  enabled = true;
  enabled_for_public_claims = true;
  governance_layer = some current_evidence;
  required_for_publication = true;
  access_method = some AccessMethod.manual;
  publication_use = some bounded_claim_and_link_only;
  manual_intake_status = some allowed;
  licence_status = some LicenceStatus.reviewed;
  source_class = some "official";
  parser = some "manual_v1";
  is_conduit = false;
}

abbrev pub news_source : Source
news_source = record port_source { id = "NEWS"; purposes = "news_discovery" ∷ [] }

abbrev pub registry : Registry
registry = port_source ∷ news_source ∷ []

abbrev pub port_scope : AuthorityScope
port_scope = record {
  predicate_classes = berth_or_facility_availability ∷ [];
  node_ids = "NODE-LCB" ∷ [];
  chokepoint_ids = [];
  country_ids = "TH" ∷ [];
}

abbrev pub notice : Document
notice = record empty_document {
  document_id = some "DOC-1";
  source_id = some "PORT-AUTHORITY";
  evidence_origin = some human_reviewed_manual;
  dataset = some current_publication;
  retrieval_status = some RetrievalStatus.not_applicable;
  published_at = some (stamp "2026-04-11T00:00:00Z" notice_time);
  publisher_authority = some port_scope;
  evidence_layer = some current_evidence;
  independence_group = some "PORT";
  geographies = "TH" ∷ [];
  known_limitations = "Transcribed by hand." ∷ [];
}

abbrev pub closure : Claim
closure = record {
  claim_id = "CLM-20260411-0001";
  document_id = some "DOC-1";
  source_id = some "PORT-AUTHORITY";
  event_ids = "EVT-1" ∷ [];
  claim_text = some "Terminal B is closed.";
  claim_type = some official_notice;
  claim_scope = some facility;
  dataset = some current_publication;
  review_status = some approved;
  supersedes = [];
  superseded_by = none;
  evidence_layer = some current_evidence;
  independence_group = some "PORT";
  assertion_group_id = none;
  contradiction_status = some none_recorded;
  corroboration_status = some officially_confirmed;
  primary_for_this_claim = true;
  attributed_to = none;
  predicate_class = some berth_or_facility_availability;
  subject_ref = some "Terminal B";
  node_ids = "NODE-LCB" ∷ [];
  chokepoint_ids = [];
  lane_ids = [];
  country_ids = "TH" ∷ [];
  event_start_at = some (stamp "2026-04-11T00:00:00Z" notice_time);
  event_end_at = none;
  event_date_precision = some DatePrecision.datetime;
  extraction_method = some human_transcription;
  thailand_relevance_asserted = some asserted_by_source;
  quotation_used = false;
  known_limitations = "Transcribed by hand." ∷ "End date not stated." ∷ [];
}

-- The same notice seen through a news channel.
abbrev pub news_notice : Document
news_notice = record notice { document_id = some "DOC-2"; source_id = some "NEWS" }

abbrev pub denial_claim : Claim
denial_claim = record closure {
  claim_id = "CLM-20260412-0001";
  claim_type = some denial_or_correction;
}

abbrev pub claims : List (String × Claim)
claims = ("CLM-20260411-0001", closure) ∷ ("CLM-20260412-0001", denial_claim) ∷ []

abbrev pub documents : List (String × Document)
documents = ("DOC-1", notice) ∷ ("DOC-2", news_notice) ∷ []

abbrev pub observed_impact : Impact
observed_impact = record {
  area = Area.transport;
  status = some observed;
  severity = Severity.high;
  evidence_strength = some strength_a;
  no_material_basis = none;
  watch_trigger = none;
  not_relevant_basis = none;
  transmission_mechanism = some "Berth closed.";
  evidence_ids = "EVD-20260411-0001" ∷ [];
}

abbrev pub closure_event : Event
closure_event = record {
  event_id = "EVT-1";
  event_class = some direct_operational_event;
  dataset = some current_publication;
  lifecycle_status = some verified_event;
  closure_basis = none;
  event_date = some (stamp "2026-04-11" notice_time);
  event_end_date = none;
  active_as_of = some (stamp "2026-04-11T00:00:00Z" notice_time);
  active_basis = some "Notice in force.";
  first_seen_at = some (stamp "2026-04-11T00:00:00Z" notice_time);
  operator_or_entity = some "Terminal B";
  evidence_ids = "EVD-20260411-0001" ∷ [];
  claim_ids = "CLM-20260411-0001" ∷ [];
  verified_facts = "CLM-20260411-0001" ∷ [];
  conflicting_evidence = [];
  situation_state = some active;
  evidence_grade = some confirmed;
  grade_override = none;
  transmission_chain = record {
    external_driver = false;
    operational_change = true;
    logistics_mechanism = true;
    observable_indicator = true;
    outcome = true;
  };
  impact_assessments = observed_impact ∷ [];
  negative_operational_evidence = false;
  node_ids = "NODE-LCB" ∷ [];
  chokepoint_ids = [];
  country_ids = "TH" ∷ [];
  lane_relevance = [];
}

abbrev pub dispute : Conflict
dispute = record {
  resolution_status = some ResolutionStatus.unresolved;
  contradiction_type = some existence;
  evidence_ids = [];
  claim_ids_side_a = [];
  claim_ids_side_b = [];
  resolution_basis = none;
}

abbrev pub disputed_event : Event
disputed_event = record closure_event { conflicting_evidence = dispute ∷ [] }

abbrev pub denied_event : Event
denied_event = record closure_event { claim_ids = "CLM-20260412-0001" ∷ []; active_as_of = none }

-- The evidence item that the closure's claim projects to, as the publication decision reads it.
abbrev pub closure_record : Record
closure_record = record {
  nested = none;
  top = record {
    evidence_origin = some human_reviewed_manual;
    source_id = some "PORT-AUTHORITY";
    intended_source_id = none;
    retrieval_status = some RetrievalStatus.not_applicable;
    dataset = some current_publication;
    record_id = none;
    retrieved_at = none;
    collection_run_id = none;
    manual_review_event_id = none;
    parser_version = none;
    content_sha256 = none;
    source_record_id = none;
  };
  evidence_id = some "EVD-20260411-0001";
  event_id = some "EVT-1";
  has_indicator_id = false;
  unit = none;
  country_id = none;
  lane_id = none;
  has_flow_direction = false;
  has_cost_family = false;
  has_metric = false;
  has_operational_interpretation = false;
}

abbrev pub items : List (String × Record)
items = ("EVD-20260411-0001", closure_record) ∷ []

abbrev pub calm_impact : Impact
calm_impact = record observed_impact {
  status = some no_material;
  severity = Severity.no_severity;
  no_material_basis = some "Berth plan unchanged.";
}

-- An event on a lane that was checked and found to have no material effect.
abbrev pub calm_event : Event
calm_event = record closure_event {
  event_id = "EVT-2";
  impact_assessments = calm_impact ∷ [];
  negative_operational_evidence = true;
  lane_relevance = "LANE-1" ∷ [];
}

-- A second, independent official statement of the closure.
abbrev pub second_notice : Document
second_notice = record notice { document_id = some "DOC-3"; independence_group = some "CUSTOMS" }

abbrev pub second_claim : Claim
second_claim = record closure {
  claim_id = "CLM-20260411-0002";
  document_id = some "DOC-3";
  independence_group = some "CUSTOMS";
}

abbrev pub twice_reported : Event
twice_reported = record closure_event {
  event_id = "EVT-3";
  claim_ids = "CLM-20260411-0001" ∷ "CLM-20260411-0002" ∷ [];
}

-- The inputs of the situations, a day after the notices.
abbrev pub inputs : Inputs
inputs = record {
  evidence_by_id = items;
  claims_by_id = ("CLM-20260411-0002", second_claim) ∷ claims;
  documents_by_id = ("DOC-3", second_notice) ∷ documents;
  registry = registry;
  lanes = [];
  as_of = next_day;
  country_code = "TH";
  geography_id = "GEO-TH";
}

-- A successful run of a feed with an empty manifest.
abbrev pub quiet_run : Run
quiet_run = record {
  run_id = "RUN-1";
  source_id = some "FEED";
  status = run_success;
  started_at = some (stamp "2026-04-11T00:00:00Z" notice_time);
  completed_at = some (stamp "2026-04-11T00:00:00Z" notice_time);
  adapter_version = some "feed_v1";
  records_emitted = some 0;
  emitted_records = some [];
  output_manifest_sha256 = some "e3b0";
  supersedes_run_id = none;
  errors = [];
}
