-- ===== src/Evidence/Projection.antt =====
-- analysis/claim_evidence_adapter.py: project_event_evidence and its helpers.
use Prim.Native.String.{◌++◌ as append, slice, len}
use text.Mathlib.Text.{starts_with}
use logistics_situation_plat.Base.{
  String, Option, none, some, List, [], ◌∷◌, ◌++◌, if◌then◌else◌, ◌==◌, string_eq, option_eq,
  contains, Result, ok, ◌>>◌, require,
}
use logistics_situation_plat.Model.{
  Time, Stamp, Claim, Document, Registry, ClaimType, ClaimScope, RetrievalStatus, Origin, Dataset,
  Strength, LicenceStatus,
}
use logistics_situation_plat.Evidence.Sources.{
  source_entry, EvidenceRole, evidence_role, Relation, relation,
}
use logistics_situation_plat.Evidence.Strength.{StrengthBasis, strength_basis, item_strength}

-- `value[:10] if value else None`, on an ASCII text
unfoldable pub date_only : Option Stamp → Option String
date_only none = none
date_only (some stamp) = if stamp.text == "" then none else some (slice stamp.text 0 10)

-- The loop of `_merged_known_limitations` over the claim's items.
unfoldable pub merge_items : List String → List String → List String
merge_items merged [] = merged
merge_items merged (item ∷ rest) =
    merge_items (if contains merged item then merged else merged ++ item ∷ []) rest

unfoldable pub merged_known_limitations : Document → Claim → List String
unfolding merge_items
merged_known_limitations document claim =
    merge_items document.known_limitations claim.known_limitations

-- `"EVD-" + claim_id.removeprefix("CLM-")`
unfoldable pub evidence_id_of : String → String
evidence_id_of claim_id =
    append "EVD-"
      (if starts_with claim_id "CLM-" then slice claim_id 4 (len claim_id) else claim_id)

-- The three ValueErrors.
pub data ProjectionError : Type 0 where
  document_disagrees source_disagrees event_not_attached : ProjectionError

-- The event-evidence record; the keys that are always None are left out.
pub record EventEvidence : Type 0 where
  pub evidence_id : String
  pub event_id : String
  pub source_id : Option String
  pub source_name : Option String
  pub source_class : Option String
  pub source_url : Option String
  pub claim : Option String
  pub claim_type : Option ClaimType
  pub role : EvidenceRole
  pub stance : Relation
  pub strength : Strength
  pub scope_supported : Option ClaimScope
  pub event_date : Option String
  pub publication_date : Option String
  pub retrieval_status : Option RetrievalStatus
  pub retrieved_at : Option Stamp
  pub revised_at : Option Stamp
  pub evidence_origin : Option Origin
  pub dataset : Option Dataset
  pub content_sha256 : Option String
  pub content_hash_scope : Option String
  pub basis : StrengthBasis
  pub parser_version : Option String
  pub licence_status : Option LicenceStatus
  pub redistribution_status : Option String
  pub known_limitations : List String
  pub collection_run_id : Option String
  pub manual_review_event_id : Option String

-- The dictionary that the function returns once the three checks have passed.
unfoldable pub projected : Claim → Document → String → Registry → Time → EventEvidence
projected claim document event_id registry now =
    let source = source_entry registry document.source_id in
    record {
      evidence_id = evidence_id_of claim.claim_id;
      event_id = event_id;
      source_id = document.source_id;
      source_name = document.publisher;
      source_class = source.source_class;
      source_url = document.canonical_url;
      claim = claim.claim_text;
      claim_type = claim.claim_type;
      role = evidence_role claim source;
      stance = relation claim;
      strength = item_strength claim document registry now;
      scope_supported = claim.claim_scope;
      event_date = date_only claim.event_start_at;
      publication_date = date_only document.published_at;
      retrieval_status = document.retrieval_status;
      retrieved_at = document.retrieved_at;
      revised_at = document.updated_at;
      evidence_origin = document.evidence_origin;
      dataset = document.dataset;
      content_sha256 = document.content_sha256;
      content_hash_scope = document.content_hash_scope;
      basis = strength_basis document;
      parser_version = source.parser;
      licence_status = source.licence_status;
      redistribution_status = document.redistribution_status;
      known_limitations = merged_known_limitations document claim;
      collection_run_id = document.collection_run_id;
      manual_review_event_id = document.manual_review_event_id;
    }

unfoldable pub project_event_evidence :
    Claim → Document → String → Registry → Time → Result ProjectionError EventEvidence
unfolding projected
project_event_evidence claim document event_id registry now = do
  require (claim.document_id == document.document_id) document_disagrees
  require (claim.source_id == document.source_id) source_disagrees
  require (contains claim.event_ids event_id) event_not_attached
  ok (projected claim document event_id registry now)
