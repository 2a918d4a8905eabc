-- ===== src/Provenance/Decision.antt =====
-- analysis/provenance.py: qualifies_for_current_publication.
use logistics_situation_plat.Provenance.Records.{
  record_family, synthetic_source_id, record_source_id, record_retrieval_status, record_origin,
  record_dataset, record_label, series_role_requirements, Family, Record,
}
use logistics_situation_plat.Model.{
  licence_status_eq, dataset_eq, retrieval_status_eq, raw_values_permitted, derived_values_only,
  bounded_claim_and_link_only, metadata_link_only, live_retrieved, current_publication,
  LicenceStatus, manual_intake_eq, access_method_eq, origin_eq, allowed, not_retrieved,
  AccessMethod, retrieved, human_reviewed_manual, RetrievalStatus, Source, Origin, Registry,
  PublicationUse,
}
use logistics_situation_plat.Base.{
  given, ◌>>=◌, ◌>>◌, require, truthy, meets, ok, or_else, raise, Result, String, Bool, true, false,
  not, ◌&&◌, ◌||◌, Option, none, some, [], ◌∷◌, if◌then◌else◌, ◌==◌, string_eq, option_eq, nat_eq,
}

-- `INTENDED_USES`, and any other text.
pub data IntendedUse : Type 0 where
  publish_raw_value publish_derived_value publish_bounded_claim publish_link_only : IntendedUse
  other_use : IntendedUse

abbrev pub is_known_use : IntendedUse → Bool
is_known_use other_use = false
is_known_use _ = true

-- `_PERMITTED_USES[disposition]`: is the use among them?
abbrev pub permits : PublicationUse → IntendedUse → Bool
permits raw_values_permitted intent = is_known_use intent
permits derived_values_only publish_derived_value = true
permits derived_values_only publish_bounded_claim = true
permits derived_values_only publish_link_only = true
permits derived_values_only _ = false
permits bounded_claim_and_link_only publish_bounded_claim = true
permits bounded_claim_and_link_only publish_link_only = true
permits bounded_claim_and_link_only _ = false
permits metadata_link_only publish_link_only = true
permits metadata_link_only _ = false
permits _ _ = false

-- Why a record is refused, in the order of the tests.
pub data Refusal : Type 0 where
  unknown_use other_dataset unrecognised_origin fixture_origin live_not_retrieved : Refusal
  manual_but_network no_source_id reserved_source no_registry unregistered_source : Refusal
  source_not_enabled incompatible_role no_disposition use_not_permitted : Refusal
  unreviewed_licence : Refusal

-- `_source_entry`: `none` where there is no registry or no such source.
unfoldable pub find_source : Registry → String → Option Source
find_source [] source_id = none
find_source (source ∷ rest) source_id =
    if source.id == source_id then some source else find_source rest source_id

-- The origin and retrieval tests: recognised, no fixture, and a retrieval status that fits.
unfoldable pub check_origin : Option Origin → Option RetrievalStatus → Result Refusal Origin
check_origin none status = raise unrecognised_origin
check_origin (some live_retrieved) status =
    if status == some retrieved then ok live_retrieved else raise live_not_retrieved
check_origin (some human_reviewed_manual) status =
    if status == some RetrievalStatus.not_applicable || status == some not_retrieved
    then ok human_reviewed_manual
    else raise manual_but_network
check_origin (some _) status = raise fixture_origin

-- `source.get("enabled")`, or an allowed human-reviewed manual intake.
unfoldable pub is_enabled_or_manual : Source → Origin → Bool
is_enabled_or_manual source origin =
    source.enabled
    || (origin == human_reviewed_manual
        && source.access_method == some AccessMethod.manual
        && source.manual_intake_status == some allowed)

-- The role test applies to observation families only.
unfoldable pub has_compatible_role : Source → Option Family → Bool
has_compatible_role source none = true
has_compatible_role source (some family) =
    meets source.logistics_role (series_role_requirements family)

-- The tests in the code's order; the first that fails is the reason.
unfoldable pub publication_check : Record → Option Registry → IntendedUse → Result Refusal Source
publication_check item registry intent = do
  require (is_known_use intent) unknown_use
  require (record_dataset item == some current_publication) other_dataset
  origin ← check_origin (record_origin item) (record_retrieval_status item)
  require (truthy (record_source_id item)) no_source_id
  require (not (record_source_id item == some synthetic_source_id)) reserved_source
  sources ← given registry no_registry
  source ← given (find_source sources (or_else (record_source_id item) "")) unregistered_source
  require (is_enabled_or_manual source origin) source_not_enabled
  require (has_compatible_role source (record_family item)) incompatible_role
  disposition ← given source.publication_use no_disposition
  require (permits disposition intent) use_not_permitted
  require (source.licence_status == some LicenceStatus.reviewed) unreviewed_licence
  ok source

pub record PublicationDecision : Type 0 where
  pub eligible : Bool
  pub reason : Option Refusal
  pub record_id : String

-- The decision that the chain of tests ends in.
abbrev pub decided : String → Result Refusal Source → PublicationDecision
decided label (ok source) = record { eligible = true; reason = none; record_id = label }
decided label (raise refusal) = record {
  eligible = false;
  reason = some refusal;
  record_id = label;
}

-- `publication_use or PUBLISH_RAW_VALUE`
unfoldable pub qualifies_for_current_publication :
    Record → Option Registry → Option IntendedUse → PublicationDecision
qualifies_for_current_publication item registry intent =
    decided (record_label item) (publication_check item registry (or_else intent publish_raw_value))
