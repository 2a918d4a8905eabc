-- ===== src/Provenance/Records.antt =====
-- analysis/provenance.py: the record of either shape and what is read from it.
use logistics_situation_plat.Model.{Dataset, RetrievalStatus, Origin, Stamp}
use logistics_situation_plat.Base.{
  truthy, or_else, String, Bool, ◌&&◌, Option, none, some, List, [], ◌∷◌, if◌then◌else◌, ◌==◌,
  string_eq, option_eq, nat_eq,
}

-- The provenance keys, nested under `provenance` in observations and at the top level elsewhere.
-- An origin that is none of the four is `none`, like an absent one.
pub record Provenance : Type 0 where
  pub evidence_origin : Option Origin
  pub source_id : Option String
  pub intended_source_id : Option String
  pub retrieval_status : Option RetrievalStatus
  pub dataset : Option Dataset
  pub record_id : Option String
  pub retrieved_at : Option Stamp
  pub collection_run_id : Option String
  pub manual_review_event_id : Option String
  pub parser_version : Option String
  pub content_sha256 : Option String
  pub source_record_id : Option String

-- One record: its nested block if it has one, its top-level keys, which keys it carries, and the keys
-- of its `measurement` and `placement`.
pub record Record : Type 0 where
  pub nested : Option Provenance
  pub top : Provenance
  pub evidence_id : Option String
  pub event_id : Option String
  pub has_indicator_id : Bool
  pub unit : Option String
  pub country_id : Option String
  pub lane_id : Option String
  pub has_flow_direction : Bool
  pub has_cost_family : Bool
  pub has_metric : Bool
  pub has_operational_interpretation : Bool

-- `_provenance`
abbrev pub provenance_of : Record → Provenance
provenance_of item = or_else item.nested item.top

abbrev pub record_origin : Record → Option Origin
record_origin item = (provenance_of item).evidence_origin

abbrev pub record_source_id : Record → Option String
record_source_id item = (provenance_of item).source_id

abbrev pub record_intended_source_id : Record → Option String
record_intended_source_id item = (provenance_of item).intended_source_id

abbrev pub record_retrieval_status : Record → Option RetrievalStatus
record_retrieval_status item = (provenance_of item).retrieval_status

-- The nested dataset if it is recorded, and the top-level one otherwise.
unfoldable pub record_dataset : Record → Option Dataset
record_dataset item = elim item.nested [
  | none ↦ item.top.dataset
  | some block ↦ elim block.dataset [ none ↦ item.top.dataset | some own ↦ some own ]
]

abbrev pub synthetic_source_id : String
synthetic_source_id = "SYNTHETIC_FIXTURE"

unfoldable pub effective_source_id : Record → Option String
effective_source_id item =
    if record_source_id item == some synthetic_source_id
    then record_intended_source_id item
    else record_source_id item

pub data Family : Type 0 where
  trade_observations port_observations cost_observations indicator_observations : Family

unfoldable pub record_family : Record → Option Family
record_family item =
    if item.has_indicator_id
    then some indicator_observations
    else (if item.has_flow_direction
        then some trade_observations
        else (if item.has_cost_family
            then some cost_observations
            else (if item.has_metric && item.has_operational_interpretation
                then some port_observations
                else none)))

-- `SERIES_ROLE_REQUIREMENTS`
abbrev pub series_role_requirements : Family → List String
series_role_requirements trade_observations = "thailand_trade_flow" ∷ []
series_role_requirements port_observations = "thailand_port_or_maritime_activity" ∷ []
series_role_requirements cost_observations =
    "domestic_fuel_or_energy_cost" ∷ "freight_market_benchmark_or_proxy" ∷ "fx_context" ∷ []
series_role_requirements indicator_observations =
    "fx_context" ∷ "global_supply_chain_baseline" ∷ "thailand_port_or_maritime_activity"
    ∷ "external_driver_context" ∷ []

-- `_record_label`
unfoldable pub record_label : Record → String
record_label item =
    if truthy (provenance_of item).record_id
    then or_else (provenance_of item).record_id ""
    else (if truthy item.evidence_id
        then or_else item.evidence_id ""
        else (if truthy item.event_id then or_else item.event_id "" else "<record>"))
