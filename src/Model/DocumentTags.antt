-- ===== src/Model/DocumentTags.antt =====
-- The vocabularies that the JSON schemas fix for documents and source contracts, one type for each, with
-- the equality test that the code's `==` is on their strings. Each type names its schema (schemas/).
use logistics_situation_plat.Base.{ℕ, ◌≡◌, Eq, by_code, arith}

-- document.schema.json: dataset
pub data Dataset : Type 0 where
  current_publication technical_demo historical_validation : Dataset

abbrev pub dataset_code : Dataset → ℕ
dataset_code current_publication = 0
dataset_code technical_demo = 1
dataset_code historical_validation = 2

pub dataset_inj : (a b : Dataset) → dataset_code a ≡ dataset_code b → a ≡ b
dataset_inj x y h = ground arith

instance abbrev pub dataset_eq : Eq Dataset
dataset_eq = by_code dataset_code dataset_inj

-- document.schema.json: evidence_origin
pub data Origin : Type 0 where
  live_retrieved human_reviewed_manual synthetic_test_fixture historical_validation_fixture : Origin

abbrev pub origin_code : Origin → ℕ
origin_code live_retrieved = 0
origin_code human_reviewed_manual = 1
origin_code synthetic_test_fixture = 2
origin_code historical_validation_fixture = 3

pub origin_inj : (a b : Origin) → origin_code a ≡ origin_code b → a ≡ b
origin_inj x y h = ground arith

instance abbrev pub origin_eq : Eq Origin
origin_eq = by_code origin_code origin_inj

-- document.schema.json: retrieval_status
pub data RetrievalStatus : Type 0 where
  retrieved not_retrieved retrieval_failed not_applicable : RetrievalStatus

abbrev pub retrieval_status_code : RetrievalStatus → ℕ
retrieval_status_code retrieved = 0
retrieval_status_code not_retrieved = 1
retrieval_status_code retrieval_failed = 2
retrieval_status_code not_applicable = 3

pub retrieval_status_inj :
    (a b : RetrievalStatus) → retrieval_status_code a ≡ retrieval_status_code b → a ≡ b
retrieval_status_inj x y h = ground arith

instance abbrev pub retrieval_status_eq : Eq RetrievalStatus
retrieval_status_eq = by_code retrieval_status_code retrieval_status_inj

-- source_contract.schema.json: access_method
pub data AccessMethod : Type 0 where
  api rss cap download html : AccessMethod
  ckan arcgis manual : AccessMethod

abbrev pub access_method_code : AccessMethod → ℕ
access_method_code api = 0
access_method_code rss = 1
access_method_code cap = 2
access_method_code download = 3
access_method_code html = 4
access_method_code ckan = 5
access_method_code arcgis = 6
access_method_code manual = 7

pub access_method_inj : (a b : AccessMethod) → access_method_code a ≡ access_method_code b → a ≡ b
access_method_inj x y h = ground arith

instance abbrev pub access_method_eq : Eq AccessMethod
access_method_eq = by_code access_method_code access_method_inj

-- source_contract.schema.json: qualification.publication_use
pub data PublicationUse : Type 0 where
  raw_values_permitted derived_values_only bounded_claim_and_link_only metadata_link_only
        internal_validation_only :
      PublicationUse
  publication_prohibited : PublicationUse

abbrev pub publication_use_code : PublicationUse → ℕ
publication_use_code raw_values_permitted = 0
publication_use_code derived_values_only = 1
publication_use_code bounded_claim_and_link_only = 2
publication_use_code metadata_link_only = 3
publication_use_code internal_validation_only = 4
publication_use_code publication_prohibited = 5

pub publication_use_inj :
    (a b : PublicationUse) → publication_use_code a ≡ publication_use_code b → a ≡ b
publication_use_inj x y h = ground arith

instance abbrev pub publication_use_eq : Eq PublicationUse
publication_use_eq = by_code publication_use_code publication_use_inj

-- source_contract.schema.json: qualification.manual_intake_status
pub data ManualIntake : Type 0 where
  allowed not_allowed not_applicable : ManualIntake

abbrev pub manual_intake_code : ManualIntake → ℕ
manual_intake_code allowed = 0
manual_intake_code not_allowed = 1
manual_intake_code not_applicable = 2

pub manual_intake_inj : (a b : ManualIntake) → manual_intake_code a ≡ manual_intake_code b → a ≡ b
manual_intake_inj x y h = ground arith

instance abbrev pub manual_intake_eq : Eq ManualIntake
manual_intake_eq = by_code manual_intake_code manual_intake_inj

-- source_contract.schema.json: licence_status
pub data LicenceStatus : Type 0 where
  reviewed pending_review restricted unknown : LicenceStatus

abbrev pub licence_status_code : LicenceStatus → ℕ
licence_status_code reviewed = 0
licence_status_code pending_review = 1
licence_status_code restricted = 2
licence_status_code unknown = 3

pub licence_status_inj :
    (a b : LicenceStatus) → licence_status_code a ≡ licence_status_code b → a ≡ b
licence_status_inj x y h = ground arith

instance abbrev pub licence_status_eq : Eq LicenceStatus
licence_status_eq = by_code licence_status_code licence_status_inj
