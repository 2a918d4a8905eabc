-- ===== src/Model/Manifests.antt =====
-- Collection Run manifests and manual review events (schemas/collection_run.schema.json), under the
-- reading rules of `Records`.
use logistics_situation_plat.Model.Records.{Stamp}
use logistics_situation_plat.Base.{ℕ, String, Bool, List, Option, ◌≡◌, Eq, by_code, arith}

pub data RunStatus : Type 0 where
  run_success run_not_modified run_disabled run_error run_dry : RunStatus

abbrev pub run_status_code : RunStatus → ℕ
run_status_code run_success = 0
run_status_code run_not_modified = 1
run_status_code run_disabled = 2
run_status_code run_error = 3
run_status_code run_dry = 4

pub run_status_inj : (a b : RunStatus) → run_status_code a ≡ run_status_code b → a ≡ b
run_status_inj a b h = ground arith

instance abbrev pub run_status_eq : Eq RunStatus
run_status_eq = by_code run_status_code run_status_inj

-- An entry of `emitted_records`.
pub record ManifestEntry : Type 0 where
  pub record_id : String
  pub source_record_id : Option String
  pub content_sha256 : Option String

pub record Run : Type 0 where
  pub run_id : String
  pub source_id : Option String
  pub status : RunStatus
  pub started_at : Option Stamp
  pub completed_at : Option Stamp
  pub adapter_version : Option String
  pub records_emitted : Option ℕ
  pub emitted_records : Option (List ManifestEntry)
  pub output_manifest_sha256 : Option String
  pub supersedes_run_id : Option String
  pub errors : List String

-- A manual review event; of its status only "reviewed" is read.
pub record ReviewEvent : Type 0 where
  pub event_id : Option String
  pub source_id : Option String
  pub is_reviewed : Bool
  pub reviewed_at : Option Stamp
  pub record_count : Option ℕ
  pub related_record_ids : List String
  pub bounded_content_confirmed : Bool
