-- ===== src/Acquisition/Governing.antt =====
-- analysis/provenance.py: which run governs another, as a relation between runs.
use logistics_situation_plat.Model.{Run, run_success, run_not_modified, Time}
use logistics_situation_plat.Evidence.{instant}
use logistics_situation_plat.Acquisition.Chain.{RunIndex}
use logistics_situation_plat.Base.{
  is_present, option_eq, string_eq, contains, lookup?, truthy, ◌≤◌, String, Bool, true, not, ◌&&◌,
  List, [], ◌∷◌, ◌++◌, Option, some, ◌≡◌,
}

-- A run's source and its interval, both instants included.
pub record IsSound (source_id : Option String) (run : Run) : Type 0 where
  pub same_source : run.source_id ≡ source_id
  pub started : Time
  pub started_at : instant run.started_at ≡ some started
  pub completed : Time
  pub completed_at : instant run.completed_at ≡ some completed
  pub in_order : started ≤ completed

-- A successful run with a manifest and its hash.
pub record IsGoverning (source_id : Option String) (run : Run) : Type 0 where
  pub sound : IsSound source_id run
  pub succeeded : run.status ≡ run_success
  pub hashed : truthy run.output_manifest_sha256 ≡ true
  pub listed : is_present run.emitted_records ≡ true

-- A `not_modified` run, and the earlier run of the index that it names.
pub record Reconfirms (index : RunIndex) (source_id : Option String) (run prior : Run)
    : Type 0 where
  pub sound : IsSound source_id run
  pub unmodified : run.status ≡ run_not_modified
  pub named : truthy run.supersedes_run_id ≡ true
  pub resolved : lookup? run.supersedes_run_id index ≡ some prior
  pub prior_completed : Time
  pub dated : instant prior.completed_at ≡ some prior_completed
  pub earlier : prior_completed ≤ sound.completed

-- A chain of reconfirmations from a run down to the run that governs it, with the ids on the way.
pub data Governs (index : RunIndex) (source_id : Option String)
    : Run → Run → List String → Type 0 where
  itself :
      {run : Run} → IsGoverning source_id run → Governs index source_id run run (run.run_id ∷ [])
  through :
      {run prior governing : Run} {chain : List String}
      → Reconfirms index source_id run prior
      → Governs index source_id prior governing chain
      → Governs index source_id run governing (run.run_id ∷ chain)

-- No id of the chain is among the earlier ones, nor comes twice.
unfoldable pub is_new : List String → List String → Bool
is_new visited [] = true
is_new visited (id ∷ chain) = not (contains visited id) && is_new (visited ++ id ∷ []) chain
