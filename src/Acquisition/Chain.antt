-- ===== src/Acquisition/Chain.antt =====
-- analysis/provenance.py: resolve_governing_run. The loop runs on fuel, and `none` is a loop that has
-- not ended; `Termination` is about the fuel given.
use logistics_situation_plat.Model.{
  Run, RunStatus, run_success, run_not_modified, run_disabled, run_error, run_dry, Time,
}
use logistics_situation_plat.Evidence.{instant}
use logistics_situation_plat.Base.{
  not, ltb, is_present, if◌then◌else◌, string_eq, option_eq, Result, ok, raise, require, given,
  ◌>>=◌, ◌>>◌, contains, length, leb, lookup?, truthy, ℕ, zero, suc, String, Bool, false, ◌&&◌,
  List, [], ◌∷◌, ◌++◌, Option, none, some, ◌==◌,
}

-- `runs_by_id`
abbrev pub RunIndex : Type 0
RunIndex = List (String × Run)

-- Why a chain resolves to no governing run.
pub data ChainFault : Type 0 where
  cycle crosses_sources unsound_interval unhashed_success unsuccessful : ChainFault
  names_no_prior unresolved_prior undated_prior not_chronological : ChainFault

-- Both instants are there, and the first is not later than the second.
abbrev pub are_ordered : Option Time → Option Time → Bool
are_ordered (some early) (some late) = leb early late
are_ordered _ _ = false

-- Both instants are there, and the first is later than the second.
abbrev pub is_later : Option Time → Option Time → Bool
is_later (some late) (some early) = ltb early late
is_later _ _ = false

unfoldable pub has_sound_interval : Run → Bool
has_sound_interval run = are_ordered (instant run.started_at) (instant run.completed_at)

-- The run that a `not_modified` run reconfirms.
unfoldable pub prior_of : RunIndex → Run → Result ChainFault (Option Run)
prior_of index current = do
  require (truthy current.supersedes_run_id) names_no_prior
  prior ← given (lookup? current.supersedes_run_id index) unresolved_prior
  require (is_present (instant prior.completed_at)) undated_prior
  require (not (is_later (instant prior.completed_at) (instant current.completed_at)))
      not_chronological
  ok (some prior)

-- What the status of a run leads to: `none` is the governing run itself.
unfoldable pub by_status : RunStatus → RunIndex → Run → Result ChainFault (Option Run)
by_status run_success index current = do
  require (truthy current.output_manifest_sha256 && is_present current.emitted_records)
      unhashed_success
  ok none
by_status run_not_modified index current = prior_of index current
by_status run_disabled index current = raise unsuccessful
by_status run_error index current = raise unsuccessful
by_status run_dry index current = raise unsuccessful

-- One round of the loop after its test for a cycle.
unfoldable pub hop : RunIndex → Option String → Run → Result ChainFault (Option Run)
hop index source_id current = do
  require (current.source_id == source_id) crosses_sources
  require (has_sound_interval current) unsound_interval
  by_status current.status index current

-- The result but for the confirming run, which is the argument; at most one problem is recorded.
pub record Resolution : Type 0 where
  pub governing : Option Run
  pub chain : List String
  pub problem : Option ChainFault

abbrev pub found : Run → List String → Resolution
found run chain = record { governing = some run; chain = chain; problem = none }

abbrev pub faulted : ChainFault → List String → Resolution
faulted fault chain = record { governing = none; chain = chain; problem = some fault }

-- The end of a round: return with a problem, return the governing run, or go on with the prior run.
abbrev pub after_hop :
    (Run → Option Resolution)
    → Run
    → List String
    → Result ChainFault (Option Run)
    → Option Resolution
after_hop again current chain (raise fault) = some (faulted fault chain)
after_hop again current chain (ok none) = some (found current chain)
after_hop again current chain (ok (some prior)) = again prior

-- The loop: `visited` holds the ids of the earlier rounds, in their order.
unfoldable pub resolve_within : ℕ → RunIndex → Option String → List String → Run → Option Resolution
resolve_within zero index source_id visited current = none
resolve_within (suc fuel) index source_id visited current =
    if contains visited current.run_id
    then some (faulted cycle (visited ++ current.run_id ∷ []))
    else after_hop (resolve_within fuel index source_id (visited ++ current.run_id ∷ [])) current
        (visited ++ current.run_id ∷ []) (hop index source_id current)

-- Two rounds more than there are runs are enough.
unfoldable pub resolve_governing_run : Run → RunIndex → Option Resolution
resolve_governing_run run index =
    resolve_within (suc (suc (length index))) index run.source_id [] run
