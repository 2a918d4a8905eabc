-- ===== src/Acquisition/Order.antt =====
-- analysis/provenance.py: the governing run of resolve_governing_run against the run it governs.
use logistics_situation_plat.Acquisition.Refinement.{resolve_governing_run-Governs_iff}
use logistics_situation_plat.Evidence.{instant}
use logistics_situation_plat.Acquisition.Governing.{IsGoverning, IsSound, Governs}
use logistics_situation_plat.Acquisition.Hops.{same_end}
use logistics_situation_plat.Model.{Time, Run}
use logistics_situation_plat.Acquisition.Chain.{found, resolve_governing_run, RunIndex}
use logistics_situation_plat.Base.{
  ◌≤◌, String, ◌≡◌, Option, some, List, arith, string_eq, option_eq, nat_eq,
}

le_trans : {a b c : Time} → a ≤ b → b ≤ c → a ≤ c
le_trans h h' = omega arith

module _ {index : RunIndex} {source_id : Option String} where
  start-IsSound :
      {run governing : Run} {chain : List String}
      → Governs index source_id run governing chain
      → IsSound source_id run
  start-IsSound (Governs.itself g) = g.sound
  start-IsSound (Governs.through r g) = r.sound

  chain_dates :
      {run governing : Run} {chain : List String}
      → Governs index source_id run governing chain
      → (end : Time) → instant run.completed_at ≡ some end
      → (g : IsGoverning source_id governing) × (g.sound.completed ≤ end)
  chain_dates (Governs.itself {run} g) end h =
      (g, same_end (instant run.completed_at) g.sound.completed_at h (omega arith))
  chain_dates (Governs.through {run} r g) end h =
      let (governing, le) = chain_dates g r.prior_completed r.dated in
      (
        governing,
        le_trans le (same_end (instant run.completed_at) r.sound.completed_at h r.earlier),
      )

-- A run that resolves has itself a sound interval and its source; the governing run has the same
-- source and a sound interval too, succeeded with a manifest and its hash, and was completed no later
-- than the run that it governs.
pub resolve_governing_run-IsGoverning :
    (run governing : Run) (index : RunIndex) (chain : List String)
    → resolve_governing_run run index ≡ some (found governing chain)
    → (sound : IsSound run.source_id run) × (g : IsGoverning run.source_id governing)
      × (g.sound.completed ≤ sound.completed)
resolve_governing_run-IsGoverning run governing index chain h =
    let (governs, new) = (resolve_governing_run-Governs_iff run index governing chain).0 h in
    let sound = start-IsSound governs in
    let (g, le) = chain_dates governs sound.completed sound.completed_at in (sound, g, le)
