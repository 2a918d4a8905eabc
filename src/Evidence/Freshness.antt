-- ===== src/Evidence/Freshness.antt =====
-- analysis/claim_evidence_adapter.py: _reference_instant and freshness_state.
use logistics_situation_plat.Base.{
  ℕ, ◌-◌, ◌*◌, Option, none, some, List, [], ◌∷◌, if◌then◌else◌, leb, eqb, ◌==◌, string_eq,
}
use logistics_situation_plat.Model.{
  Time, Stamp, minute, Document, Registry, FreshnessState, fresh, ageing, stale, expired, unknown,
}
use logistics_situation_plat.Evidence.Sources.{source_entry}

-- A date-time field: `if not value` and `datetime.fromisoformat`, a ValueError read as no instant.
unfoldable pub instant : Option Stamp → Option Time
instant none = none
instant (some stamp) = if stamp.text == "" then none else stamp.parsed

-- The loop over the fields: the first that is set and parses.
unfoldable pub first_instant : List (Option Stamp) → Option Time
first_instant [] = none
first_instant (value ∷ rest) = elim (instant value) [
  | none ↦ first_instant rest
  | some time ↦ some time
]

unfoldable pub reference_instant : Document → Option Time
unfolding first_instant
reference_instant document =
    first_instant (document.published_at ∷ document.retrieved_at ∷ document.updated_at ∷ [])

-- The tests on `age_minutes` against `window_minutes`, in microseconds.
unfoldable pub state_of_age : ℕ → Time → FreshnessState
state_of_age window age =
    if leb age (window * minute)
    then fresh
    else (if leb age (2 * window * minute)
        then ageing
        else (if leb age (4 * window * minute) then stale else expired))

-- The decision from the source's window and the document's instant: no window (absent or 0) and no
-- instant are unknown. Truncated subtraction is the code's clamp of a negative age to 0.
unfoldable pub state_at : Option ℕ → Option Time → Time → FreshnessState
unfolding state_of_age
state_at none reference now = unknown
state_at (some window) none now = unknown
state_at (some window) (some reference) now =
    if eqb window 0 then unknown else state_of_age window (now - reference)

unfoldable pub freshness_state : Document → Registry → Time → FreshnessState
unfolding state_at
freshness_state document registry now =
    state_at (source_entry registry document.source_id).max_stale_minutes
      (reference_instant document) now
