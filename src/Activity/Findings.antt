-- ===== src/Activity/Findings.antt =====
-- What stands behind a complete chain and behind an event-driven direction.
use logistics_situation_plat.Activity.Chain.{
  admission_of, evaluate_transmission_chain, external_driver_admission,
}
use logistics_situation_plat.Model.{event_class_eq, Chain, Event, EventClass}
use logistics_situation_plat.Base.{
  option_eq, ==_iff, ◌⊎◌, string_eq, keep, true, ◌≡◌, ◌≢◌, ◌↔◌, some, arith,
}

-- All five links of a chain are stated.
abbrev pub IsStated : Chain → Type 0
IsStated chain =
    (chain.external_driver ≡ true)
    × (chain.operational_change ≡ true)
    × (chain.logistics_mechanism ≡ true)
    × (chain.observable_indicator ≡ true)
    × (chain.outcome ≡ true)

driver_chain :
    (chain : Chain)
    → ((admission_of (evaluate_transmission_chain EventClass.external_driver chain)).0 ≡ true)
      ↔ IsStated chain
unfolding evaluate_transmission_chain keep
driver_chain chain = (λ h. ground arith, λ p. ground arith)

-- An event may carry an impact conclusion exactly when it is no external driver, or all five links
-- of its transmission chain are stated.
pub external_driver_admission_iff :
    (event : Event)
    → ((external_driver_admission event).0 ≡ true)
      ↔ ((event.event_class ≢ some EventClass.external_driver) ⊎ IsStated event.transmission_chain)
unfolding external_driver_admission
external_driver_admission_iff event = (
  λ h. ground (
    arith,
    ==_iff event.event_class (some EventClass.external_driver),
    driver_chain event.transmission_chain,
  ),
  λ p. ground (
    arith,
    ==_iff event.event_class (some EventClass.external_driver),
    driver_chain event.transmission_chain,
  ),
)
