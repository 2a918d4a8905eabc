-- ===== src/Activity/Chain.antt =====
-- analysis/events.py: _REQUIRED_LINKS, evaluate_transmission_chain, external_driver_admission.
use logistics_situation_plat.Model.{
  event_class_eq, Chain, Event, EventClass, direct_operational_event,
}
use logistics_situation_plat.Base.{
  option_eq, is_empty, keep, not, Bool, true, false, List, [], ◌∷◌, some, ◌==◌, if◌then◌else◌,
}

-- `CHAIN_LINKS`
pub data Link : Type 0 where
  external_driver operational_change logistics_mechanism observable_indicator outcome : Link

-- `_REQUIRED_LINKS[event_class]`
abbrev pub required_links : EventClass → List Link
required_links EventClass.external_driver =
    Link.external_driver ∷ operational_change ∷ logistics_mechanism ∷ observable_indicator ∷ outcome
    ∷ []
required_links direct_operational_event =
    operational_change ∷ logistics_mechanism ∷ observable_indicator ∷ outcome ∷ []
required_links EventClass.discovery_lead = []

-- `chain.get(link)`, read for its truth.
abbrev pub has_link : Chain → Link → Bool
has_link chain Link.external_driver = chain.external_driver
has_link chain operational_change = chain.operational_change
has_link chain logistics_mechanism = chain.logistics_mechanism
has_link chain observable_indicator = chain.observable_indicator
has_link chain outcome = chain.outcome

pub data Completeness : Type 0 where
  not_applicable complete incomplete : Completeness

-- The completeness and the missing links, in the order of the chain.
unfoldable pub evaluate_transmission_chain : EventClass → Chain → Completeness × List Link
evaluate_transmission_chain event_class chain =
    let required = required_links event_class in
    let missing = keep (λ link. not (has_link chain link)) required in
    if is_empty required
    then (not_applicable, [])
    else (if is_empty missing then complete else incomplete, missing)

-- The answer of the admission rule, with the missing links where it refuses.
abbrev pub admission_of : Completeness × List Link → Bool × List Link
admission_of (complete, missing) = (true, [])
admission_of (_, missing) = (false, missing)

unfoldable pub external_driver_admission : Event → Bool × List Link
external_driver_admission event =
    if not (event.event_class == some EventClass.external_driver)
    then (true, [])
    else admission_of
        (evaluate_transmission_chain EventClass.external_driver event.transmission_chain)
