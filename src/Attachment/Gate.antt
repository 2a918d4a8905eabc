-- ===== src/Attachment/Gate.antt =====
-- analysis/attachment.py: the gate S2-S4 and the tie-breaks S5 and S6; collectors/event_identity.py:
-- _normalize_token.
use logistics_situation_plat.Grading.{Claims}
use logistics_situation_plat.Evidence.{instant}
use logistics_situation_plat.Model.{
  berth_or_facility_availability, transit_or_passage, service_schedule, capacity_or_equipment,
  customs_or_clearance, tariff_or_fee, sanction_or_regulation, hazard_or_security, labour_action,
  structural_finding, day, hour, date_precision_eq, Event, DateStamp, Claim, Time, PredicateClass,
  predicate_class_eq, month,
}
use logistics_situation_plat.Base.{
  collect, is_present, most_common, lookup, truthy, meets, or_else, ◌-◌, ◌+◌, ◌*◌, by_code, arith,
  leb, Eq, ◌≡◌, ℕ, String, string_eq, option_eq, Option, none, some, if◌then◌else◌, ◌==◌, ◌&&◌,
  ◌||◌, Bool, false,
}

-- Python's text functions, which are not of this repository: `str.strip`, `str.lower` and the
-- substitution of `" "` for each run of white space.
pub record TextFunctions : Type 0 where
  pub strip : String → String
  pub lower : String → String
  pub single_spaces : String → String

unfoldable pub normalize_token : TextFunctions → String → String
normalize_token text value = text.single_spaces (text.lower (text.strip value))

pub data PredicateFamily : Type 0 where
  operational regulatory commercial hazard : PredicateFamily

abbrev pub predicate_family_code : PredicateFamily → ℕ
predicate_family_code operational = 0
predicate_family_code regulatory = 1
predicate_family_code commercial = 2
predicate_family_code hazard = 3

pub predicate_family_inj :
    (a b : PredicateFamily) → predicate_family_code a ≡ predicate_family_code b → a ≡ b
predicate_family_inj a b h = ground arith

instance abbrev pub predicate_family_eq : Eq PredicateFamily
predicate_family_eq = by_code predicate_family_code predicate_family_inj

-- `PREDICATE_CLASS_FAMILY.get(predicate_class or "")`
unfoldable pub predicate_class_family : Option PredicateClass → Option PredicateFamily
predicate_class_family none = none
predicate_class_family (some berth_or_facility_availability) = some operational
predicate_class_family (some transit_or_passage) = some operational
predicate_class_family (some service_schedule) = some operational
predicate_class_family (some capacity_or_equipment) = some operational
predicate_class_family (some customs_or_clearance) = some regulatory
predicate_class_family (some tariff_or_fee) = some commercial
predicate_class_family (some sanction_or_regulation) = some regulatory
predicate_class_family (some hazard_or_security) = some hazard
predicate_class_family (some labour_action) = some operational
predicate_class_family (some structural_finding) = none

-- `_WINDOW_SLACK` and `_MONTH_PRECISION_SLACK`
abbrev pub window_slack : Time
window_slack = 48 * hour

abbrev pub month_precision_slack : Time
month_precision_slack = 7 * day

abbrev pub slack_of : Claim → Time
slack_of claim =
    if claim.event_date_precision == some month then month_precision_slack else window_slack

-- `value or start`
abbrev pub or_start : Option Time → Option Time → Option Time
or_start none start = start
or_start (some end) start = some end

abbrev pub later_by : Time → Option Time → Option Time
later_by slack none = none
later_by slack (some at) = some (at + slack)

-- It stops at the origin of the time line, where the code raises OverflowError.
abbrev pub earlier_by : Time → Option Time → Option Time
earlier_by slack none = none
earlier_by slack (some at) = some (at - slack)

abbrev pub Window : Type 0
Window = Option Time × Option Time

unfoldable pub claim_window : Claim → Window
claim_window claim = (
  earlier_by (slack_of claim) (instant claim.event_start_at),
  later_by (slack_of claim) (or_start (instant claim.event_end_at) (instant claim.event_start_at)),
)

-- `_as_datetime` of a date text
abbrev pub date_instant : Option DateStamp → Option Time
date_instant none = none
date_instant (some date) = if date.text == "" then none else date.instant_of

unfoldable pub event_window : Event → Window
event_window event = (
  instant event.event_date,
  or_start (date_instant event.event_end_date) (instant event.event_date),
)

unfoldable pub windows_overlap : Window → Window → Bool
windows_overlap (none, left_end) right = false
windows_overlap (some left_start, left_end) (none, right_end) = false
windows_overlap (some left_start, left_end) (some right_start, right_end) =
    leb left_start (or_else right_end right_start) && leb right_start (or_else left_end left_start)

-- The predicate class of a claim id that resolves to a claim with one.
unfoldable pub class_of_id : Claims → String → Option PredicateClass
class_of_id claims_by_id claim_id = elim (lookup claim_id claims_by_id) [
  | none ↦ none
  | some claim ↦ claim.predicate_class
]

unfoldable pub modal_predicate_class : Event → Claims → Option PredicateClass
modal_predicate_class event claims_by_id =
    most_common (collect (class_of_id claims_by_id) event.claim_ids)

abbrev pub shares_geography : Claim → Event → Bool
shares_geography claim event =
    meets claim.node_ids event.node_ids || meets claim.chokepoint_ids event.chokepoint_ids

-- `claim_family is not None and claim_family == event_family`
abbrev pub same_family : Option PredicateFamily → Option PredicateFamily → Bool
same_family none other = false
same_family (some family) other = some family == other

unfoldable pub gate_matches : Claim → Event → Claims → Bool
gate_matches claim event claims_by_id =
    shares_geography claim event
    && same_family (predicate_class_family claim.predicate_class)
        (predicate_class_family (modal_predicate_class event claims_by_id))
    && windows_overlap (claim_window claim) (event_window event)

unfoldable pub entity_match : TextFunctions → Claim → Event → Bool
entity_match text claim event =
    truthy claim.subject_ref
    && truthy event.operator_or_entity
    && normalize_token text (or_else claim.subject_ref "")
      == normalize_token text (or_else event.operator_or_entity "")

unfoldable pub predicate_class_agreement : Claim → Event → Claims → Bool
predicate_class_agreement claim event claims_by_id =
    is_present claim.predicate_class
    && claim.predicate_class == modal_predicate_class event claims_by_id
