-- ===== src/Situations/Status.antt =====
-- What stands behind the status of a situation.
use logistics_situation_plat.Situations.Admission.{mem_eligible_entries, eligible_entries_mem}
use logistics_situation_plat.Grading.{has_capping_contradiction}
use logistics_situation_plat.Situations.Confidence.{confirmed_disruption}
use logistics_situation_plat.Situations.Situation.{
  rule4_part, grade_of, eligible_entries, compute_mode_situation, situation_status,
}
use logistics_situation_plat.Situations.Gate.{gate0, Inputs}
use logistics_situation_plat.Model.{
  freshness_state_eq, impact_status_eq, grade_eq, observed, fresh, confirmed, Event, Impact, Area,
  Severity, no_severity,
}
use logistics_situation_plat.Situations.Rules.{
  was_observed, Hit, Entry, rule1_hit, observed_impact, worst_from, worst_impact_status_severity,
  material_part, material_area, is_material, is_some,
}
use logistics_situation_plat.Base.{
  collect_mem, option_eq, any_of_mem, any_of-found, ==_iff, false, mem_collect, collect, ◌↔◌, ok,
  Memᴰ, non_empty, true, Option, sym, ap, ◌∙◌, non_empty-mem, mem-non_empty, and_true, any_of, Bool,
  ◌&&◌, ◌||◌, List, [], ◌∷◌, none, some, ◌≡◌, refl, arith,
}

-- An impact with a status and a material severity.
abbrev is_material_with : (Impact → Bool) → Impact → Bool
is_material_with has_status impact = has_status impact && is_material impact.severity

worst_from-some :
    (has_status : Impact → Bool) (area : Area) (level : Severity) (impacts : List Impact)
    → is_some (material_part (worst_from has_status (some area, level) impacts))
      ≡ (is_material level || any_of (is_material_with has_status) impacts)
unfolding worst_from any_of
worst_from-some has_status area level [] = ground arith
worst_from-some has_status area level (impact ∷ rest) = ground (
  arith,
  worst_from-some has_status area level rest,
  worst_from-some has_status impact.area impact.severity rest,
)

worst_from-none :
    (has_status : Impact → Bool) (impacts : List Impact)
    → is_some (material_part (worst_from has_status (none, no_severity) impacts))
      ≡ any_of (is_material_with has_status) impacts
unfolding worst_from any_of
worst_from-none has_status [] = refl
worst_from-none has_status (impact ∷ rest) = ground (
  arith,
  worst_from-none has_status rest,
  worst_from-some has_status impact.area impact.severity rest,
)

-- The highest severity of a status is material exactly when some impact of that status is.
pub material_area-found :
    (has_status : Impact → Bool) (event : Event)
    → is_some (material_area has_status event)
      ≡ any_of (is_material_with has_status) event.impact_assessments
unfolding material_area worst_impact_status_severity
material_area-found has_status event = worst_from-none has_status event.impact_assessments

-- The eligible event and the impact behind a confirmed disruption.
pub record IsDisruption (inputs : Inputs) (event : Event) (impact : Impact) : Type 0 where
  pub passes : gate0 inputs event ≡ ok fresh
  pub graded : grade_of inputs event ≡ some confirmed
  pub undisputed : has_capping_contradiction event ≡ false
  pub assessed : Memᴰ impact event.impact_assessments
  pub occurred : impact.status ≡ some observed
  pub severe : is_material impact.severity ≡ true

rule1_hit-found :
    (entry : Entry) (hit : Hit)
    → rule1_hit entry ≡ some hit
    → (entry.grade ≡ some confirmed)
      × (entry.freshness ≡ fresh)
      × (has_capping_contradiction entry.event ≡ false)
      × (any_of (is_material_with was_observed) entry.event.impact_assessments ≡ true)
unfolding rule1_hit
rule1_hit-found entry hit h = ground (
  arith,
  ==_iff entry.grade (some confirmed),
  ==_iff entry.freshness fresh,
  material_area-found was_observed entry.event,
)

some_of : {A : Type 0} (o : Option A) → is_some o ≡ true → (a : A) × (o ≡ some a)
some_of (some a) h = (a, refl)
some_of none h = ground arith

rule1_hit-fires :
    (entry : Entry)
    → entry.grade ≡ some confirmed
    → entry.freshness ≡ fresh
    → has_capping_contradiction entry.event ≡ false
    → any_of (is_material_with was_observed) entry.event.impact_assessments ≡ true
    → (hit : Hit) × (rule1_hit entry ≡ some hit)
unfolding rule1_hit
rule1_hit-fires entry graded clock undisputed severe =
    let graded' = (==_iff entry.grade (some confirmed)).1 graded in
    let clock' = (==_iff entry.freshness fresh).1 clock in
    let (part, e) =
      some_of (material_area was_observed entry.event)
        (material_area-found was_observed entry.event ∙ severe) in
    (
      (entry.event, observed_impact part.0 part.1),
      rw graded' (rw clock' (rw undisputed (rw e refl))),
    )

rule1_status :
    (inputs : Inputs) (eligible : List Entry)
    → ((situation_status inputs eligible).0 ≡ confirmed_disruption)
      ↔ (non_empty (collect rule1_hit eligible) ≡ true)
unfolding situation_status rule4_part
rule1_status inputs eligible = (λ h. ground arith, λ h. ground arith)

disrupted :
    (inputs : Inputs) (events : List Event)
    → non_empty (collect rule1_hit (eligible_entries inputs events)) ≡ true
    → (event : Event) × (impact : Impact) × Memᴰ event events × IsDisruption inputs event impact
disrupted inputs events h =
    let (hit, m) = non_empty-mem (collect rule1_hit (eligible_entries inputs events)) h in
    let (entry, k, e) = mem_collect rule1_hit (eligible_entries inputs events) m in
    let (listed, graded, passed) = eligible_entries_mem inputs events entry k in
    let (confirmed_grade, clock, undisputed, severe) = rule1_hit-found entry hit e in
    let (impact, assessed, both) =
      any_of-found (is_material_with was_observed) entry.event.impact_assessments severe in
    let (occurred, material) =
      (and_true (was_observed impact) (is_material impact.severity)).0 both in
    (
      entry.event,
      impact,
      listed,
      record {
        passes = passed ∙ ap ok clock;
        graded = sym graded ∙ confirmed_grade;
        undisputed = undisputed;
        assessed = assessed;
        occurred = (==_iff impact.status (some observed)).0 occurred;
        severe = material;
      },
    )

disrupts :
    (inputs : Inputs) (events : List Event) (event : Event) (impact : Impact)
    → Memᴰ event events
    → IsDisruption inputs event impact
    → non_empty (collect rule1_hit (eligible_entries inputs events)) ≡ true
disrupts inputs events event impact listed d =
    let entry : Entry = record {
      event = event;
      grade = grade_of inputs event;
      freshness = fresh;
    } in
    let occurred = (==_iff impact.status (some observed)).1 d.occurred in
    let severe =
      any_of_mem (is_material_with was_observed) event.impact_assessments d.assessed
        ((and_true (was_observed impact) (is_material impact.severity)).1 (occurred, d.severe)) in
    let (hit, e) = rule1_hit-fires entry d.graded refl d.undisputed severe in
    mem-non_empty (
      collect_mem rule1_hit (eligible_entries inputs events) entry
        (mem_eligible_entries inputs events event fresh listed d.passes) e)

-- A situation is a confirmed disruption exactly when some event passes Gate 0 while fresh, has the
-- computed grade CONFIRMED and no unresolved existence or status-change contradiction, and assesses
-- an observed impact of at least moderate severity.
pub compute_mode_situation-IsDisruption_iff :
    (inputs : Inputs) (events : List Event)
    → ((compute_mode_situation inputs events).status ≡ confirmed_disruption)
      ↔ ((event : Event) × (impact : Impact) × Memᴰ event events × IsDisruption inputs event impact)
unfolding compute_mode_situation
compute_mode_situation-IsDisruption_iff inputs events = (
  λ h. disrupted inputs events ((rule1_status inputs (eligible_entries inputs events)).0 h),
  λ (event, impact, listed, d).
      (rule1_status inputs (eligible_entries inputs events)).1
        (disrupts inputs events event impact listed d),
)
