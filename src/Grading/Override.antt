-- ===== src/Grading/Override.antt =====
-- analysis/grading.py: grade_override_problems.
use logistics_situation_plat.Grading.Grade.{grade_rank}
use logistics_situation_plat.Model.{Event, Grade}
use logistics_situation_plat.Base.{
  collect, leb, String, Option, none, some, List, if◌then◌else◌, string_eq, option_eq, nat_eq,
}

-- The one message: the override's target and the computed grade.
pub record OverrideProblem : Type 0 where
  pub event_id : String
  pub target : Option Grade
  pub computed : Option Grade

-- One round of the loop over the events; every value of the schema's enum has a rank.
unfoldable pub override_problem : Event → Option OverrideProblem
override_problem event = elim event.grade_override [
  | none ↦ none
  | some override ↦
      if leb (grade_rank event.evidence_grade) (grade_rank override.to)
      then some (record {
        event_id = event.event_id;
        target = override.to;
        computed = event.evidence_grade;
      })
      else none
]

unfoldable pub grade_override_problems : List Event → List OverrideProblem
grade_override_problems events = collect override_problem events
