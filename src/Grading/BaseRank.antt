-- ===== src/Grading/BaseRank.antt =====
-- The rank of the base grade, by the three rules that it tries in turn.
use logistics_situation_plat.Grading.Grade.{
  corroborates, confirms, reporting_claims, grade_rank, base_grade, reports,
}
use logistics_situation_plat.Model.{Claim, Time, Registry}
use logistics_situation_plat.Grading.Qualified.{Documents}
use logistics_situation_plat.Base.{
  non_empty-keep, any_of, non_empty, ℕ, ◌≡◌, Bool, not, ◌&&◌, some, List, arith, if◌then◌else◌,
  string_eq, option_eq, nat_eq,
}

module _ (documents : Documents) (registry : Registry) where
  -- The tests of the base grade, as one test for each rule.
  abbrev pub base_rank : (confirming corroborating reporting capping : Bool) → ℕ
  base_rank confirming corroborating reporting capping =
      if confirming
      then 4
      else (if corroborating && not capping then 3 else (if reporting then 2 else 1))

  reports_needs_claim :
      (now : Time) (claims : List Claim)
      → reports documents registry now claims ≡ (
          non_empty (reporting_claims documents registry now claims)
          && reports documents registry now claims)
  unfolding reports
  reports_needs_claim now claims = ground arith

  pub base_grade-rank :
      (now : Time) (capping : Bool) (claims : List Claim)
      → grade_rank (some (base_grade documents registry now capping claims).0)
        ≡ base_rank
            (any_of (λ claim. confirms documents registry now claim && not capping) claims)
            (corroborates documents registry now claims)
            (reports documents registry now claims)
            capping
  unfolding base_grade
  base_grade-rank now capping claims = ground (
    arith,
    reports_needs_claim now claims,
    non_empty-keep (λ claim. confirms documents registry now claim && not capping) claims,
  )
