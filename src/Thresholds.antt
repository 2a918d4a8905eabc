-- ===== src/Thresholds.antt =====
-- analysis/thresholds.py, combine_directions: several directions rolled into one. The numeric rules of
-- the same file compare floats and are not modelled.
use logistics_situation_plat.Base.{
  any_of, contains, keep, is_empty, not, ℕ, Bool, List, ◌&&◌, ◌≡◌, arith, Eq, by_code, ◌==◌,
  if◌then◌else◌,
}
pub mod Rollup

-- `Direction`
pub data Trend : Type 0 where
  improving level deteriorating mixed insufficient : Trend

abbrev pub trend_code : Trend → ℕ
trend_code improving = 0
trend_code level = 1
trend_code deteriorating = 2
trend_code mixed = 3
trend_code insufficient = 4

pub trend_inj : (a b : Trend) → trend_code a ≡ trend_code b → a ≡ b
trend_inj a b h = ground arith

instance abbrev pub trend_eq : Eq Trend
trend_eq = by_code trend_code trend_inj

-- `level` is the code's "stable".
unfoldable pub combine_directions : List Trend → Trend
combine_directions directions =
    let known = keep (λ trend. not (trend == insufficient)) directions in
    if is_empty known
    then insufficient
    else (if contains known mixed
        then mixed
        else (if contains known improving && contains known deteriorating
            then mixed
            else (if contains known deteriorating
                then deteriorating
                else (if contains known improving then improving else level))))
