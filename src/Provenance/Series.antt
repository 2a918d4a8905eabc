-- ===== src/Provenance/Series.antt =====
-- analysis/provenance.py: qualified_records, record_publication_use and series_homogeneity_problems.
use logistics_situation_plat.Provenance.Records.{record_source_id, Record}
use logistics_situation_plat.Provenance.Decision.{
  find_source, qualifies_for_current_publication, IntendedUse,
}
use logistics_situation_plat.Model.{publication_use_eq, PublicationUse, Registry}
use logistics_situation_plat.Base.{
  collect, distinct, length, ltb, leb, problem_if, keep, Eq, string_eq, option_eq, Option, none,
  some, List, [], ◌++◌, if◌then◌else◌,
}

unfoldable pub qualified_records : Option Registry → Option IntendedUse → List Record → List Record
qualified_records registry intent records =
    keep (λ item. (qualifies_for_current_publication item registry intent).eligible) records

-- The disposition of the record's own source.
unfoldable pub record_publication_use : Option Registry → Record → Option PublicationUse
record_publication_use none item = none
record_publication_use (some sources) item = elim (record_source_id item) [
  | none ↦ none
  | some id ↦ elim (find_source sources id) [ none ↦ none | some source ↦ source.publication_use ]
]

-- What the records may disagree on.
pub data SeriesField : Type 0 where
  source_field publication_use_field unit_field geography_field lane_field : SeriesField

-- `_distinct`
unfoldable pub disagreement :
    {A : Type 0} ⦃e : Eq A⦄ → SeriesField → (Record → Option A) → List Record → List SeriesField
disagreement field value records =
    problem_if (ltb 1 (length (distinct (collect value records)))) field

unfoldable pub series_homogeneity_problems : Option Registry → List Record → List SeriesField
series_homogeneity_problems registry records =
    if leb (length records) 1
    then []
    else disagreement source_field record_source_id records
      ++ disagreement publication_use_field (record_publication_use registry) records
      ++ disagreement unit_field (λ item. item.unit) records
      ++ disagreement geography_field (λ item. item.country_id) records
      ++ disagreement lane_field (λ item. item.lane_id) records
