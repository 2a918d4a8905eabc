-- ===== src/Evidence/Authority.antt =====
-- analysis/claim_evidence_adapter.py: authority_covers.
use logistics_situation_plat.Base.{
  Option, none, some, Bool, true, false, ◌&&◌, List, if◌then◌else◌, string_eq, contains, meets,
  is_empty,
}
use logistics_situation_plat.Model.{
  Claim, Document, AuthorityScope, PredicateClass, predicate_class_eq,
}

-- `predicate_class is not None and predicate_class in classes`
abbrev pub class_in : Option PredicateClass → List PredicateClass → Bool
class_in none classes = false
class_in (some predicate) classes = contains classes predicate

-- The three overlap tests, in the code's order.
unfoldable pub scope_meets : Claim → AuthorityScope → Bool
scope_meets claim scope =
    if meets claim.node_ids scope.node_ids
    then true
    else (if meets claim.chokepoint_ids scope.chokepoint_ids
        then true
        else is_empty claim.node_ids
          && is_empty claim.chokepoint_ids
          && meets claim.country_ids scope.country_ids)

unfoldable pub authority_covers : Claim → Document → Bool
authority_covers claim document = elim document.publisher_authority [
  | none ↦ false
  | some scope ↦
      if class_in claim.predicate_class scope.predicate_classes
      then scope_meets claim scope
      else false
]
