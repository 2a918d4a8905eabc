-- ===== src/Evidence/Sources.antt =====
-- analysis/claim_evidence_adapter.py: _source_entry, _is_discovery_source, _evidence_role, _relation.
use logistics_situation_plat.Base.{
  String, Option, none, some, Bool, false, not, ◌||◌, List, [], ◌∷◌, if◌then◌else◌, ◌==◌, string_eq,
  option_eq, contains, meets, truthy, non_empty,
}
use logistics_situation_plat.Model.{
  Claim, Source, Registry, Attribution, empty_source, current_evidence, evidence_layer_eq,
  denial_or_correction, claim_type_eq, ContradictionStatus, contradiction_status_eq, unresolved,
  resolved_by_primary_source, confidence_reduced,
}

-- `_source_entry`: the first source with that id, and `{}` on a miss.
unfoldable pub source_entry : Registry → Option String → Source
source_entry [] source_id = empty_source
source_entry (source ∷ rest) source_id =
    if some source.id == source_id then source else source_entry rest source_id

abbrev pub discovery_markers : List String
discovery_markers = "news_discovery" ∷ []

unfoldable pub is_discovery_source : Source → Bool
is_discovery_source source =
    meets source.purposes discovery_markers || meets source.logistics_role discovery_markers

pub data EvidenceRole : Type 0 where
  confirming contextual discovery_only : EvidenceRole

-- `bool(attributed_to) and attributed_to.get("is_named") is False`, and the same with `is True`.
abbrev pub named_is : Bool → Option Attribution → Bool
named_is b none = false
named_is b (some who) = elim who.is_named [
  | none ↦ false
  | some flag ↦ if b then flag else not flag
]

unfoldable pub evidence_role : Claim → Source → EvidenceRole
unfolding is_discovery_source
evidence_role claim source =
    if is_discovery_source source
    then discovery_only
    else (if not (claim.evidence_layer == some current_evidence)
          || named_is false claim.attributed_to
        then contextual
        else confirming)

pub data Relation : Type 0 where
  supersedes contradicts contextual supports : Relation

abbrev pub contradicting_statuses : List ContradictionStatus
contradicting_statuses = unresolved ∷ resolved_by_primary_source ∷ confidence_reduced ∷ []

-- `value in {…}` where the value may be null
abbrev pub status_in : Option ContradictionStatus → List ContradictionStatus → Bool
status_in none statuses = false
status_in (some status) statuses = contains statuses status

unfoldable pub relation : Claim → Relation
relation claim =
    if non_empty claim.supersedes || truthy claim.superseded_by
    then supersedes
    else (if claim.claim_type == some denial_or_correction
          || status_in claim.contradiction_status contradicting_statuses
        then contradicts
        else (if not (claim.evidence_layer == some current_evidence)
            then Relation.contextual
            else supports))
