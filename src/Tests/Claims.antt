-- ===== src/Tests/Claims.antt =====
-- The checks on claims at the closure and its denial.
use logistics_situation_plat.Claims.Corroborated.{
  corroboration_independence_problems-nil_iff, IsCorroborated,
}
use logistics_situation_plat.Claims.Firewall.{l3_firewall_problems-nil_iff, IsWalledOff}
use logistics_situation_plat.Claims.Proposed.{proposed_resolved-IsSettled}
use logistics_situation_plat.Claims.Settled.{
  resolved_situation_state_problems-nil_iff, IsSettled, AreKnown,
}
use logistics_situation_plat.Grading.{eligible_claims, compute_situation_state}
use logistics_situation_plat.Tests.Data.{
  next_day, denial_claim, registry, documents, second_notice, claims, notice, closure,
  closure_event, second_claim, denied_event,
}
use logistics_situation_plat.Tests.Grading.{all_grading}
use logistics_situation_plat.Claims.{
  corroboration_loop, corroboration_of, is_independent_corroborator, origin_url,
  corroboration_independence_problems, l3_firewall_problems, resolved_situation_state_problems,
}
use logistics_situation_plat.Model.{
  reported, corroborated_independent, SituationState, Document, Claim, Event,
}
use logistics_situation_plat.Base.{
  any_of, contains, string_eq, option_eq, inr, inl, Picks, Memᴰ, Memᴰ-cases, ◌↔◌, ◌≡◌, [], some,
  ◌==◌, ◌∷◌, String, lookup, List, refl,
}

-- The event that the denial settles.
abbrev settled_event : Event
settled_event = record denied_event { situation_state = some SituationState.resolved }

-- A second claim that says it is independently corroborated.
abbrev second_source : Claim
second_source = record second_claim { corroboration_status = some corroborated_independent }

abbrev both_documents : List (String × Document)
both_documents = ("DOC-1", notice) ∷ ("DOC-3", second_notice) ∷ []

resolved_situation_state_problems-nil_iff_example :
    (resolved_situation_state_problems (settled_event ∷ []) claims ≡ []) ↔ (
      (event : Event)
      → Memᴰ event (settled_event ∷ [])
      → event.situation_state ≡ some SituationState.resolved
      → IsSettled claims event.claim_ids)
resolved_situation_state_problems-nil_iff_example =
    resolved_situation_state_problems-nil_iff (settled_event ∷ []) claims

l3_firewall_problems-nil_iff_example :
    (l3_firewall_problems (closure_event ∷ []) claims ≡ [])
    ↔ ((event : Event) → Memᴰ event (closure_event ∷ []) → IsWalledOff claims event)
l3_firewall_problems-nil_iff_example = l3_firewall_problems-nil_iff (closure_event ∷ []) claims

corroboration_independence_problems-nil_iff_example :
    (corroboration_independence_problems (closure ∷ second_source ∷ []) both_documents ≡ []) ↔ (
      (claim : Claim) (others : List Claim)
      → Picks (closure ∷ second_source ∷ []) claim others
      → IsCorroborated both_documents others claim)
corroboration_independence_problems-nil_iff_example =
    corroboration_independence_problems-nil_iff (closure ∷ second_source ∷ []) both_documents

-- Two documents of which one names the other's address as its originator, and the other names an
-- originator of its own: they count as independent.
abbrev relayed_documents : List (String × Document)
relayed_documents =
    (
      "DOC-1",
      record notice {
        canonical_url = some "https://port.example/notice";
        originator_document_url = some "https://port.example/first";
      },
    )
    ∷ (
      "DOC-3",
      record second_notice {
        canonical_url = some "https://customs.example/notice";
        originator_document_url = some "https://port.example/notice";
      },
    )
    ∷ []

relayed_pair_accepted :
    corroboration_independence_problems (closure ∷ second_source ∷ []) relayed_documents ≡ []
unfolding corroboration_independence_problems corroboration_loop corroboration_of
    is_independent_corroborator origin_url any_of contains lookup ◌==◌
relayed_pair_accepted = refl

denied_known : AreKnown claims denied_event.claim_ids
unfolding lookup ◌==◌
denied_known id m = elim (Memᴰ-cases m) [ inl e ↦ rw e (denial_claim, refl) | inr n ↦ elim n [ ] ]

denied_is_resolved :
    (compute_situation_state denied_event
      (eligible_claims denied_event claims documents registry)
      documents
      registry
      (some reported)
      next_day).0
    ≡ some SituationState.resolved
unfolding all_grading
denied_is_resolved = refl

proposed_resolved-IsSettled_example :
    resolved_situation_state_problems (denied_event ∷ []) claims ≡ []
proposed_resolved-IsSettled_example =
    proposed_resolved-IsSettled denied_event claims documents registry (some reported) next_day
      denied_is_resolved denied_known
