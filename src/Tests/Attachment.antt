-- ===== src/Tests/Attachment.antt =====
-- The attachment of the closure's claim.
use logistics_situation_plat.Evidence.{instant}
use logistics_situation_plat.Attachment.Outcomes.{decide_attachment-auto_attach_iff, IsOnlyMatch}
use logistics_situation_plat.Model.{Event}
use logistics_situation_plat.Tests.Data.{claims, closure_event, closure}
use logistics_situation_plat.Attachment.{
  auto_new, class_of_id, modal_predicate_class, predicate_class_family, event_window, claim_window,
  auto_attach, windows_overlap, gate_matches, matching_events, without_attachment, decide_on,
  decide_attachment, TextFunctions,
}
use logistics_situation_plat.Base.{
  ◌==◌, contains, any_of, lookup, collect, first_max, bump, tally, most_common, ◌↔◌, ◌≡◌, keep, [],
  ◌∷◌, refl,
}

abbrev plain : TextFunctions
plain = record { strip = λ value. value; lower = λ value. value; single_spaces = λ value. value }

decide_attachment-auto_attach_iff_example :
    ((decide_attachment plain closure (closure_event ∷ []) claims).outcome ≡ auto_attach) ↔ (
      (event : Event) × IsOnlyMatch plain closure (closure_event ∷ []) claims event
      × ((decide_attachment plain closure (closure_event ∷ []) claims).event_ids
          ≡ event.event_id ∷ []))
decide_attachment-auto_attach_iff_example =
    decide_attachment-auto_attach_iff plain closure (closure_event ∷ []) claims

-- With two candidates that pass the gate the claim seeds a Development of its own.
two_candidates :
    (decide_attachment plain closure (closure_event ∷ closure_event ∷ []) claims).outcome ≡ auto_new
unfolding decide_attachment decide_on without_attachment matching_events gate_matches keep
    windows_overlap claim_window event_window predicate_class_family modal_predicate_class
    class_of_id most_common tally bump first_max collect lookup any_of contains instant ◌==◌
two_candidates = refl
