-- ===== src/Attachment/Outcomes.antt =====
-- analysis/attachment.py: the three outcomes of decide_attachment.
use logistics_situation_plat.Attachment.Rules.{gate_matches-PassesGate_iff, PassesGate}
use logistics_situation_plat.Attachment.Decision.{
  unattached, has_geography, is_confirmed, matching_events, auto_attach, decide_attachment,
  decide_on, without_attachment,
}
use logistics_situation_plat.Grading.{Claims}
use logistics_situation_plat.Attachment.Gate.{gate_matches, TextFunctions}
use logistics_situation_plat.Model.{Claim, Event}
use logistics_situation_plat.Base.{
  keep-all_failed, mem-non_empty, non_empty, inr, one-keep, inl, keep-one, Bool-cases, Memᴰ, [],
  true, ◌∷◌, ◌↔◌, false, ◌≢◌, ◌≡◌, Picks, List, arith, refl,
}

module _ (text : TextFunctions) (claim : Claim) (candidates : List Event)
    (claims_by_id : Claims) where
  -- The one candidate that passes the gate, and S5 or S6 confirms it.
  pub record IsOnlyMatch (event : Event) : Type 0 where
    pub others : List Event
    pub candidate : Picks candidates event others
    pub passes : PassesGate claim event claims_by_id
    pub confirmed : is_confirmed text claim claims_by_id event ≡ true
    pub no_other : (other : Event) → Memᴰ other others → ¬ PassesGate claim other claims_by_id

fails_iff :
    (claim : Claim) (event : Event) (claims_by_id : Claims)
    → (gate_matches claim event claims_by_id ≡ false) ↔ (¬ PassesGate claim event claims_by_id)
fails_iff claim event claims_by_id = (
  (λ h g. cc (h, (gate_matches-PassesGate_iff claim event claims_by_id).1 g)),
  λ free. elim (Bool-cases (gate_matches claim event claims_by_id)) [
    | inl e ↦ absurd (free ((gate_matches-PassesGate_iff claim event claims_by_id).0 e))
    | inr e ↦ e
  ],
)

without-not_attached :
    (claim : Claim) (matching : List Event)
    → (without_attachment claim matching).outcome ≢ auto_attach
unfolding without_attachment
without-not_attached claim matching h = ground arith

decide_on-attached :
    (text : TextFunctions) (claim : Claim) (claims_by_id : Claims) (matching : List Event)
    → (decide_on text claim claims_by_id matching).outcome ≡ auto_attach
    → (event : Event) × (matching ≡ event ∷ [])
      × (is_confirmed text claim claims_by_id event ≡ true)
unfolding decide_on
decide_on-attached text claim claims_by_id [] h = absurd (without-not_attached claim [] h)
decide_on-attached text claim claims_by_id (event ∷ []) h =
    elim (Bool-cases (is_confirmed text claim claims_by_id event)) [
      | inl e ↦ (event, refl, e)
      | inr e ↦ absurd (without-not_attached claim (event ∷ []) (rw e at h))
    ]
decide_on-attached text claim claims_by_id (event ∷ other ∷ rest) h =
    absurd (without-not_attached claim (event ∷ other ∷ rest) h)

module _ (text : TextFunctions) (claim : Claim) (candidates : List Event)
    (claims_by_id : Claims) where
  -- A claim is attached exactly when one candidate passes the gate alone and S5 or S6 confirms it, and
  -- then to the event of that candidate and to no other.
  pub decide_attachment-auto_attach_iff :
      ((decide_attachment text claim candidates claims_by_id).outcome ≡ auto_attach) ↔ (
        (event : Event) × IsOnlyMatch text claim candidates claims_by_id event
        × ((decide_attachment text claim candidates claims_by_id).event_ids ≡ event.event_id ∷ []))
  unfolding decide_attachment matching_events decide_on
  decide_attachment-auto_attach_iff = (
    (λ h.
        let (event, one, confirmed) =
          decide_on-attached text claim claims_by_id (matching_events claim candidates claims_by_id)
            h in
        let (others, pick, passes, none_other) =
          keep-one (λ each. gate_matches claim each claims_by_id) candidates one in
        (
          event,
          record {
            others = others;
            candidate = pick;
            passes = (gate_matches-PassesGate_iff claim event claims_by_id).0 passes;
            confirmed = confirmed;
            no_other = λ other m. (fails_iff claim other claims_by_id).0 (none_other other m);
          },
          rw (one, confirmed) refl,
        )),
    λ (event, m, ids).
        let one =
          one-keep (λ each. gate_matches claim each claims_by_id) candidates m.candidate
            ((gate_matches-PassesGate_iff claim event claims_by_id).1 m.passes)
            (λ other n. (fails_iff claim other claims_by_id).1 (m.no_other other n)) in
        rw (one, m.confirmed) refl,
  )

geography_free :
    (claim : Claim)
    → has_geography claim ≡ false
    → (non_empty claim.node_ids ≡ false) × (non_empty claim.chokepoint_ids ≡ false)
geography_free claim h = ground arith

nowhere :
    (claim : Claim) (event : Event) (claims_by_id : Claims)
    → has_geography claim ≡ false
    → ¬ PassesGate claim event claims_by_id
nowhere claim event claims_by_id h g = elim g.shared [
  | inl (m, n) ↦ cc (mem-non_empty m, (geography_free claim h).0)
  | inr (m, n) ↦ cc (mem-non_empty m, (geography_free claim h).1)
]

unattached-nowhere :
    (text : TextFunctions) (claim : Claim) (claims_by_id : Claims) (matching : List Event)
    → (decide_on text claim claims_by_id matching).outcome ≡ unattached
    → has_geography claim ≡ false
unfolding decide_on without_attachment
unattached-nowhere text claim claims_by_id [] h = ground arith
unattached-nowhere text claim claims_by_id (event ∷ []) h = ground arith
unattached-nowhere text claim claims_by_id (event ∷ other ∷ rest) h = ground arith

-- A claim is left unattached exactly when it names no node, chokepoint, lane or country: any other claim
-- is attached or seeds a Development of its own, whatever the candidates.
pub decide_attachment-unattached_iff :
    (text : TextFunctions) (claim : Claim) (candidates : List Event) (claims_by_id : Claims)
    → ((decide_attachment text claim candidates claims_by_id).outcome ≡ unattached)
      ↔ (has_geography claim ≡ false)
unfolding decide_attachment matching_events decide_on without_attachment
decide_attachment-unattached_iff text claim candidates claims_by_id = (
  unattached-nowhere text claim claims_by_id (matching_events claim candidates claims_by_id),
  λ h.
      let empty =
        keep-all_failed (λ each. gate_matches claim each claims_by_id) candidates
          (λ event m.
            (fails_iff claim event claims_by_id).1 (nowhere claim event claims_by_id h)) in
      rw (empty, h) refl,
)
