-- ===== src/Evidence/Traceability.antt =====
-- What a projected evidence record carries over from the claim and the document.
use logistics_situation_plat.Evidence.Limitations.{merged_known_limitations-mem}
use Prim.Native.String.{◌++◌ as append, slice, len}
use text.Mathlib.TextPositions.{starts_with-append, slice-append_right, len-append}
use text.Mathlib.Text.{starts_with}
use logistics_situation_plat.Base.{
  sym, ap, ◌∙◌, if◌then◌else◌, Result-cases, raise, raise≢ok, require-ok, ◌==◌, ◌≡◌, ◌↔◌, ◌⊎◌, inl,
  inr, refl, String, true, false, arith, ==_iff, string_eq, option_eq, contains, contains_mem,
  mem_contains, Memᴰ, ok,
}
use logistics_situation_plat.Model.{Claim, Document, Registry, Time, strength_d}
use logistics_situation_plat.Evidence.Sources.{
  relation, source_entry, is_discovery_source, discovery_only, evidence_role,
}
use logistics_situation_plat.Evidence.Strength.{
  strength_basis, is_barred, full_strength, item_strength, is_fixture_document,
}
use logistics_situation_plat.Evidence.Projection.{
  date_only, evidence_id_of, ProjectionError, document_disagrees, source_disagrees,
  event_not_attached, EventEvidence, projected, project_event_evidence,
}

-- The claim, the document and the event belong together.
pub record IsTraceable (claim : Claim) (document : Document) (event_id : String) : Type 0 where
  pub same_document : claim.document_id ≡ document.document_id
  pub same_source : claim.source_id ≡ document.source_id
  pub attached : Memᴰ event_id claim.event_ids

-- A text read off behind the prefix that it starts with.
pub without_prefix :
    (start rest : String)
    → (if starts_with (append start rest) start
        then slice (append start rest) (len start) (len (append start rest))
        else append start rest)
      ≡ rest
without_prefix start rest =
    rw (starts_with-append start rest) (rw (len-append start rest) (slice-append_right start rest))

-- What each key of a projected record says, and of which of the arguments.
pub record IsTraced (claim : Claim) (document : Document) (event_id : String) (registry : Registry)
    (now : Time) (item : EventEvidence) : Type 0 where
  pub numbered :
      (rest : String) → claim.claim_id ≡ append "CLM-" rest → item.evidence_id ≡ append "EVD-" rest
  pub of_event : item.event_id ≡ event_id
  pub of_source : item.source_id ≡ claim.source_id
  pub publisher : item.source_name ≡ document.publisher
  pub class_of : item.source_class ≡ (source_entry registry claim.source_id).source_class
  pub url : item.source_url ≡ document.canonical_url
  pub text : item.claim ≡ claim.claim_text
  pub type_of : item.claim_type ≡ claim.claim_type
  pub role : item.role ≡ evidence_role claim (source_entry registry claim.source_id)
  pub stance : item.stance ≡ relation claim
  pub strength : item.strength ≡ item_strength claim document registry now
  pub scope : item.scope_supported ≡ claim.claim_scope
  pub dated : item.event_date ≡ date_only claim.event_start_at
  pub published : item.publication_date ≡ date_only document.published_at
  pub retrieval : item.retrieval_status ≡ document.retrieval_status
  pub retrieved_at : item.retrieved_at ≡ document.retrieved_at
  pub revised_at : item.revised_at ≡ document.updated_at
  pub origin : item.evidence_origin ≡ document.evidence_origin
  pub dataset : item.dataset ≡ document.dataset
  pub content : item.content_sha256 ≡ document.content_sha256
  pub content_scope : item.content_hash_scope ≡ document.content_hash_scope
  pub basis : item.basis ≡ strength_basis document
  pub parser : item.parser_version ≡ (source_entry registry claim.source_id).parser
  pub licence : item.licence_status ≡ (source_entry registry claim.source_id).licence_status
  pub redistribution : item.redistribution_status ≡ document.redistribution_status
  pub limitations :
      (limitation : String)
      → Memᴰ limitation item.known_limitations
        ↔ (Memᴰ limitation document.known_limitations ⊎ Memᴰ limitation claim.known_limitations)
  pub run : item.collection_run_id ≡ document.collection_run_id
  pub review : item.manual_review_event_id ≡ document.manual_review_event_id

module _ (claim : Claim) (document : Document) (event_id : String) (registry : Registry)
    (now : Time) where
  evidence_id-numbered :
      (rest : String)
      → claim.claim_id ≡ append "CLM-" rest
      → evidence_id_of claim.claim_id ≡ append "EVD-" rest
  unfolding evidence_id_of
  evidence_id-numbered rest e = rw e (ap (append "EVD-") (without_prefix "CLM-" rest))

  projected-IsTraced :
      claim.source_id ≡ document.source_id
      → IsTraced claim document event_id registry now
          (projected claim document event_id registry now)
  unfolding projected
  projected-IsTraced same = record {
    numbered = evidence_id-numbered;
    of_event = refl;
    of_source = sym same;
    publisher = refl;
    class_of = ap (λ id. (source_entry registry id).source_class) (sym same);
    url = refl;
    text = refl;
    type_of = refl;
    role = ap (λ id. evidence_role claim (source_entry registry id)) (sym same);
    stance = refl;
    strength = refl;
    scope = refl;
    dated = refl;
    published = refl;
    retrieval = refl;
    retrieved_at = refl;
    revised_at = refl;
    origin = refl;
    dataset = refl;
    content = refl;
    content_scope = refl;
    basis = refl;
    parser = ap (λ id. (source_entry registry id).parser) (sym same);
    licence = ap (λ id. (source_entry registry id).licence_status) (sym same);
    redistribution = refl;
    limitations = merged_known_limitations-mem document claim;
    run = refl;
    review = refl;
  }

  IsTraceable-ok :
      IsTraceable claim document event_id
      → project_event_evidence claim document event_id registry now
        ≡ ok (projected claim document event_id registry now)
  unfolding project_event_evidence
  IsTraceable-ok t =
      rw
        (
          (==_iff claim.document_id document.document_id).1 t.same_document,
          (==_iff claim.source_id document.source_id).1 t.same_source,
          mem_contains claim.event_ids event_id t.attached,
        )
        refl

  ok-IsTraceable :
      (item : EventEvidence)
      → project_event_evidence claim document event_id registry now ≡ ok item
      → IsTraceable claim document event_id
  unfolding project_event_evidence
  ok-IsTraceable item h =
      let (same_document, h1) =
        require-ok (claim.document_id == document.document_id) document_disagrees h in
      let (same_source, h2) =
        require-ok (claim.source_id == document.source_id) source_disagrees h1 in
      let (attached, h3) = require-ok (contains claim.event_ids event_id) event_not_attached h2 in
      record {
        same_document = (==_iff claim.document_id document.document_id).0 same_document;
        same_source = (==_iff claim.source_id document.source_id).0 same_source;
        attached = contains_mem claim.event_ids event_id attached;
      }

  -- The projection returns a record exactly when the claim names the document, its source and the
  -- event, and raises one of its three ValueErrors exactly when it does not. The record carries every
  -- key over from the argument that it belongs to: the event's id, the claim's text, type, scope, source
  -- and number, the document's address, dates, hash, origin, run and review, the registry's class,
  -- parser and licence of that source, the role, stance, basis and strength of the claim and the
  -- document, and exactly the known limitations of the two.
  pub project_event_evidence-ok_iff :
      (((item : EventEvidence) × (project_event_evidence claim document event_id registry now
            ≡ ok item)
          × IsTraced claim document event_id registry now item)
        ↔ IsTraceable claim document event_id)
      × (((error : ProjectionError) × (project_event_evidence claim document event_id registry now
              ≡ raise error))
          ↔ (¬ IsTraceable claim document event_id))
  project_event_evidence-ok_iff = (
    (
      (λ (item, h, traced). ok-IsTraceable item h),
      λ t. (
        projected claim document event_id registry now,
        IsTraceable-ok t,
        projected-IsTraced t.same_source,
      ),
    ),
    (
      (λ (error, h) t. raise≢ok (sym h ∙ IsTraceable-ok t)),
      λ n. elim (Result-cases (project_event_evidence claim document event_id registry now)) [
        | inl (item, h) ↦ absurd (n (ok-IsTraceable item h))
        | inr found ↦ found
      ],
    ),
  )

-- Evidence projected from a discovery source and a document that is no fixture is a discovery-only
-- lead of the weakest grade, whatever the claim says of itself.
pub projected-discovery :
    (claim : Claim) (document : Document) (event_id : String) (registry : Registry) (now : Time)
    → is_discovery_source (source_entry registry document.source_id) ≡ true
    → is_fixture_document document ≡ false
    → let evidence = projected claim document event_id registry now in
      (evidence.role ≡ discovery_only) × (evidence.strength ≡ strength_d)
unfolding projected evidence_role item_strength full_strength is_barred
projected-discovery claim document event_id registry now lead real = (rw lead, ground arith)
