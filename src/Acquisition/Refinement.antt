-- ===== src/Acquisition/Refinement.antt =====
-- resolve_governing_run against the relation that says which run governs.
use mathlib.Core.List.{append_assoc}
use logistics_situation_plat.Model.{Run}
use logistics_situation_plat.Acquisition.Chain.{
  ChainFault, RunIndex, Resolution, hop, resolve_within, resolve_governing_run, found, faulted,
}
use logistics_situation_plat.Acquisition.Termination.{resolve_governing_run_ends}
use logistics_situation_plat.Acquisition.Governing.{Governs, is_new}
use logistics_situation_plat.Acquisition.Hops.{
  hop-IsGoverning, IsGoverning-hop, hop-Reconfirms, Reconfirms-hop,
}
use logistics_situation_plat.Base.{
  string_eq, ◌≢◌, Result-cases, some_inj, contains, Bool-cases, length, ℕ, zero, suc, String, true,
  false, List, [], ◌∷◌, ◌++◌, Option, none, some, ◌≡◌, refl, sym, ap, ◌∙◌, subst, inl, inr, ◌↔◌,
  arith, ok,
}

faulted≢found :
    {fault : ChainFault} {chain chain' : List String} {run : Run}
    → faulted fault chain ≢ found run chain'
faulted≢found h = ground (arith, ap (λ result. result.governing) h)

-- Two results with a governing run have the same run and the same chain.
found_inj :
    {run run' : Run} {chain chain' : List String}
    → found run chain ≡ found run' chain'
    → (run ≡ run') × (chain ≡ chain')
found_inj h = (some_inj (ap (λ result. result.governing) h), ap (λ result. result.chain) h)

pub new_parts :
    (visited chain : List String) (id : String)
    → is_new visited (id ∷ chain) ≡ true
    → (contains visited id ≡ false) × (is_new (visited ++ id ∷ []) chain ≡ true)
unfolding is_new
new_parts visited chain id h = ground arith

pub new_cons :
    (visited chain : List String) (id : String)
    → contains visited id ≡ false
    → is_new (visited ++ id ∷ []) chain ≡ true
    → is_new visited (id ∷ chain) ≡ true
unfolding is_new
new_cons visited chain id fresh new = rw fresh new

module _ (index : RunIndex) (source_id : Option String) where
  itself_found :
      (visited : List String) (run governing : Run) (chain : List String)
      → hop index source_id run ≡ ok none
      → contains visited run.run_id ≡ false
      → found run (visited ++ run.run_id ∷ []) ≡ found governing chain
      → (rest : List String) × (chain ≡ visited ++ rest)
        × Governs index source_id run governing rest
        × (is_new visited rest ≡ true)
  unfolding is_new
  itself_found visited run governing chain q e same =
      let (run_same, chain_same) = found_inj same in
      (
        run.run_id ∷ [],
        sym chain_same,
        subst (λ each. Governs index source_id run each (run.run_id ∷ [])) run_same
            (Governs.itself (hop-IsGoverning index source_id run q)),
        rw e refl,
      )

  -- What the loop resolves from some round on is governed, by a chain that goes on from there.
  resolved-Governs :
      (fuel : ℕ) (visited : List String) (run governing : Run) (chain : List String)
      → resolve_within fuel index source_id visited run ≡ some (found governing chain)
      → (rest : List String) × (chain ≡ visited ++ rest)
        × Governs index source_id run governing rest
        × (is_new visited rest ≡ true)
  unfolding resolve_within
  resolved-Governs zero visited run governing chain h = ground arith
  resolved-Governs (suc fuel) visited run governing chain h =
      elim (Bool-cases (contains visited run.run_id)) [
        | inl e ↦ absurd (faulted≢found (some_inj (rw e at h)))
        | inr e ↦ elim (Result-cases (hop index source_id run)) [
          | inr (fault, q) ↦ absurd (faulted≢found (some_inj (rw (e, q) at h)))
          | inl (none, q) ↦ itself_found visited run governing chain q e (some_inj (rw (e, q) at h))
          | inl (some prior, q) ↦
              let (rest, grown, governs, new) =
                resolved-Governs fuel (visited ++ run.run_id ∷ []) prior governing chain
                  (rw (e, q) at h) in
              (
                run.run_id ∷ rest,
                grown ∙ append_assoc visited (run.run_id ∷ []) rest,
                Governs.through (hop-Reconfirms index source_id run prior q) governs,
                new_cons visited rest run.run_id e new,
              )
        ]
      ]

  -- A governed run resolves, if the chain repeats no id and the fuel does not run out.
  Governs-resolved :
      {run governing : Run} {chain : List String} (fuel : ℕ) (visited : List String)
      → Governs index source_id run governing chain
      → is_new visited chain ≡ true
      → (result : Resolution) → resolve_within fuel index source_id visited run ≡ some result
      → result ≡ found governing (visited ++ chain)
  unfolding resolve_within is_new
  Governs-resolved zero visited g new result h = ground arith
  Governs-resolved (suc fuel) visited (Governs.itself {run} g) new result h =
      let (fresh, _) = new_parts visited [] run.run_id new in
      sym (some_inj (rw (fresh, IsGoverning-hop index source_id run g) at h))
  Governs-resolved (suc fuel) visited (Governs.through {run} {prior} {chain = chain} r g) new result
        h =
      let (fresh, new_rest) = new_parts visited chain run.run_id new in
      Governs-resolved fuel (visited ++ run.run_id ∷ []) g new_rest result
        (rw (fresh, Reconfirms-hop index source_id run prior r) at h)
      ∙ ap (found _) (append_assoc visited (run.run_id ∷ []) chain)

-- The loop finds a governing run exactly when the relation says so: a run resolves to a governing run
-- by a chain exactly when the chain leads from it, through reconfirmed runs of its source, to a
-- successful run with a hashed manifest, and no id comes twice.
pub resolve_governing_run-Governs_iff :
    (run : Run) (index : RunIndex) (governing : Run) (chain : List String)
    → (resolve_governing_run run index ≡ some (found governing chain))
      ↔ (Governs index run.source_id run governing chain × (is_new [] chain ≡ true))
unfolding resolve_governing_run
resolve_governing_run-Governs_iff run index governing chain = (
  λ h.
      let (rest, same, governs, new) =
        resolved-Governs index run.source_id (suc (suc (length index))) [] run governing chain h in
      (
        subst (Governs index run.source_id run governing) (sym same) governs,
        subst (λ each. is_new [] each ≡ true) (sym same) new,
      ),
  λ (governs, new).
      let (result, e) = resolve_governing_run_ends run index in
      let e' : resolve_within (suc (suc (length index))) index run.source_id [] run ≡ some result =
        e in
      e'
      ∙ ap some (
          Governs-resolved index run.source_id (suc (suc (length index))) [] governs new result e'),
)
