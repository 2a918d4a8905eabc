-- ===== src/Acquisition/Termination.antt =====
-- analysis/provenance.py: the loop of resolve_governing_run against its fuel.
use logistics_situation_plat.Evidence.{instant}
use logistics_situation_plat.Model.{
  RunStatus, run_success, run_not_modified, run_disabled, run_error, run_dry, Run,
}
use logistics_situation_plat.Acquisition.Chain.{
  after_hop, ChainFault, crosses_sources, has_sound_interval, unsound_interval, undated_prior,
  is_later, not_chronological, names_no_prior, unresolved_prior, unhashed_success, RunIndex,
  Resolution, hop, by_status, prior_of, resolve_within, resolve_governing_run, found, faulted,
  cycle,
}
use logistics_situation_plat.Base.{
  is_present, ◌||◌, option_eq, ok_inj, ◌∙◌, ap, some_inj, contains-append, lookup-mem, given,
  truthy, require-ok, ◌&&◌, ◌==◌, string_eq, inl, inr, Result, ok, raise, Result-cases, require-ok,
  bind-ok, given-ok, contains, mem_contains, keep, length, length-keep_strict, length-keep-le,
  lookup?, not, Bool-cases, ℕ, zero, suc, ◌≤◌, ◌<◌, String, Memᴰ, Bool, true, false, List, [], ◌∷◌,
  ◌++◌, Option, none, some, ◌≡◌, refl, arith,
}

-- The runs of the index that no round has visited.
unfoldable pub unvisited : List String → RunIndex → ℕ
unvisited visited index = length (keep (λ entry. not (contains visited entry.1.run_id)) index)

-- A run that the index holds.
abbrev IsIndexed : RunIndex → Run → Type 0
IsIndexed index run = (id : String) × Memᴰ (id, run) index

lookup-IsIndexed :
    (index : RunIndex) (wanted : Option String) (run : Run)
    → lookup? wanted index ≡ some run
    → IsIndexed index run
lookup-IsIndexed index (some id) run h = lookup-mem id index h
lookup-IsIndexed index none run h = ground arith

prior_of-IsIndexed :
    (index : RunIndex) (current prior : Run)
    → prior_of index current ≡ ok (some prior)
    → IsIndexed index prior
unfolding prior_of
prior_of-IsIndexed index current prior h =
    let (named, h1) = require-ok (truthy current.supersedes_run_id) names_no_prior h in
    let (run, e, h2) =
      bind-ok (given (lookup? current.supersedes_run_id index) unresolved_prior) h1 in
    let (present, h3) = require-ok (is_present (instant run.completed_at)) undated_prior h2 in
    let (ordered, h4) =
      require-ok (not (is_later (instant run.completed_at) (instant current.completed_at)))
        not_chronological h3 in
    lookup-IsIndexed index current.supersedes_run_id prior (
      given-ok (lookup? current.supersedes_run_id index) unresolved_prior run e
      ∙ ap some (some_inj (ok_inj h4)))

by_status-IsIndexed :
    (status : RunStatus) (index : RunIndex) (current prior : Run)
    → by_status status index current ≡ ok (some prior)
    → IsIndexed index prior
unfolding by_status
by_status-IsIndexed run_success index current prior h =
    let (hashed, h1) =
      require-ok (truthy current.output_manifest_sha256 && is_present current.emitted_records)
        unhashed_success h in
    ground arith
by_status-IsIndexed run_not_modified index current prior h =
    prior_of-IsIndexed index current prior h
by_status-IsIndexed run_disabled index current prior h = ground arith
by_status-IsIndexed run_error index current prior h = ground arith
by_status-IsIndexed run_dry index current prior h = ground arith

hop-IsIndexed :
    (index : RunIndex) (source_id : Option String) (current prior : Run)
    → hop index source_id current ≡ ok (some prior)
    → IsIndexed index prior
unfolding hop
hop-IsIndexed index source_id current prior h =
    let (same, h1) = require-ok (current.source_id == source_id) crosses_sources h in
    let (sound, h2) = require-ok (has_sound_interval current) unsound_interval h1 in
    by_status-IsIndexed current.status index current prior h2

visited_append :
    (visited : List String) (id other : String)
    → not (contains (visited ++ id ∷ []) other) ≡ true
    → not (contains visited other) ≡ true
visited_append visited id other h = ground (arith, contains-append visited (id ∷ []) other)

not_or_true : (b : Bool) → not (b || true) ≡ false
not_or_true b = ground arith

unvisited_step :
    (visited : List String) (index : RunIndex) (run : Run)
    → IsIndexed index run
    → contains visited run.run_id ≡ false
    → unvisited (visited ++ run.run_id ∷ []) index < unvisited visited index
unfolding unvisited
unvisited_step visited index run (id, m) h =
    length-keep_strict (λ entry. not (contains visited entry.1.run_id))
      (λ entry. not (contains (visited ++ run.run_id ∷ []) entry.1.run_id)) index
      (λ entry. visited_append visited run.run_id entry.1.run_id) m (rw h refl)
      (rw (contains-append visited (run.run_id ∷ []) run.run_id) (
        rw (mem_contains (run.run_id ∷ []) run.run_id (Memᴰ.head refl))
          (not_or_true (contains visited run.run_id))))

le_of_drop : {a b fuel : ℕ} → a < b → b < suc fuel → a < fuel
le_of_drop below h = omega arith

resolves_indexed :
    (fuel : ℕ) (index : RunIndex) (source_id : Option String) (visited : List String) (run : Run)
    → IsIndexed index run
    → unvisited visited index < fuel
    → (result : Resolution) × (resolve_within fuel index source_id visited run ≡ some result)
unfolding resolve_within
resolves_indexed zero index source_id visited run m h = absurd (omega arith)
resolves_indexed (suc fuel) index source_id visited run m h =
    elim (Bool-cases (contains visited run.run_id)) [
      | inl e ↦ rw e (faulted cycle (visited ++ run.run_id ∷ []), refl)
      | inr e ↦ rw e (elim (Result-cases (hop index source_id run)) [
        | inr (fault, q) ↦ rw q (faulted fault (visited ++ run.run_id ∷ []), refl)
        | inl (none, q) ↦ rw q (found run (visited ++ run.run_id ∷ []), refl)
        | inl (some prior, q) ↦ rw q (
            resolves_indexed fuel index source_id (visited ++ run.run_id ∷ []) prior
              (hop-IsIndexed index source_id run prior q)
              (le_of_drop (unvisited_step visited index run m e) h))
      ])
    ]

unvisited_le : (visited : List String) (index : RunIndex) → unvisited visited index ≤ length index
unfolding unvisited
unvisited_le visited index = length-keep-le (λ entry. not (contains visited entry.1.run_id)) index

lt_suc : {a b : ℕ} → a ≤ b → a < suc b
lt_suc h = omega arith

-- The first round tests no earlier id.
first_round :
    (fuel : ℕ) (run : Run) (index : RunIndex) (passed : Result ChainFault (Option Run))
    → hop index run.source_id run ≡ passed
    → resolve_within (suc (suc fuel)) index run.source_id [] run
      ≡ after_hop
          (resolve_within (suc fuel) index run.source_id (run.run_id ∷ []))
          run
          (run.run_id ∷ [])
          passed
unfolding resolve_within contains
first_round fuel run index passed h = rw h refl

-- The walk along `supersedes_run_id` ends on every run and every set of runs, cycles included: the
-- fuel given is never used up.
pub resolve_governing_run_ends :
    (run : Run) (index : RunIndex)
    → (result : Resolution) × (resolve_governing_run run index ≡ some result)
unfolding resolve_governing_run
resolve_governing_run_ends run index = elim (Result-cases (hop index run.source_id run)) [
  | inr (fault, q) ↦
      (faulted fault (run.run_id ∷ []), first_round (length index) run index (raise fault) q)
  | inl (none, q) ↦ (found run (run.run_id ∷ []), first_round (length index) run index (ok none) q)
  | inl (some prior, q) ↦
      let (result, e) =
        resolves_indexed (suc (length index)) index run.source_id (run.run_id ∷ []) prior
          (hop-IsIndexed index run.source_id run prior q)
          (lt_suc (unvisited_le (run.run_id ∷ []) index)) in
      (result, first_round (length index) run index (ok (some prior)) q ∙ e)
]
