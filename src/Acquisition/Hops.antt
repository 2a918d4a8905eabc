-- ===== src/Acquisition/Hops.antt =====
-- analysis/provenance.py: one round of resolve_governing_run against the relation of Governing.
use logistics_situation_plat.Acquisition.Governing.{IsSound, IsGoverning, Reconfirms}
use logistics_situation_plat.Model.{
  RunStatus, run_disabled, run_error, run_dry, Run, run_success, run_not_modified, Time,
}
use logistics_situation_plat.Evidence.{instant}
use logistics_situation_plat.Acquisition.Chain.{
  is_later, RunIndex, hop, by_status, prior_of, are_ordered, has_sound_interval, crosses_sources,
  unsound_interval, names_no_prior, unresolved_prior, undated_prior, not_chronological,
  unhashed_success,
}
use logistics_situation_plat.Base.{
  false, ltb, is_present, option_eq, subst, string_eq, ok, given, given-ok, ok_inj, some_inj,
  require-ok, bind-ok, ==_iff, lookup?, truthy, and_true, leb→le, le→leb, ◌≤◌, String, true, not,
  ◌&&◌, Option, none, some, ◌≡◌, refl, ap, ◌∙◌, arith, ◌==◌,
}

are_ordered-found :
    (a b : Option Time)
    → are_ordered a b ≡ true
    → (x : Time) × (y : Time) × (a ≡ some x) × (b ≡ some y) × (x ≤ y)
are_ordered-found (some x) (some y) h = (x, y, refl, refl, leb→le x y h)
are_ordered-found none b h = ground arith
are_ordered-found (some x) none h = ground arith

not_later :
    {c : Time} (a b : Option Time)
    → b ≡ some c
    → is_present a ≡ true
    → not (is_later a b) ≡ true
    → (p : Time) × (a ≡ some p) × (p ≤ c)
not_later (some p) (some d) e present h = (p, refl, ground arith)
not_later none b e present h = ground arith
not_later (some p) none e present h = ground arith

not_ltb : (p c : Time) → p ≤ c → ltb c p ≡ false
not_ltb p c h = ground arith

pub same_end : {p c d : Time} (end : Option Time) → end ≡ some c → end ≡ some d → p ≤ c → p ≤ d
same_end end e e' h = ground arith

module _ (index : RunIndex) (source_id : Option String) where
  hop-IsSound :
      {passed : Option Run} (run : Run)
      → hop index source_id run ≡ ok passed
      → IsSound source_id run × (by_status run.status index run ≡ ok passed)
  unfolding hop has_sound_interval
  hop-IsSound run h =
      let (same, h1) = require-ok (run.source_id == source_id) crosses_sources h in
      let (interval, h2) =
        require-ok (are_ordered (instant run.started_at) (instant run.completed_at))
          unsound_interval h1 in
      let (started, completed, s, c, le) =
        are_ordered-found (instant run.started_at) (instant run.completed_at) interval in
      (
        record {
          same_source = (==_iff run.source_id source_id).0 same;
          started = started;
          started_at = s;
          completed = completed;
          completed_at = c;
          in_order = le;
        },
        h2,
      )

  IsSound-hop :
      {passed : Option Run} (run : Run)
      → IsSound source_id run
      → by_status run.status index run ≡ ok passed
      → hop index source_id run ≡ ok passed
  unfolding hop has_sound_interval
  IsSound-hop run s h =
      rw ((==_iff run.source_id source_id).1 s.same_source)
        (rw s.started_at (rw s.completed_at (rw (le→leb s.started s.completed s.in_order) h)))

  by_status-none :
      (status : RunStatus) (run : Run)
      → by_status status index run ≡ ok none
      → (status ≡ run_success)
        × (truthy run.output_manifest_sha256 ≡ true)
        × (is_present run.emitted_records ≡ true)
  unfolding by_status prior_of
  by_status-none run_success run h =
      let (both, h1) =
        require-ok (truthy run.output_manifest_sha256 && is_present run.emitted_records)
          unhashed_success h in
      let (hashed, listed) =
        (and_true (truthy run.output_manifest_sha256) (is_present run.emitted_records)).0 both in
      (refl, hashed, listed)
  by_status-none run_not_modified run h =
      let (named, h1) = require-ok (truthy run.supersedes_run_id) names_no_prior h in
      let (prior, e, h2) =
        bind-ok (given (lookup? run.supersedes_run_id index) unresolved_prior) h1 in
      let (present, h3) = require-ok (is_present (instant prior.completed_at)) undated_prior h2 in
      let (ordered, h4) =
        require-ok (not (is_later (instant prior.completed_at) (instant run.completed_at)))
          not_chronological h3 in
      ground arith
  by_status-none run_disabled run h = ground arith
  by_status-none run_error run h = ground arith
  by_status-none run_dry run h = ground arith

  pub hop-IsGoverning : (run : Run) → hop index source_id run ≡ ok none → IsGoverning source_id run
  hop-IsGoverning run h =
      let (sound, h1) = hop-IsSound run h in
      let (succeeded, hashed, listed) = by_status-none run.status run h1 in
      record { sound = sound; succeeded = succeeded; hashed = hashed; listed = listed }

  pub IsGoverning-hop : (run : Run) → IsGoverning source_id run → hop index source_id run ≡ ok none
  unfolding by_status
  IsGoverning-hop run g = IsSound-hop run g.sound (rw g.succeeded (rw g.hashed (rw g.listed refl)))

  prior_of-found :
      (run prior : Run)
      → prior_of index run ≡ ok (some prior)
      → (truthy run.supersedes_run_id ≡ true)
        × (lookup? run.supersedes_run_id index ≡ some prior)
        × (is_present (instant prior.completed_at) ≡ true)
        × (not (is_later (instant prior.completed_at) (instant run.completed_at)) ≡ true)
  unfolding prior_of
  prior_of-found run prior h =
      let (named, h1) = require-ok (truthy run.supersedes_run_id) names_no_prior h in
      let (other, e, h2) =
        bind-ok (given (lookup? run.supersedes_run_id index) unresolved_prior) h1 in
      let (present, h3) = require-ok (is_present (instant other.completed_at)) undated_prior h2 in
      let (ordered, h4) =
        require-ok (not (is_later (instant other.completed_at) (instant run.completed_at)))
          not_chronological h3 in
      let same = some_inj (ok_inj h4) in
      (
        named,
        given-ok (lookup? run.supersedes_run_id index) unresolved_prior other e ∙ ap some same,
        subst (λ each. is_present (instant each.completed_at) ≡ true) same present,
        subst (λ each. not (is_later (instant each.completed_at) (instant run.completed_at)) ≡ true)
            same ordered,
      )

  by_status-some :
      (status : RunStatus) (run prior : Run)
      → by_status status index run ≡ ok (some prior)
      → (status ≡ run_not_modified) × (prior_of index run ≡ ok (some prior))
  unfolding by_status
  by_status-some run_success run prior h =
      let (both, h1) =
        require-ok (truthy run.output_manifest_sha256 && is_present run.emitted_records)
          unhashed_success h in
      ground arith
  by_status-some run_not_modified run prior h = (refl, h)
  by_status-some run_disabled run prior h = ground arith
  by_status-some run_error run prior h = ground arith
  by_status-some run_dry run prior h = ground arith

  pub hop-Reconfirms :
      (run prior : Run)
      → hop index source_id run ≡ ok (some prior)
      → Reconfirms index source_id run prior
  hop-Reconfirms run prior h =
      let (sound, h1) = hop-IsSound run h in
      let (unmodified, h2) = by_status-some run.status run prior h1 in
      let (named, resolved, present, ordered) = prior_of-found run prior h2 in
      let (p, dated, le) =
        not_later (instant prior.completed_at) (instant run.completed_at) sound.completed_at present
          ordered in
      record {
        sound = sound;
        unmodified = unmodified;
        named = named;
        resolved = resolved;
        prior_completed = p;
        dated = dated;
        earlier = le;
      }

  pub Reconfirms-hop :
      (run prior : Run)
      → Reconfirms index source_id run prior
      → hop index source_id run ≡ ok (some prior)
  unfolding by_status prior_of
  Reconfirms-hop run prior r = IsSound-hop run r.sound (
      rw r.unmodified (
        rw r.named (
          rw r.resolved (
            rw r.dated (
              rw r.sound.completed_at
                (rw (not_ltb r.prior_completed r.sound.completed r.earlier) refl))))))
