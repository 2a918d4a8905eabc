-- ===== src/Health/Snapshot.antt =====
-- What the snapshot of a registry says of each source.
use logistics_situation_plat.Health.Runs.{latest_success_run, latest_run, latest_reviewed_event}
use logistics_situation_plat.Model.{access_method_eq, AccessMethod, Source, Registry, Time}
use logistics_situation_plat.Model.{Run, ReviewEvent}
use logistics_situation_plat.Health.Evaluation.{
  max_stale_of, automated_health, evaluate_automated_health, evaluate_manual_source_health,
  evaluate_by_access, manual_health, SourceHealth, evaluate_source_health,
}
use logistics_situation_plat.Health.Coverage.{is_live, insufficient_coverage, capability_coverage}
use logistics_situation_plat.Health.Registry.{
  RegistryHealth, evaluate_registry_health, registry_health, source_healths, listed_for,
  capability_groups,
}
use logistics_situation_plat.Health.Sufficiency.{overall_status-required}
use logistics_situation_plat.Base.{
  none, ◌==◌, option_eq, ◌==◌, Bool-cases, some, Option, ℕ, Memᴰ-cases, inl, inr, ok, bind-ok,
  ok_inj, String, true, false, List, [], ◌∷◌, map, Memᴰ, ◌≡◌, refl, sym, ap, subst, ◌∙◌,
}

manual_health-required :
    (source : Source) (minutes : ℕ) (now : Time) (reviewed : Option (ReviewEvent × Time))
    → (manual_health source minutes now reviewed).required_for_publication
      ≡ source.required_for_publication
unfolding manual_health
manual_health-required source minutes now none = refl
manual_health-required source minutes now (some (event, at)) = refl

-- The health of a source keeps whether the source is required for publication, on every path.
evaluate_source_health-required :
    (source : Source) (runs : List Run) (now : Time) (events : List ReviewEvent)
    (health : SourceHealth)
    → evaluate_source_health source runs now events ≡ ok health
    → health.required_for_publication ≡ source.required_for_publication
unfolding evaluate_source_health evaluate_by_access evaluate_manual_source_health
    evaluate_automated_health automated_health
evaluate_source_health-required source runs now events health h =
    let (minutes, limit, h1) = bind-ok (max_stale_of source.max_stale_minutes) h in
    elim (Bool-cases (source.access_method == some AccessMethod.manual)) [
      | inl e ↦
          let (reviewed, found, h2) = bind-ok (latest_reviewed_event events now) (rw e at h1) in
          sym (ap (λ part. part.required_for_publication) (ok_inj h2))
          ∙ manual_health-required source minutes now reviewed
      | inr e ↦
          let (checked, found, h2) = bind-ok (latest_run runs now) (rw e at h1) in
          let (success, found', h3) = bind-ok (latest_success_run runs now) h2 in
          sym (ap (λ part. part.required_for_publication) (ok_inj h3))
    ]

source_healths-mem :
    (registry : Registry) (runs : List (String × List Run)) (now : Time)
    (events : List (String × List ReviewEvent)) (healths : List SourceHealth) (source : Source)
    → source_healths registry runs now events ≡ ok healths
    → Memᴰ source registry
    → (health : SourceHealth) × Memᴰ health healths
      × (evaluate_source_health source (listed_for runs source.id) now (listed_for events source.id)
          ≡ ok health)
unfolding source_healths
source_healths-mem [] runs now events healths source h m = elim m [ ]
source_healths-mem (first ∷ rest) runs now events healths source h m =
    let (health, found, h1) =
      bind-ok
        (evaluate_source_health first (listed_for runs first.id) now (listed_for events first.id))
        h in
    let (others, e, h2) = bind-ok (source_healths rest runs now events) h1 in
    elim (Memᴰ-cases m) [
      | inl same ↦ (
        health,
        subst (Memᴰ health) (ok_inj h2) (Memᴰ.head refl),
        subst
            (λ each.
              evaluate_source_health each (listed_for runs each.id) now (listed_for events each.id)
              ≡ ok health)
            (sym same) found,
      )
      | inr k ↦
          let (other, among, q) = source_healths-mem rest runs now events others source e k in
          (other, subst (Memᴰ other) (ok_inj h2) (Memᴰ.tail among), q)
    ]

module _ (registry : Registry) (runs : List (String × List Run)) (now : Time)
    (events : List (String × List ReviewEvent)) (report : RegistryHealth) where
  -- Each source of the registry has its own health, evaluated from its own runs and review events, in
  -- the snapshot.
  pub evaluate_registry_health_complete :
      (source : Source)
      → evaluate_registry_health registry runs now events ≡ ok report
      → Memᴰ source registry
      → (health : SourceHealth) × Memᴰ health report.sources
        × (evaluate_source_health source
              (listed_for runs source.id)
              now
              (listed_for events source.id)
            ≡ ok health)
  unfolding evaluate_registry_health registry_health
  evaluate_registry_health_complete source h m =
      let (healths, e, h1) = bind-ok (source_healths registry runs now events) h in
      let (health, among, q) = source_healths-mem registry runs now events healths source e m in
      (health, subst (Memᴰ health) (ap (λ part. part.sources) (ok_inj h1)) among, q)

  -- Where the registry can be evaluated, a source of it that is required for publication makes the whole
  -- snapshot insufficient when its own runs and review events show it not to be live, however many
  -- other sources are live.
  pub evaluate_registry_health-required :
      (source : Source) (health : SourceHealth)
      → evaluate_registry_health registry runs now events ≡ ok report
      → Memᴰ source registry
      → source.required_for_publication ≡ true
      → evaluate_source_health source (listed_for runs source.id) now (listed_for events source.id)
        ≡ ok health
      → is_live health.status ≡ false
      → report.overall ≡ insufficient_coverage
  unfolding evaluate_registry_health registry_health
  evaluate_registry_health-required source health h m required own down =
      let (healths, e, h1) = bind-ok (source_healths registry runs now events) h in
      let (other, listed, q) = source_healths-mem registry runs now events healths source e m in
      let same = ok_inj (sym q ∙ own) in
      sym (ap (λ part. part.overall) (ok_inj h1))
      ∙ overall_status-required
          (map (λ group. capability_coverage group.0 group.1)
            (capability_groups registry healths []))
          healths health (subst (λ each. Memᴰ each healths) same listed)
          (evaluate_source_health-required source (listed_for runs source.id) now
              (listed_for events source.id) health own
            ∙ required)
          down
