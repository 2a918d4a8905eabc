-- ===== src/Health/Liveness.antt =====
-- What stands behind a fresh source.
use logistics_situation_plat.Model.{Source, Time, Stamp, minute}
use logistics_situation_plat.Health.Runs.{
  parse_timestamp, pair_with, dated, latest, latest_from, latest_run, latest_success_run,
  is_success,
}
use logistics_situation_plat.Model.{Run}
use logistics_situation_plat.Health.Evaluation.{
  SourceHealth, is_fresh, fresh_boundary_minutes, clock_status, automated_status, automated_health,
  evaluate_automated_health,
}
use logistics_situation_plat.Base.{
  some_inj, ok_inj, subst, ok, bind-ok, Bool-cases, keep, mem_keep, leb, ltb, leb→le, append-cases,
  ℕ, ◌+◌, ◌*◌, ◌≤◌, Memᴰ, true, List, [], ◌∷◌, Option, none, some, ◌≡◌, refl, arith, inl, inr, ap,
  sym, ◌∙◌,
}

pair_with-nil :
    {A : Type 0} (item : A) (time : Option Time) {pair : A × Time}
    → Memᴰ pair (pair_with item time [])
    → (pair.0 ≡ item) × (time ≡ some pair.1)
pair_with-nil item none m = elim m [ ]
pair_with-nil item (some time) (Memᴰ.head e) = (ap (λ p. p.0) e, ap (λ p. some p.1) (sym e))
pair_with-nil item (some time) (Memᴰ.tail m) = elim m [ ]

-- The dated pairs are items of the list with their times, none of them later than `now`.
dated-mem :
    {A : Type 0} (stamp_of : A → Option Stamp) (now : Time) (items : List A)
    {pairs : List (A × Time)} (pair : A × Time)
    → dated stamp_of now items ≡ ok pairs
    → Memᴰ pair pairs
    → Memᴰ pair.0 items × (parse_timestamp (stamp_of pair.0) ≡ ok (some pair.1)) × (pair.1 ≤ now)
unfolding dated
dated-mem stamp_of now [] pair h m = elim (rw (sym (ok_inj h)) at m) [ ]
dated-mem stamp_of now (item ∷ rest) pair h m =
    let (time, parsed, h1) = bind-ok (parse_timestamp (stamp_of item)) h in
    let (others, e, h2) = bind-ok (dated stamp_of now rest) h1 in
    let own = keep (λ pair. leb pair.1 now) (pair_with item time []) in
    elim (append-cases own others (rw (sym (ok_inj h2)) at m)) [
      | inl k ↦
          let (j, early) = mem_keep (λ pair. leb pair.1 now) (pair_with item time []) k in
          let (same, at) = pair_with-nil item time j in
          (
            Memᴰ.head same,
            subst (λ a. parse_timestamp (stamp_of a) ≡ ok (some (pair.1))) (sym same)
                (parsed ∙ ap ok at),
            leb→le (pair.1) now early,
          )
      | inr k ↦ let (j, q, early) = dated-mem stamp_of now rest pair e k in (Memᴰ.tail j, q, early)
    ]

skip_second : {A : Type 0} {a x y : A} {xs : List A} → Memᴰ a (x ∷ xs) → Memᴰ a (x ∷ y ∷ xs)
skip_second (Memᴰ.head e) = Memᴰ.head e
skip_second (Memᴰ.tail m) = Memᴰ.tail (Memᴰ.tail m)

latest_from-mem :
    {A : Type 0} (best : A × Time) (pairs : List (A × Time))
    → Memᴰ (latest_from best pairs) (best ∷ pairs)
unfolding latest_from
latest_from-mem best [] = Memᴰ.head refl
latest_from-mem best (pair ∷ rest) = elim (Bool-cases (ltb best.1 pair.1)) [
  | inl e ↦ rw e (Memᴰ.tail (latest_from-mem pair rest))
  | inr e ↦ rw e (skip_second (latest_from-mem best rest))
]

latest-mem :
    {A : Type 0} (pairs : List (A × Time)) {pair : A × Time}
    → latest pairs ≡ some pair
    → Memᴰ pair pairs
latest-mem [] h = ground arith
latest-mem (first ∷ rest) h =
    subst (λ p. Memᴰ p (first ∷ rest)) (some_inj h) (latest_from-mem first rest)

-- The run behind a fresh source.
pub record IsRecentSuccess (source : Source) (max_stale : ℕ) (now : Time) (run : Run) : Type 0 where
  pub succeeded : is_success run.status ≡ true
  pub completed : Time
  pub stamped : parse_timestamp run.completed_at ≡ ok (some completed)
  pub not_later : completed ≤ now
  pub recent :
      now ≤ completed + fresh_boundary_minutes source.expected_cadence_minutes max_stale * minute

latest_success_run-found :
    (runs : List Run) (now : Time) {run : Run} {time : Time}
    → latest_success_run runs now ≡ ok (some (run, time))
    → Memᴰ run runs
      × (is_success run.status ≡ true)
      × (parse_timestamp run.completed_at ≡ ok (some time))
      × (time ≤ now)
unfolding latest_success_run latest_run
latest_success_run-found runs now h =
    let successes = keep (λ run. is_success run.status) runs in
    let (pairs, e, h1) = bind-ok (dated (λ run. run.completed_at) now successes) h in
    let (m, parsed, early) =
      dated-mem (λ run. run.completed_at) now successes _ e (latest-mem pairs (ok_inj h1)) in
    let (listed, succeeded) = mem_keep (λ run. is_success run.status) runs m in
    (listed, succeeded, parsed, early)

fresh_cases :
    (source : Source) (max_stale : ℕ) (now : Time) (checked success : Option (Run × Time))
    → automated_status source max_stale now checked success ≡ is_fresh
    → (source.enabled ≡ true)
      × ((pair : Run × Time) × (success ≡ some pair)
          × (now
              ≤ pair.1 + fresh_boundary_minutes source.expected_cadence_minutes max_stale * minute))
unfolding automated_status clock_status
fresh_cases source max_stale now none success h = ground arith
fresh_cases source max_stale now (some checked) none h = ground arith
fresh_cases source max_stale now (some checked) (some (run, time)) h =
    (ground arith, ((run, time), refl, ground arith))

-- An automated source is reported fresh only if it is enabled and one of its runs succeeded, no
-- later than now and within the fresh boundary: no future-dated run makes it fresh.
pub evaluate_automated_health-fresh :
    (source : Source) (max_stale : ℕ) (runs : List Run) (now : Time) (health : SourceHealth)
    → evaluate_automated_health source max_stale runs now ≡ ok health
    → health.status ≡ is_fresh
    → (source.enabled ≡ true)
      × ((run : Run) × Memᴰ run runs × IsRecentSuccess source max_stale now run)
unfolding evaluate_automated_health automated_health
evaluate_automated_health-fresh source max_stale runs now health h is =
    let (checked, _, h1) = bind-ok (latest_run runs now) h in
    let (success, e, h2) = bind-ok (latest_success_run runs now) h1 in
    let (enabled, behind) =
      fresh_cases source max_stale now checked success
        (ap (λ part. part.status) (ok_inj h2) ∙ is) in
    let (pair, found, recent) = behind in
    let (listed, succeeded, parsed, early) = latest_success_run-found runs now (e ∙ ap ok found) in
    (
      enabled,
      (
        pair.0,
        listed,
        record {
          succeeded = succeeded;
          completed = pair.1;
          stamped = parsed;
          not_later = early;
          recent = recent;
        },
      ),
    )
