-- ===== src/Http/Bounds.antt =====
-- collectors/http_client.py: what ResilientHttpClient.get is bounded by, and what it returns.
use logistics_situation_plat.Http.Retry.{
  get, next_or_end, response_too_large, http_failure, ended, returned, after, judge, Fetch,
  fetch_loop, retry, Reply, delay, Verdict,
}
use logistics_situation_plat.Base.{
  ◌∙◌, Memᴰ-cases, ap, sym, inr, subst, inl, Memᴰ, ◌≢◌, ◌<◌, length, ◌⊎◌, ◌+◌, ◌≤◌, ◌≡◌, ℕ, zero,
  suc, arith, refl,
}

retry? : (verdict : Verdict) → (verdict ≡ retry) ⊎ (verdict ≢ retry)
retry? (returned response) = inr (λ h. ground arith)
retry? response_too_large = inr (λ h. ground arith)
retry? (http_failure code) = inr (λ h. ground arith)
retry? retry = inl refl

no_next :
    (wait : ℕ) (later : Fetch) (verdict : Verdict)
    → verdict ≢ retry
    → next_or_end wait later verdict ≡ ended verdict
no_next wait later (returned response) h = refl
no_next wait later response_too_large h = refl
no_next wait later (http_failure code) h = refl
no_next wait later retry h = absurd (h refl)

delay_short : (jitter : ℕ → ℕ) (attempt : ℕ) → delay jitter attempt ≤ 30000
unfolding delay
delay_short jitter attempt = ground arith

module _ (limit : ℕ) (reply : ℕ → Reply) (jitter : ℕ → ℕ) where
  loop_retry :
      (attempt left : ℕ)
      → judge limit (reply attempt) ≡ retry
      → fetch_loop limit reply jitter attempt (suc left)
        ≡ after (delay jitter attempt) (fetch_loop limit reply jitter (attempt + 1) left)
  unfolding fetch_loop
  loop_retry attempt left h = rw (h, fetch_loop) refl

  loop_ended :
      (attempt left : ℕ)
      → judge limit (reply attempt) ≢ retry
      → fetch_loop limit reply jitter attempt left ≡ ended (judge limit (reply attempt))
  unfolding fetch_loop
  loop_ended attempt zero h = refl
  loop_ended attempt (suc left) h = no_next _ _ (judge limit (reply attempt)) h

  abbrev IsBounded : ℕ → Fetch → Type 0
  IsBounded attempts fetch =
      (fetch.requests ≤ attempts)
      × (fetch.requests ≡ suc (length fetch.waits))
      × ((wait : ℕ) → Memᴰ wait fetch.waits → wait ≤ 30000)

  waits_of_loop :
      (attempt left : ℕ) → IsBounded (suc left) (fetch_loop limit reply jitter attempt left)
  unfolding fetch_loop
  waits_of_loop attempt zero = (omega arith, refl, λ wait m. elim m [ ])
  waits_of_loop attempt (suc left) = elim (retry? (judge limit (reply attempt))) [
    | inl e ↦
        let (few, waited, short) = waits_of_loop (attempt + 1) left in
        subst (IsBounded (suc (suc left))) (sym (loop_retry attempt left e)) (
          omega arith,
          ap suc waited,
          λ wait m. elim (Memᴰ-cases m) [
            | inl q ↦ rw q (delay_short jitter attempt)
            | inr n ↦ short wait n
          ],
        )
    | inr free ↦
        subst (IsBounded (suc (suc left))) (sym (loop_ended attempt (suc left) free))
          (omega arith, refl, λ wait m. elim m [ ])
  ]

  first_ends :
      (attempt left k n : ℕ)
      → n ≡ attempt + k
      → k ≤ left
      → ((j : ℕ) → j < k → judge limit (reply (attempt + j)) ≡ retry)
      → judge limit (reply n) ≢ retry
      → ((fetch_loop limit reply jitter attempt left).ending ≡ judge limit (reply n))
        × ((fetch_loop limit reply jitter attempt left).requests ≡ suc k)
  first_ends attempt left zero n e le earlier free =
      let same : n ≡ attempt = omega arith in
      let free' = subst (λ each. judge limit (reply each) ≢ retry) same free in
      let q = loop_ended attempt left free' in
      (
        ap (λ fetch. fetch.ending) q ∙ ap (λ each. judge limit (reply each)) (sym same),
        ap (λ fetch. fetch.requests) q,
      )
  first_ends attempt zero (suc k) n e le earlier free = absurd (omega arith)
  first_ends attempt (suc left) (suc k) n e le earlier free =
      let start : attempt + 0 ≡ attempt = omega arith in
      let now = subst (λ each. judge limit (reply each) ≡ retry) start (earlier 0 (omega arith)) in
      let q = loop_retry attempt left now in
      let (ending, requests) =
        first_ends (attempt + 1) left k n (omega arith) (omega arith)
          (λ j below.
            let next : attempt + suc j ≡ (attempt + 1) + j = omega arith in
            subst (λ each. judge limit (reply each) ≡ retry) next (earlier (suc j) (omega arith)))
          free in
      (ap (λ fetch. fetch.ending) q ∙ ending, ap (λ fetch. fetch.requests) q ∙ ap suc requests)

-- The call makes no more requests than attempts, waits once between each two of them, and never longer
-- than thirty seconds.
pub get_bounded :
    (limit : ℕ) (reply : ℕ → Reply) (jitter : ℕ → ℕ) (left : ℕ)
    → ((get limit reply jitter (suc left)).requests ≤ suc left)
      × ((get limit reply jitter (suc left)).requests
          ≡ suc (length (get limit reply jitter (suc left)).waits))
      × ((wait : ℕ) → Memᴰ wait (get limit reply jitter (suc left)).waits → wait ≤ 30000)
unfolding get
get_bounded limit reply jitter left = waits_of_loop limit reply jitter 1 left

-- The call ends with the first attempt that is no retryable failure, if there is one among its attempts:
-- it makes no request after it.
pub get_first_end :
    (limit : ℕ) (reply : ℕ → Reply) (jitter : ℕ → ℕ) (attempts k : ℕ)
    → k < attempts
    → ((j : ℕ) → j < k → judge limit (reply (1 + j)) ≡ retry)
    → judge limit (reply (1 + k)) ≢ retry
    → ((get limit reply jitter attempts).ending ≡ judge limit (reply (1 + k)))
      × ((get limit reply jitter attempts).requests ≡ suc k)
unfolding get
get_first_end limit reply jitter zero k below earlier free = absurd (omega arith)
get_first_end limit reply jitter (suc left) k below earlier free =
    first_ends limit reply jitter 1 left k (1 + k) refl (omega arith) earlier free
