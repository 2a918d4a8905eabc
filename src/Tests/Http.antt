-- ===== src/Tests/Http.antt =====
-- A server that answers at the second attempt.
use logistics_situation_plat.Http.Bounds.{get_bounded, get_first_end}
use logistics_situation_plat.Http.{answered, http_error, retry, read, Reply, judge, get}
use logistics_situation_plat.Base.{
  zero, suc, [], ◌∷◌, Memᴰ, ◌+◌, length, eqb, ◌≢◌, ◌<◌, suc, if◌then◌else◌, ◌≡◌, ◌≤◌, ℕ, arith,
  refl,
}

abbrev replies : ℕ → Reply
replies attempt = if eqb attempt 1 then http_error 503 else answered 200 (1 ∷ 2 ∷ [])

abbrev no_jitter : ℕ → ℕ
no_jitter attempt = 0

get_bounded_example :
    ((get 10 replies no_jitter 3).requests ≤ 3)
    × ((get 10 replies no_jitter 3).requests ≡ suc (length (get 10 replies no_jitter 3).waits))
    × ((wait : ℕ) → Memᴰ wait (get 10 replies no_jitter 3).waits → wait ≤ 30000)
get_bounded_example = get_bounded 10 replies no_jitter 2

first_retried : (j : ℕ) → j < 1 → judge 10 (replies (1 + j)) ≡ retry
unfolding judge read
first_retried zero below = refl
first_retried (suc j) below = absurd (omega arith)

second_answers : judge 10 (replies 2) ≢ retry
unfolding judge read
second_answers h = ground arith

get_first_end_example :
    ((get 10 replies no_jitter 3).ending ≡ judge 10 (replies 2))
    × ((get 10 replies no_jitter 3).requests ≡ 2)
get_first_end_example =
    get_first_end 10 replies no_jitter 3 1 (omega arith) first_retried second_answers
