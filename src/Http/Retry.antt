-- ===== src/Http/Retry.antt =====
-- collectors/http_client.py: ResilientHttpClient.get, from its loop over the attempts on. What an attempt
-- meets on the network is a parameter; the URL, the headers and the hash of a response are left out.
use logistics_situation_plat.Base.{
  length, eqb, ltb, leb, ℕ, zero, suc, List, [], ◌∷◌, if◌then◌else◌, Bool, not, ◌&&◌, ◌||◌, ◌+◌,
  ◌-◌, ◌*◌,
}

-- What `urlopen` gives: an answer with its body, an HTTPError with its code, or a URLError or TimeoutError.
-- Any other exception leaves the call at once and is left out.
pub data Reply : Type 0 where
  answered : ℕ → List ℕ → Reply
  http_error : ℕ → Reply
  unreachable : Reply

pub record HttpResponse : Type 0 where
  pub status : ℕ
  pub body : List ℕ

-- How an attempt ends: the call returns, the call raises, or the loop goes on.
pub data Verdict : Type 0 where
  returned : HttpResponse → Verdict
  response_too_large : Verdict
  http_failure : ℕ → Verdict
  retry : Verdict

-- `response.read(limit)`
unfoldable pub read : ℕ → List ℕ → List ℕ
read zero bytes = []
read (suc limit) [] = []
read (suc limit) (byte ∷ bytes) = byte ∷ read limit bytes

-- A 4xx code other than 408 and 429.
abbrev pub is_final_code : ℕ → Bool
is_final_code code = leb 400 code && ltb code 500 && not (eqb code 408 || eqb code 429)

unfoldable pub judge : ℕ → Reply → Verdict
judge max_response_bytes (answered status body) =
    if ltb max_response_bytes (length (read (max_response_bytes + 1) body))
    then response_too_large
    else returned (record { status = status; body = read (max_response_bytes + 1) body })
judge max_response_bytes (http_error code) =
    if eqb code 304
    then returned (record { status = 304; body = [] })
    else (if is_final_code code then http_failure code else retry)
judge max_response_bytes unreachable = retry

-- `2 ** (attempt - 1)`, in milliseconds
unfoldable pub backoff : ℕ → ℕ
backoff zero = 1000
backoff (suc n) = 2 * backoff n

-- The delay after an attempt, with the random part of at most half a second.
unfoldable pub delay : (ℕ → ℕ) → ℕ → ℕ
delay jitter attempt =
    let wait = backoff (attempt - 1) + jitter attempt in if leb 30000 wait then 30000 else wait

-- How the call ends, the attempts made and the waits between them.
pub record Fetch : Type 0 where
  pub ending : Verdict
  pub requests : ℕ
  pub waits : List ℕ

-- One more attempt before the rest; the wait is there only if another attempt follows.
abbrev pub after : ℕ → Fetch → Fetch
after wait later = record {
  ending = later.ending;
  requests = suc later.requests;
  waits = wait ∷ later.waits;
}

abbrev pub ended : Verdict → Fetch
ended verdict = record { ending = verdict; requests = 1; waits = [] }

-- The end of an attempt that others follow: wait for them, or end the call.
abbrev pub next_or_end : ℕ → Fetch → Verdict → Fetch
next_or_end wait later retry = after wait later
next_or_end wait later verdict = ended verdict

-- The loop from an attempt on, with a number of attempts to come after it. A call that ends in `retry` is
-- one that used up its attempts and raises RuntimeError.
unfoldable pub fetch_loop : ℕ → (ℕ → Reply) → (ℕ → ℕ) → ℕ → ℕ → Fetch
fetch_loop limit reply jitter attempt zero = ended (judge limit (reply attempt))
fetch_loop limit reply jitter attempt (suc left) =
    next_or_end (delay jitter attempt) (fetch_loop limit reply jitter (attempt + 1) left)
      (judge limit (reply attempt))

-- `get` with `attempts`; with none it raises RuntimeError at once.
unfoldable pub get : ℕ → (ℕ → Reply) → (ℕ → ℕ) → ℕ → Fetch
get limit reply jitter zero = record { ending = retry; requests = 0; waits = [] }
get limit reply jitter (suc left) = fetch_loop limit reply jitter 1 left
