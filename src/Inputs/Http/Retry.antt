-- ===== src/Inputs/Http/Retry.antt =====
-- `createHttpClient`'s `fetchWithRetry` in src/inputs/http-client.ts. What the network does is a
-- parameter: `answer i` is how the request of attempt `i` ends, `closed i` whether the client is
-- closed when attempt `i` fails, `clock i` the time then and `random i` what `Math.random` gives.
-- The cancel of a response's body is taken to succeed.
pub mod Laws
use signalk_activecaptain_re.Base.{
  ℕ, zero, suc, ◌+◌, ◌-◌, Bool, true, false, ◌&&◌, ◌||◌, not, Option, none, some, List, [], ◌∷◌,
  any, leb, ltb, nat_beq, if◌then◌else◌,
}
use signalk_activecaptain_re.Base.Text.{Text}
use signalk_activecaptain_re.Base.Float.{Floats, lit}

pub record RateLimitOptions (N : Type 0) : Type 0 where
  pub max_concurrency : ℕ
  pub min_delay : ℕ
  pub backoff_base : N
  pub max_backoff : N
  pub max_retries : ℕ
  pub max_retry_after : N

-- A response by its status and its Retry-After header, or a rejection.
pub data Answer : Type 0 where
  response : ℕ → Option Text → Answer
  rejection : Text → Answer

abbrev pub retryable_statuses : List ℕ
retryable_statuses = 429 ∷ 502 ∷ 503 ∷ 504 ∷ []

unfoldable pub is_retryable : ℕ → Bool
is_retryable status = any (λ s. nat_beq s status) retryable_statuses

-- The end of the loop with an answer to give back or throw, or the wait before the next attempt.
pub data Attempt (N : Type 0) : Type 0 where
  ends : Answer → Attempt N
  waits : N → Attempt N

abbrev pub add_wait : {N : Type 0} → N → Option (Answer × List N) → Option (Answer × List N)
add_wait w none = none
add_wait w (some (a, ws)) = some (a, w ∷ ws)

module _ {N : Type 0} ⦃F : Floats N⦄ (number date_parse : Text → N) (trim : Text → Text)
    (random clock : ℕ → N) (answer : ℕ → Answer) (closed : ℕ → Bool)
    (limits : RateLimitOptions N) where
  unfoldable pub parse_retry_after : N → Option Text → Option N
  parse_retry_after now none = none
  parse_retry_after now (some header) =
      let seconds = number header in
      let date = date_parse header in
      elim (trim header) [
        | [] ↦ none
        | c ∷ cs ↦
            if F.is_finite seconds
            then some (F.max (lit 0) (F.mul seconds (lit 1000)))
            else if F.is_finite date
            then some (F.max (lit 0) (F.sub date now))
            else none
      ]

  unfoldable pub backoff_delay : ℕ → N → N → N
  backoff_delay attempt base max =
      F.mul (random attempt) (F.min max (F.mul base (F.pow (lit 2) (lit attempt))))

  -- The wait after a retryable response.
  unfoldable pub response_wait : ℕ → ℕ → Option Text → N
  unfolding parse_retry_after backoff_delay
  response_wait attempt status header =
      let honors_retry_after = nat_beq status 429 || nat_beq status 503 in
      let retry_after =
        if honors_retry_after then parse_retry_after (clock attempt) header else none in
      elim retry_after [
        | some ms ↦ F.max limits.backoff_base (F.min ms limits.max_retry_after)
        | none ↦ backoff_delay attempt limits.backoff_base limits.max_backoff
      ]

  -- What one pass of the loop makes of how its request ended.
  unfoldable pub attempt_end : ℕ → Answer → Attempt N
  unfolding is_retryable response_wait backoff_delay
  attempt_end attempt (response status header) =
      if not (is_retryable status) || leb limits.max_retries attempt
      then ends (response status header)
      else waits (response_wait attempt status header)
  attempt_end attempt (rejection reason) =
      if closed attempt || leb limits.max_retries attempt
      then ends (rejection reason)
      else waits (backoff_delay attempt limits.backoff_base limits.max_backoff)

  -- The loop from an attempt on: its answer and the waits that it asked `sleep` for. `none` is a
  -- lack of fuel.
  unfoldable pub retry_from : ℕ → ℕ → Option (Answer × List N)
  unfolding attempt_end
  retry_from zero attempt = none
  retry_from (suc fuel) attempt =
      let rest = retry_from fuel (suc attempt) in
      elim (attempt_end attempt (answer attempt)) [
        | ends a ↦ some (a, [])
        | waits w ↦ add_wait w rest
      ]

  unfoldable pub fetch_with_retry : Option (Answer × List N)
  unfolding retry_from
  fetch_with_retry = retry_from (limits.max_retries + 1) 0
