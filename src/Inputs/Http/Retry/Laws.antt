-- ===== src/Inputs/Http/Retry/Laws.antt =====
-- Which attempt ends the retries.
use signalk_activecaptain_re.Base.{
  ℕ, zero, suc, ◌+◌, ◌≤◌, ◌<◌, ◌≡◌, refl, ap, ◌∙◌, Bool, true, false, not, Option, some, List, [],
  ◌∷◌, leb, arith, inl, inr, ◌⊎◌, Bool-cases, length, nat_beq,
}
use mathlib.Core.Path.{subst}
use signalk_activecaptain_re.Base.Text.{Text}
use signalk_activecaptain_re.Base.Float.{Floats}
use signalk_activecaptain_re.Inputs.Http.Retry.{
  RateLimitOptions, Answer, response, rejection, is_retryable, Attempt, ends, waits, attempt_end,
  response_wait, backoff_delay, add_wait, retry_from, fetch_with_retry,
}

-- An answer that leads to another attempt where attempts are left: a status that is retried, or a
-- rejection while the client is open.
abbrev pub asks_again : Bool → Answer → Bool
asks_again closed (response status header) = is_retryable status
asks_again closed (rejection reason) = not closed

module _ {N : Type 0} ⦃F : Floats N⦄ (number date_parse : Text → N) (trim : Text → Text)
    (random clock : ℕ → N) (answer : ℕ → Answer) (closed : ℕ → Bool)
    (limits : RateLimitOptions N) where
  abbrev once : ℕ → Answer → Attempt N
  once = attempt_end number date_parse trim random clock answer closed limits

  abbrev from : ℕ → ℕ → Option (Answer × List N)
  from = retry_from number date_parse trim random clock answer closed limits

  -- The attempt that the loop started at `attempt` ends with, and its result.
  pub record EndsWith (attempt n : ℕ) (result : Option (Answer × List N)) : Type 0 where
    pub waits_of : List N
    pub result_is : result ≡ some (answer n, waits_of)
    pub one_wait_each : length waits_of + attempt ≡ n
    pub bounded : n ≤ limits.max_retries
    pub earlier : (i : ℕ) → attempt ≤ i → i < n → asks_again (closed i) (answer i) ≡ true
    pub last : (asks_again (closed n) (answer n) ≡ false) ⊎ (n ≡ limits.max_retries)

  once-ends :
      (attempt : ℕ) (a : Answer)
      → (asks_again (closed attempt) a ≡ false) ⊎ (attempt ≡ limits.max_retries)
      → once attempt a ≡ ends a
  unfolding attempt_end
  once-ends attempt (response status header) h = ground (arith, h)
  once-ends attempt (rejection reason) h = ground (arith, h)

  once-waits :
      (attempt : ℕ) (a : Answer)
      → attempt < limits.max_retries
      → asks_again (closed attempt) a ≡ true
      → (w : N) × (once attempt a ≡ waits w)
  unfolding attempt_end
  once-waits attempt (response status header) b h = (
    response_wait number date_parse trim random clock answer closed limits attempt status header,
    ground (arith, h),
  )
  once-waits attempt (rejection reason) b h = (
    backoff_delay number date_parse trim random clock answer closed limits attempt
        limits.backoff_base limits.max_backoff,
    ground (arith, h),
  )

  from-ends :
      (fuel attempt : ℕ)
      → once attempt (answer attempt) ≡ ends (answer attempt)
      → from (suc fuel) attempt ≡ some (answer attempt, [])
  unfolding retry_from
  from-ends fuel attempt e = rw (e, retry_from) refl

  from-waits :
      (fuel attempt : ℕ) (w : N)
      → once attempt (answer attempt) ≡ waits w
      → from (suc fuel) attempt ≡ add_wait w (from fuel (suc attempt))
  unfolding retry_from
  from-waits fuel attempt w e = rw (e, retry_from) refl

  stops_here :
      (fuel attempt : ℕ)
      → attempt ≤ limits.max_retries
      → (asks_again (closed attempt) (answer attempt) ≡ false) ⊎ (attempt ≡ limits.max_retries)
      → EndsWith attempt attempt (from (suc fuel) attempt)
  stops_here fuel attempt b h = record {
    waits_of = [];
    result_is = from-ends fuel attempt (once-ends attempt (answer attempt) h);
    one_wait_each = omega arith;
    bounded = b;
    earlier = λ i l g. ground arith;
    last = h;
  }

  earlier_from :
      (attempt n : ℕ)
      → asks_again (closed attempt) (answer attempt) ≡ true
      → ((i : ℕ) → suc attempt ≤ i → i < n → asks_again (closed i) (answer i) ≡ true)
      → (i : ℕ) → attempt ≤ i
      → i < n
      → asks_again (closed i) (answer i) ≡ true
  earlier_from attempt n h e i l g = elim (Bool-cases (nat_beq i attempt)) [
    | inl q ↦ subst (λ j. asks_again (closed j) (answer j) ≡ true) (ground (arith, q)) h
    | inr q ↦ e i (ground (arith, q)) g
  ]

  goes_on :
      (fuel attempt n : ℕ)
      → attempt < limits.max_retries
      → asks_again (closed attempt) (answer attempt) ≡ true
      → EndsWith (suc attempt) n (from fuel (suc attempt))
      → EndsWith attempt n (from (suc fuel) attempt)
  goes_on fuel attempt n b h e =
      let (w, o) = once-waits attempt (answer attempt) b h in
      record {
        waits_of = w ∷ e.waits_of;
        result_is = from-waits fuel attempt w o ∙ ap (add_wait w) e.result_is;
        one_wait_each = let l = e.one_wait_each in omega arith;
        bounded = e.bounded;
        earlier = earlier_from attempt n h e.earlier;
        last = e.last;
      }

  from-EndsWith :
      (fuel attempt : ℕ)
      → attempt ≤ limits.max_retries
      → limits.max_retries < fuel + attempt
      → (n : ℕ) × EndsWith attempt n (from fuel attempt)
  from-EndsWith zero attempt b f = ground arith
  from-EndsWith (suc fuel) attempt b f =
      elim (Bool-cases (asks_again (closed attempt) (answer attempt))) [
        | inr h ↦ (attempt, stops_here fuel attempt b (inl h))
        | inl h ↦ elim (Bool-cases (leb limits.max_retries attempt)) [
          | inl m ↦ (attempt, stops_here fuel attempt b (inr (ground (arith, m))))
          | inr m ↦
              let (n, e) = from-EndsWith fuel (suc attempt) (ground (arith, m)) (omega arith) in
              (n, goes_on fuel attempt n (ground (arith, m)) h e)
        ]
      ]

  -- The fuel of `max_retries + 1` attempts is enough: `fetch` gives an answer. It is the answer of
  -- the first attempt that is not to be retried, or that of attempt `max_retries`; each attempt
  -- before it was to be retried, and there is one wait for each of them.
  pub fetch_with_retry_total :
      (n : ℕ) × EndsWith 0 n
        (fetch_with_retry number date_parse trim random clock answer closed limits)
  unfolding fetch_with_retry
  fetch_with_retry_total = from-EndsWith (limits.max_retries + 1) 0 (omega arith) (omega arith)
