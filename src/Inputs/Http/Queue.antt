-- ===== src/Inputs/Http/Queue.antt =====
-- `RequestQueue` of src/inputs/http-client.ts. Times are milliseconds; a request is a number, and the
-- timers that `setTimeout` armed are kept with the request that they start and the time they are due.
pub mod Laws
use signalk_activecaptain_re.Base.{ℕ, ◌+◌, ◌-◌, max, List, [], ◌∷◌, ◌++◌, leb, if◌then◌else◌}

pub record RequestQueue : Type 0 where
  pub active : ℕ
  pub next_allowed_start : ℕ
  pub waiting : List ℕ
  pub timers : List (ℕ × ℕ)

module _ (max_concurrency min_delay : ℕ) where
  unfoldable pub start_next : ℕ → RequestQueue → List ℕ → RequestQueue
  start_next now q [] = q
  start_next now q (next ∷ others) =
      let wait = max 0 (q.next_allowed_start - now) in
      record {
        active = q.active + 1;
        next_allowed_start = (now + wait) + min_delay;
        waiting = others;
        timers = q.timers ++ ((next, now + wait) ∷ []);
      }

  unfoldable pub pump : ℕ → RequestQueue → RequestQueue
  unfolding start_next
  pump now q = if leb max_concurrency q.active then q else start_next now q q.waiting

  unfoldable pub acquire : ℕ → ℕ → RequestQueue → RequestQueue
  unfolding pump
  acquire now request q = pump now (record q { waiting = q.waiting ++ (request ∷ []) })

  -- The end of a task that was started, where `active` is 1 or more; the source's goes below 0 if
  -- nothing was.
  unfoldable pub release : ℕ → RequestQueue → RequestQueue
  unfolding pump
  release now q = pump now (record q { active = q.active - 1 })
