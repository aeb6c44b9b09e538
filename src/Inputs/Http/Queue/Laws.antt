-- ===== src/Inputs/Http/Queue/Laws.antt =====
-- What every sequence of requests and of ends of requests keeps, at whatever times they come.
use signalk_activecaptain_re.Base.{
  ℕ, ◌+◌, ◌-◌, ◌≤◌, ◌<◌, ◌≡◌, refl, sym, ap, ◌∙◌, max, suc, Bool, true, false, ◌&&◌, List, [], ◌∷◌,
  ◌++◌, leb, ltb, length, length-append, arith, ◌⊎◌, inl, inr, Bool-cases,
}
use mathlib.Core.Path.{subst}
use mathlib.Core.List.{append_assoc, append-nil}
use signalk_activecaptain_re.Inputs.Http.Queue.{RequestQueue, start_next, pump, acquire, release}

-- What happens to a queue, with the time that the clock shows.
pub data Call : Type 0 where
  request : ℕ → ℕ → Call
  finish : ℕ → Call

abbrev pub requested : List Call → List ℕ
requested [] = []
requested (request now id ∷ cs) = id ∷ requested cs
requested (finish now ∷ cs) = requested cs

abbrev pub start_order : List (ℕ × ℕ) → List ℕ
start_order [] = []
start_order ((id, due) ∷ ts) = id ∷ start_order ts

-- Each timer is due `gap` or more after the one before it, the first at `from` or later, and `limit`
-- is `gap` or more after the last.
abbrev pub Spaced : ℕ → ℕ → ℕ → List (ℕ × ℕ) → Type 0
Spaced gap from limit [] = from ≤ limit
Spaced gap from limit ((id, due) ∷ ts) = (from ≤ due) × Spaced gap (due + gap) limit ts

abbrev single : List ℕ → Bool
single [] = true
single (x ∷ []) = true
single (x ∷ y ∷ ys) = false

single_rest : (x : ℕ) (xs : List ℕ) → single (x ∷ xs) ≡ true → xs ≡ []
single_rest x [] h = refl
single_rest x (y ∷ ys) h = ground (arith, h)

Spaced-append :
    (gap from limit id due : ℕ) (ts : List (ℕ × ℕ))
    → Spaced gap from limit ts
    → limit ≤ due
    → Spaced gap from (due + gap) (ts ++ ((id, due) ∷ []))
Spaced-append gap from limit id due [] h l = (omega arith, omega arith)
Spaced-append gap from limit id due ((j, d) ∷ ts) h l =
    (h.0, Spaced-append gap (d + gap) limit id due ts h.1 l)

start_order-append :
    (id due : ℕ) (ts : List (ℕ × ℕ))
    → start_order (ts ++ ((id, due) ∷ [])) ≡ start_order ts ++ (id ∷ [])
start_order-append id due [] = refl
start_order-append id due ((j, d) ∷ ts) = ap (◌∷◌ j) (start_order-append id due ts)

abbrev pub empty_queue : RequestQueue
empty_queue = record { active = 0; next_allowed_start = 0; waiting = []; timers = [] }

abbrev pub finished : List Call → ℕ
finished [] = 0
finished (request now id ∷ cs) = finished cs
finished (finish now ∷ cs) = suc (finished cs)

module _ (max_concurrency min_delay : ℕ) where
  -- A queue that has had these requests, of which `ended` that it had started have ended: it starts
  -- them in their order, `min_delay` apart; `active` is the number of those started and not ended,
  -- which is `max_concurrency` at most; and it holds one back only when there are that many.
  pub record IsServing (requests : List ℕ) (ended : ℕ) (q : RequestQueue) : Type 0 where
    pub in_order : start_order q.timers ++ q.waiting ≡ requests
    pub spaced : Spaced min_delay 0 q.next_allowed_start q.timers
    pub counted : q.active + ended ≡ length q.timers
    pub bounded : length q.timers ≤ ended + max_concurrency
    pub busy : (q.waiting ≡ []) ⊎ (ended + max_concurrency ≤ length q.timers)

  start_next-IsServing :
      (now ended : ℕ) (requests waiting : List ℕ) (q : RequestQueue)
      → start_order q.timers ++ waiting ≡ requests
      → waiting ≡ q.waiting
      → Spaced min_delay 0 q.next_allowed_start q.timers
      → q.active + ended ≡ length q.timers
      → q.active < max_concurrency
      → (single waiting ≡ true) ⊎ (max_concurrency ≤ q.active + 1)
      → IsServing requests ended (start_next max_concurrency min_delay now q waiting)
  unfolding start_next
  start_next-IsServing now ended requests [] q o w s n b r = record {
    in_order = rw (sym w) o;
    spaced = s;
    counted = n;
    bounded = omega arith;
    busy = inl (sym w);
  }
  start_next-IsServing now ended requests (x ∷ xs) q o w s n b r =
      let due = now + max 0 (q.next_allowed_start - now) in
      let more = length-append q.timers ((x, due) ∷ []) in
      record {
        in_order =
            ap (λ l. l ++ xs) (start_order-append x due q.timers)
            ∙ append_assoc (start_order q.timers) (x ∷ []) xs
            ∙ o;
        spaced = Spaced-append min_delay 0 q.next_allowed_start x due q.timers s (omega arith);
        counted = omega (arith, more);
        bounded = omega (arith, more);
        busy = elim r [ inl h ↦ inl (single_rest x xs h) | inr h ↦ inr (omega (arith, more)) ];
      }

  pump-IsServing :
      (now ended : ℕ) (requests : List ℕ) (q : RequestQueue)
      → start_order q.timers ++ q.waiting ≡ requests
      → Spaced min_delay 0 q.next_allowed_start q.timers
      → q.active + ended ≡ length q.timers
      → q.active ≤ max_concurrency
      → (single q.waiting ≡ true) ⊎ (max_concurrency ≤ q.active + 1)
      → IsServing requests ended (pump max_concurrency min_delay now q)
  unfolding pump
  pump-IsServing now ended requests q o s n b r = elim (Bool-cases (leb max_concurrency q.active)) [
    | inl h ↦
        let full : max_concurrency ≤ q.active = ground (arith, h) in
        rw h (record {
          in_order = o;
          spaced = s;
          counted = n;
          bounded = omega arith;
          busy = inr (omega arith);
        })
    | inr h ↦
        rw h (start_next-IsServing now ended requests q.waiting q o refl s n (ground (arith, h)) r)
  ]

  acquire-IsServing :
      (now id ended : ℕ) (requests : List ℕ) (q : RequestQueue)
      → IsServing requests ended q
      → IsServing (requests ++ (id ∷ [])) ended (acquire max_concurrency min_delay now id q)
  unfolding acquire
  acquire-IsServing now id ended requests q i =
      pump-IsServing now ended (requests ++ (id ∷ []))
        (record q { waiting = q.waiting ++ (id ∷ []) })
        (sym (append_assoc (start_order q.timers) q.waiting (id ∷ []))
          ∙ ap (λ l. l ++ (id ∷ [])) i.in_order)
        i.spaced i.counted (omega (arith, i.counted, i.bounded))
        (elim i.busy [
          | inl h ↦ inl (ap (λ l. single (l ++ (id ∷ []))) h)
          | inr h ↦ inr (omega (arith, i.counted))
        ])

  release-IsServing :
      (now ended : ℕ) (requests : List ℕ) (q : RequestQueue)
      → ended < length q.timers
      → IsServing requests ended q
      → IsServing requests (suc ended) (release max_concurrency min_delay now q)
  unfolding release
  release-IsServing now ended requests q a i =
      pump-IsServing now (suc ended) requests (record q { active = q.active - 1 }) i.in_order
        i.spaced (omega (arith, i.counted)) (omega (arith, i.counted, i.bounded))
        (elim i.busy [ inl h ↦ inl (ap single h) | inr h ↦ inr (omega (arith, i.counted)) ])

  unfoldable pub serve : List Call → RequestQueue → RequestQueue
  serve [] q = q
  serve (request now id ∷ cs) q = serve cs (acquire max_concurrency min_delay now id q)
  serve (finish now ∷ cs) q = serve cs (release max_concurrency min_delay now q)

  -- Each end is the end of a request that was started: fewer had ended than were started.
  unfoldable pub ends_started : ℕ → List Call → RequestQueue → Bool
  ends_started ended [] q = true
  ends_started ended (request now id ∷ cs) q =
      ends_started ended cs (acquire max_concurrency min_delay now id q)
  ends_started ended (finish now ∷ cs) q =
      ltb ended (length q.timers)
      && ends_started (suc ended) cs (release max_concurrency min_delay now q)

  serve_from :
      (cs : List Call) (requests : List ℕ) (ended : ℕ) (q : RequestQueue)
      → ends_started ended cs q ≡ true
      → IsServing requests ended q
      → IsServing (requests ++ requested cs) (ended + finished cs) (serve cs q)
  unfolding serve ends_started
  serve_from [] requests ended q e i =
      let none_ended : ended + 0 ≡ ended = omega arith in
      rw none_ended (subst (λ l. IsServing l ended q) (sym (append-nil requests)) i)
  serve_from (request now id ∷ cs) requests ended q e i =
      subst
        (λ l.
          IsServing l (ended + finished cs) (serve cs (acquire max_concurrency min_delay now id q)))
        (append_assoc requests (id ∷ []) (requested cs))
        (serve_from cs (requests ++ (id ∷ [])) ended (acquire max_concurrency min_delay now id q) e
          (acquire-IsServing now id ended requests q i))
  serve_from (finish now ∷ cs) requests ended q e i =
      let next = release max_concurrency min_delay now q in
      let total : ended + suc (finished cs) ≡ suc ended + finished cs = omega arith in
      subst (λ n. IsServing (requests ++ requested cs) n (serve cs next)) (sym total)
        (serve_from cs requests (suc ended) next (ground (arith, e))
          (release-IsServing now ended requests q (ground (arith, e)) i))

  -- From the empty queue, after any calls of `acquire` and `release` at any times of the clock,
  -- where each release ends a request that was started: the requests start in the order in which
  -- they came, each start `min_delay` or more after the one before; `active` is the number of those
  -- that were started and have not ended, which is `max_concurrency` at most; and none waits while
  -- there are fewer.
  pub serve-IsServing :
      (cs : List Call)
      → ends_started 0 cs empty_queue ≡ true
      → IsServing (requested cs) (finished cs) (serve cs empty_queue)
  serve-IsServing cs e =
      let total : 0 + finished cs ≡ finished cs = omega arith in
      subst (λ n. IsServing (requested cs) n (serve cs empty_queue)) total
        (serve_from cs [] 0 empty_queue e (record {
          in_order = refl;
          spaced = omega arith;
          counted = omega arith;
          bounded = omega arith;
          busy = inl refl;
        }))
