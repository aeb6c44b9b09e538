-- ===== src/Plugin/Lifecycle/Balance.antt =====
-- What is acquired and what is released, by the log of the events, in the parts of a start and of a
-- teardown.
use signalk_activecaptain_re.Base.{
  ℕ, ◌+◌, ◌≡◌, Option, none, some, List, [], ◌∷◌, ◌++◌, map, arith, nat_beq, ltb, if◌then◌else◌,
  Option-cases, Bool-cases, inl, inr,
}
use signalk_activecaptain_re.Base.Text.{Text, txt, text_eq}
use signalk_activecaptain_re.Base.JsMap
use signalk_activecaptain_re.Base.JsMap.{JsMap}
use signalk_activecaptain_re.Types.{Fields}
use signalk_activecaptain_re.Inputs.Registry.{InputModule}
use signalk_activecaptain_re.Plugin.World.{
  Event, acquired, released, closed, World, say, called, acquire, open_source, log_failure,
  failure_logged, release,
}
use signalk_activecaptain_re.Plugin.OutputRegistry.{
  OutputHandle, OutputModule, Starting, start_module, start_all,
}
use signalk_activecaptain_re.Plugin.Lifecycle.{
  AggregateSource, create_sources, create_source, close_sources, close_aggregate, stop_handles,
  stop_monitor, stop_runtime, Runtime, MonitorHandle,
}

abbrev pub occurrences : ℕ → List ℕ → ℕ
occurrences n [] = 0
occurrences n (m ∷ ms) = (if nat_beq m n then 1 else 0) + occurrences n ms

abbrev pub acquisitions : ℕ → List Event → ℕ
acquisitions n [] = 0
acquisitions n (acquired m ∷ es) = (if nat_beq m n then 1 else 0) + acquisitions n es
acquisitions n (_ ∷ es) = acquisitions n es

abbrev pub releases : ℕ → List Event → ℕ
releases n [] = 0
releases n (released m ∷ es) = (if nat_beq m n then 1 else 0) + releases n es
releases n (_ ∷ es) = releases n es

-- Every number given out was acquired once, no other ever, and what is not released is held.
pub record Balance (n : ℕ) (held : List ℕ) (w : World) : Type 0 where
  pub once : acquisitions n w.events ≡ (if ltb n w.created then 1 else 0)
  pub kept : releases n w.events + occurrences n held ≡ acquisitions n w.events

pub occurrences-append :
    (n : ℕ) (xs ys : List ℕ) → occurrences n (xs ++ ys) ≡ occurrences n xs + occurrences n ys
occurrences-append n [] ys = ground arith
occurrences-append n (x ∷ xs) ys = ground (arith, occurrences-append n xs ys)

pub acquire-Balance :
    (n : ℕ) (held : List ℕ) (w : World)
    → Balance n held w
    → Balance n (w.created ∷ held) (acquire w)
acquire-Balance n held w b = record { once = ground (arith, b.once); kept = ground (arith, b.kept) }

pub release-Balance :
    (fails : ℕ → Option Text) (what : Text) (n m : ℕ) (held : List ℕ) (w : World)
    → Balance n (m ∷ held) w
    → Balance n held (release fails what m w)
unfolding release
release-Balance fails what n m held w b = elim (Option-cases (fails w.calls)) [
  | inl e ↦ rw e (record { once = ground (arith, b.once); kept = ground (arith, b.kept) })
  | inr (reason, e) ↦ rw e (record { once = ground (arith, b.once); kept = ground (arith, b.kept) })
]

abbrev pub numbers : List OutputHandle → List ℕ
numbers hs = map (λ h. h.number) hs

abbrev monitor_number : Option MonitorHandle → List ℕ
monitor_number none = []
monitor_number (some m) = m.number ∷ []

abbrev pub parts : {S : Type 0} → Runtime S → List ℕ
parts r = monitor_number r.monitor ++ (numbers r.handles ++ [])

-- The handles and the monitor that a runtime holds.
abbrev pub held : {S : Type 0} → Option (Runtime S) → List ℕ
held none = []
held (some r) = parts r

occurrences-numbers :
    (n : ℕ) (hs ks : List OutputHandle)
    → occurrences n (numbers (hs ++ ks)) ≡ occurrences n (numbers hs) + occurrences n (numbers ks)
occurrences-numbers n [] ks = ground arith
occurrences-numbers n (h ∷ hs) ks = ground (arith, occurrences-numbers n hs ks)

pub say_error-Balance :
    (n : ℕ) (xs : List ℕ) (what reason : Text) (w : World)
    → Balance n xs w
    → Balance n xs (log_failure what reason (called w))
say_error-Balance n xs what reason w b = record {
  once = ground (arith, b.once);
  kept = ground (arith, b.kept);
}

module _ (fails : ℕ → Option Text) (n : ℕ) where
  stop_handles-Balance :
      (hs : List OutputHandle) (rest : List ℕ) (w : World)
      → Balance n (numbers hs ++ rest) w
      → Balance n rest (stop_handles fails hs w)
  unfolding stop_handles
  stop_handles-Balance [] rest w b = b
  stop_handles-Balance (h ∷ hs) rest w b =
      stop_handles-Balance hs rest (release fails (txt "Cannot stop an output") h.number w)
        (release-Balance fails (txt "Cannot stop an output") n h.number (numbers hs ++ rest) w b)

  close_sources-Balance :
      {S : Type 0} (source_fails : ℕ → Option Text) (xs : List ℕ) (sources : JsMap Text (ℕ × S))
      (w : World)
      → Balance n xs w
      → Balance n xs (close_sources source_fails sources w).1
  unfolding close_sources
  close_sources-Balance source_fails xs [] w b = b
  close_sources-Balance source_fails xs ((slug, (m, s)) ∷ rest) w b =
      let after = say (closed m) (called w) in
      let c : Balance n xs after = record { once = b.once; kept = b.kept } in
      elim (Option-cases (source_fails w.calls)) [
        | inl e ↦ rw (e, close_sources) (close_sources-Balance source_fails xs rest after c)
        | inr (reason, e) ↦ rw (e, close_sources) c
      ]

  failure_logged-Balance :
      (xs : List ℕ) (what : Text) (o : Option Text) (w : World)
      → Balance n xs w
      → Balance n xs (failure_logged what o w)
  failure_logged-Balance xs what none w b = b
  failure_logged-Balance xs what (some reason) w b = record { once = b.once; kept = b.kept }

  close_aggregate-Balance :
      {S : Type 0} (source_fails : ℕ → Option Text) (xs : List ℕ) (source : AggregateSource S)
      (w : World)
      → Balance n xs w
      → Balance n xs (close_aggregate source_fails source w)
  unfolding close_aggregate
  close_aggregate-Balance source_fails xs source w b =
      let ended = close_sources source_fails source.sources w in
      failure_logged-Balance xs (txt "Cannot close the POI source") ended.0 ended.1
        (close_sources-Balance source_fails xs source.sources w b)

  pub stop_runtime-Balance :
      {S : Type 0} (source_fails : ℕ → Option Text) (r : Option (Runtime S)) (w : World)
      → Balance n (held r) w
      → Balance n [] (stop_runtime fails source_fails r w)
  stop_runtime-Balance source_fails none w b = b
  stop_runtime-Balance source_fails (some r) w b =
      close_aggregate-Balance source_fails [] r.source
        (stop_handles fails r.handles (stop_monitor fails r.monitor w))
        (stop_handles-Balance r.handles [] (stop_monitor fails r.monitor w)
          (monitor_Balance r.monitor (numbers r.handles ++ []) w b))
    where
      monitor_Balance :
          (m : Option MonitorHandle) (rest : List ℕ) (w : World)
          → Balance n (monitor_number m ++ rest) w
          → Balance n rest (stop_monitor fails m w)
      monitor_Balance none rest w b = b
      monitor_Balance (some m) rest w b =
          release-Balance fails (txt "Cannot stop the position monitor") n m.number rest w b

  create_sources-Balance :
      {S : Type 0} (source_fails : ℕ → Option Text) (xs : List ℕ) (ms : List (InputModule S))
      (sources : JsMap Text (ℕ × S)) (w : World)
      → Balance n xs w
      → Balance n xs (create_sources source_fails ms sources w).world
  unfolding create_sources
  create_sources-Balance source_fails xs [] sources w b = b
  create_sources-Balance source_fails xs (m ∷ ms) sources w b =
      elim (Option-cases (source_fails w.calls)) [
        | inl e ↦
            rw (e, create_sources)
              (create_sources-Balance source_fails xs ms
                (JsMap.set m.id (w.sources, m.source) sources) (open_source w)
                (record { once = b.once; kept = b.kept }))
        | inr (reason, e) ↦ rw (e, create_sources) (record { once = b.once; kept = b.kept })
      ]

  pub create_source-Balance :
      {S : Type 0} (source_fails : ℕ → Option Text) (xs : List ℕ) (ms : List (InputModule S))
      (w : World)
      → Balance n xs w
      → Balance n xs (create_source source_fails ms w).world
  unfolding create_source
  create_source-Balance source_fails xs [] w b = b
  create_source-Balance source_fails xs (m ∷ ms) w b =
      create_sources-Balance source_fails xs (m ∷ ms) [] w b

  module _ {N : Type 0} (config : Fields N) where
    -- What the outputs started so far hold, before the rest.
    abbrev pub starting : List ℕ → Starting → List ℕ
    starting rest s = numbers s.outputs.handles ++ rest

    start_module-Balance :
        (m : OutputModule N) (rest : List ℕ) (s : Starting)
        → Balance n (starting rest s) s.world
        → Balance n
            (starting rest (start_module fails config m s))
            (start_module fails config m s).world
    unfolding start_module
    start_module-Balance m rest s b = elim (Option-cases (fails s.world.calls)) [
      | inr (reason, e) ↦
          rw (e, start_module)
            (say_error-Balance n (starting rest s) (txt "Cannot start output " ++ m.id) reason
              s.world b)
      | inl e ↦
          rw (e, start_module)
            (let more = acquire-Balance n (starting rest s) s.world b in
              record {
                once = more.once;
                kept = ground (
                  arith,
                  more.kept,
                  occurrences-append n (numbers s.outputs.handles) rest,
                  occurrences-append n
                      (numbers (
                        s.outputs.handles
                        ++ (record {
                          number = s.world.created;
                          position_scan = m.position_scan config;
                        }
                            ∷ [])))
                      rest,
                  occurrences-numbers n s.outputs.handles (
                      record { number = s.world.created; position_scan = m.position_scan config }
                      ∷ []),
                );
              })
    ]

    pub start_all-Balance :
        (ms : List (OutputModule N)) (rest : List ℕ) (s : Starting)
        → Balance n (starting rest s) s.world
        → Balance n
            (starting rest (start_all fails config ms s))
            (start_all fails config ms s).world
    unfolding start_all
    start_all-Balance [] rest s b = b
    start_all-Balance (m ∷ ms) rest s b = elim (Bool-cases (m.is_enabled config)) [
      | inl e ↦
          rw (e, start_all)
            (start_all-Balance ms rest (start_module fails config m s)
              (start_module-Balance m rest s b))
      | inr e ↦ rw (e, start_all) (start_all-Balance ms rest s b)
    ]
