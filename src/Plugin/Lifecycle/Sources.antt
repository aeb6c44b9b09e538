-- ===== src/Plugin/Lifecycle/Sources.antt =====
-- The sources that runs of the plugin create and close, by the log of the events.
use signalk_activecaptain_re.Base.{
  ℕ, ◌+◌, ◌≡◌, refl, ◌∙◌, Bool, true, false, ◌&&◌, not, Option, none, some, List, [], ◌∷◌, any,
  arith, nat_beq, ltb, if◌then◌else◌, Option-cases, Bool-cases, inl, inr, ◌⊎◌,
}
use signalk_activecaptain_re.Base.Text.{Text, txt, text_eq, text_beq_iff}
use signalk_activecaptain_re.Base.Equality.{◌==◌}
use signalk_activecaptain_re.Base.JsMap
use signalk_activecaptain_re.Base.JsMap.{JsMap}
use signalk_activecaptain_re.Types.{Fields}
use signalk_activecaptain_re.Status.{PluginStatus}
use signalk_activecaptain_re.Inputs.Registry.{InputModule}
use signalk_activecaptain_re.Plugin.World.{
  Event, opened, closed, World, say, called, acquire, open_source, failure_logged, release,
}
use signalk_activecaptain_re.Plugin.OutputRegistry.{
  OutputHandle, OutputModule, Starting, start_module, start_all, start_enabled,
}
use signalk_activecaptain_re.Plugin.Lifecycle.{
  AggregateSource, MonitorHandle, create_sources, create_source, close_sources, stop_handles,
  stop_monitor, report_outputs, start_monitor,
}
use signalk_activecaptain_re.Plugin.Lifecycle.Balance.{occurrences}

abbrev pub openings : ℕ → List Event → ℕ
openings n [] = 0
openings n (opened m ∷ es) = (if nat_beq m n then 1 else 0) + openings n es
openings n (_ ∷ es) = openings n es

abbrev pub closings : ℕ → List Event → ℕ
closings n [] = 0
closings n (closed m ∷ es) = (if nat_beq m n then 1 else 0) + closings n es
closings n (_ ∷ es) = closings n es

-- What a world says of source `n`: how many sources there were, and how often it was opened and
-- closed.
pub record Tally : Type 0 where
  pub sources : ℕ
  pub opens : ℕ
  pub closes : ℕ

abbrev pub tally : ℕ → World → Tally
tally n w = record {
  sources = w.sources;
  opens = openings n w.events;
  closes = closings n w.events;
}

-- Every number given out was opened once, no other ever, and what is not closed is held.
pub record IsTallied (n : ℕ) (held : List ℕ) (t : Tally) : Type 0 where
  pub once : t.opens ≡ (if ltb n t.sources then 1 else 0)
  pub kept : t.closes + occurrences n held ≡ t.opens

abbrev pub source_numbers : {S : Type 0} → JsMap Text (ℕ × S) → List ℕ
source_numbers [] = []
source_numbers ((slug, (m, s)) ∷ rest) = m ∷ source_numbers rest

-- No two of the inputs have one slug.
abbrev pub distinct_slugs : {S : Type 0} → List (InputModule S) → Bool
distinct_slugs [] = true
distinct_slugs (m ∷ ms) = not (any (λ q. q.id == m.id) ms) && distinct_slugs ms

abbrev absent : {S : Type 0} → JsMap Text (ℕ × S) → List (InputModule S) → Bool
absent sources [] = true
absent sources (m ∷ ms) = not (JsMap.has m.id sources) && absent sources ms

module _ {S : Type 0} where
  occurrences-set :
      (n : ℕ) (k : Text) (v : ℕ × S) (m : JsMap Text (ℕ × S))
      → JsMap.has k m ≡ false
      → occurrences n (source_numbers (JsMap.set k v m))
        ≡ (if nat_beq v.0 n then 1 else 0) + occurrences n (source_numbers m)
  unfolding JsMap.set JsMap.get
  occurrences-set n k v [] h = ground arith
  occurrences-set n k v ((j, u) ∷ m) h = ground (arith, h, occurrences-set n k v m)

  absent-set :
      (k : Text) (v : ℕ × S) (sources : JsMap Text (ℕ × S)) (ms : List (InputModule S))
      → any (λ q. q.id == k) ms ≡ false
      → absent sources ms ≡ true
      → absent (JsMap.set k v sources) ms ≡ true
  absent-set k v sources [] d h = refl
  absent-set k v sources (m ∷ ms) d h = ground (
    arith,
    d,
    h,
    absent-set k v sources ms,
    JsMap.get-set k m.id v sources,
    text_beq_iff k m.id,
    text_beq_iff m.id k,
  )

module _ {S : Type 0} (source_fails : ℕ → Option Text) (quiet : (i : ℕ) → source_fails i ≡ none)
    (n : ℕ) where
  create_sources-IsTallied :
      (ms : List (InputModule S)) (sources : JsMap Text (ℕ × S)) (w : World)
      → distinct_slugs ms ≡ true
      → absent sources ms ≡ true
      → IsTallied n (source_numbers sources) (tally n w)
      → let made = create_sources source_fails ms sources w in
        (made.error ≡ none) × IsTallied n (source_numbers made.sources) (tally n made.world)
  unfolding create_sources
  create_sources-IsTallied [] sources w d a t = (refl, t)
  create_sources-IsTallied (m ∷ ms) sources w d a t =
      let new = occurrences-set n m.id (w.sources, m.source) sources (ground (arith, a)) in
      rw (quiet w.calls, create_sources)
        (create_sources-IsTallied ms (JsMap.set m.id (w.sources, m.source) sources) (open_source w)
          (ground (arith, d))
          (absent-set m.id (w.sources, m.source) sources ms (ground (arith, d)) (ground (arith, a)))
          (record { once = ground (arith, t.once); kept = ground (arith, t.kept, new) }))

  absent_new : (ms : List (InputModule S)) → absent [] ms ≡ true
  unfolding JsMap.get
  absent_new [] = refl
  absent_new (m ∷ ms) = absent_new ms

  -- The registry's `createSource` gives sources that are held, or throws and none was created.
  pub create_source-IsTallied :
      (ms : List (InputModule S)) (w : World)
      → distinct_slugs ms ≡ true
      → IsTallied n [] (tally n w)
      → let made = create_source source_fails ms w in
        ((made.error ≡ none) × IsTallied n (source_numbers made.sources) (tally n made.world))
        ⊎ ((reason : Text) × (made.error ≡ some reason) × IsTallied n [] (tally n made.world))
  unfolding create_source
  create_source-IsTallied [] w d t =
      inr (txt "Cannot build a POI source: no input is enabled", refl, t)
  create_source-IsTallied (m ∷ ms) w d t =
      inl (create_sources-IsTallied (m ∷ ms) [] w d (absent_new (m ∷ ms)) t)

  pub close_sources-IsTallied :
      (sources : JsMap Text (ℕ × S)) (w : World)
      → IsTallied n (source_numbers sources) (tally n w)
      → IsTallied n [] (tally n (close_sources source_fails sources w).1)
  unfolding close_sources
  close_sources-IsTallied [] w t = t
  close_sources-IsTallied ((slug, (m, s)) ∷ rest) w t =
      rw (quiet w.calls, close_sources)
        (close_sources-IsTallied rest (say (closed m) (called w))
          (record { once = t.once; kept = ground (arith, t.kept) }))

-- The other parts neither open nor close a source.
module _ (fails : ℕ → Option Text) (n : ℕ) where
  pub tally-failure_logged :
      (what : Text) (o : Option Text) (w : World) → tally n (failure_logged what o w) ≡ tally n w
  tally-failure_logged what none w = refl
  tally-failure_logged what (some reason) w = refl

  tally-release : (what : Text) (m : ℕ) (w : World) → tally n (release fails what m w) ≡ tally n w
  unfolding release
  tally-release what m w = tally-failure_logged what (fails w.calls) _

  pub tally-stop_handles :
      (hs : List OutputHandle) (w : World) → tally n (stop_handles fails hs w) ≡ tally n w
  unfolding stop_handles
  tally-stop_handles [] w = refl
  tally-stop_handles (h ∷ hs) w =
      tally-stop_handles hs (release fails (txt "Cannot stop an output") h.number w)
      ∙ tally-release (txt "Cannot stop an output") h.number w

  pub tally-stop_monitor :
      (m : Option MonitorHandle) (w : World) → tally n (stop_monitor fails m w) ≡ tally n w
  tally-stop_monitor none w = refl
  tally-stop_monitor (some m) w = tally-release (txt "Cannot stop the position monitor") m.number w

  tally-report_outputs : (ids : List Text) (w : World) → tally n (report_outputs ids w) ≡ tally n w
  tally-report_outputs [] w = refl
  tally-report_outputs (i ∷ ids) w = refl

  module _ {N : Type 0} (config : Fields N) where
    tally-start_module :
        (m : OutputModule N) (s : Starting)
        → tally n (start_module fails config m s).world ≡ tally n s.world
    unfolding start_module
    tally-start_module m s = elim (Option-cases (fails s.world.calls)) [
      | inl e ↦ rw (e, start_module) refl
      | inr (reason, e) ↦ rw (e, start_module) refl
    ]

    tally-start_all :
        (ms : List (OutputModule N)) (s : Starting)
        → tally n (start_all fails config ms s).world ≡ tally n s.world
    unfolding start_all
    tally-start_all [] s = refl
    tally-start_all (m ∷ ms) s = elim (Bool-cases (m.is_enabled config)) [
      | inl e ↦
          rw (e, start_all)
            (tally-start_all ms (start_module fails config m s) ∙ tally-start_module m s)
      | inr e ↦ rw (e, start_all) (tally-start_all ms s)
    ]

    pub tally-start_monitor :
        {S : Type 0} (source : AggregateSource S) (s : Starting) (status : PluginStatus)
        → tally n (start_monitor fails config source s status).world ≡ tally n s.world
    unfolding start_monitor
    tally-start_monitor source s status = elim (Option-cases (fails s.world.calls)) [
      | inl e ↦ rw (e, start_monitor) (tally-report_outputs s.outputs.failed_ids (acquire s.world))
      | inr (reason, e) ↦ rw (e, start_monitor) refl
    ]

pub tally-start_enabled :
    {N : Type 0} (fails : ℕ → Option Text) (n : ℕ) (config : Fields N) (ms : List (OutputModule N))
    (w : World)
    → tally n (start_enabled fails config ms w).world ≡ tally n w
unfolding start_enabled
tally-start_enabled fails n config ms w = tally-start_all fails n config ms _
