-- ===== src/Inputs/Aggregate.antt =====
-- src/inputs/input-registry.ts: the aggregate's list request with the dedupe pass behind the merge.
pub mod Laws
use signalk_activecaptain_re.Base.{
  Bool, true, false, ◌&&◌, not, Option, none, some, List, [], ◌∷◌, ◌++◌, any, if◌then◌else◌,
}
use signalk_activecaptain_re.Base.Text.{Text, text_eq}
use signalk_activecaptain_re.Base.Equality.{Eq, ◌==◌}
use signalk_activecaptain_re.Base.JsMap
use signalk_activecaptain_re.Base.JsMap.{JsMap}
use signalk_activecaptain_re.Base.Float.{Floats}
use signalk_activecaptain_re.Types.{PoiSummary}
use signalk_activecaptain_re.Status.{PluginStatus}
use signalk_activecaptain_re.Inputs.Registry.{Outcome, list_points_of_interest}
use signalk_activecaptain_re.Inputs.Dedupe.{
  DedupeRadiusSpec, per_source, base_source_id, dedupe_against_base,
}

-- What an enabled module answers to `isDedupeEnabled` and `dedupeRadiusMeters` for the configuration
-- of the run.
pub record DedupeOptions (N : Type 0) : Type 0 where
  pub id : Text
  pub dedupe_enabled : Bool
  pub dedupe_radius_meters : Option N

-- `dedupeSources` and `dedupeRadiusBySource`.
pub record DedupeWiring (N : Type 0) : Type 0 where
  pub dedupe_sources : List Text
  pub dedupe_radius_by_source : JsMap Text N

-- `Set.prototype.add`
abbrev add_source : Text → List Text → List Text
add_source id ids = if any (λ i. i == id) ids then ids else ids ++ (id ∷ [])

module _ {N : Type 0} where
  abbrev no_dedupe : DedupeWiring N
  no_dedupe = record { dedupe_sources = []; dedupe_radius_by_source = [] }

  abbrev add_radius : Text → Option N → JsMap Text N → JsMap Text N
  add_radius id none m = m
  add_radius id (some radius) m = JsMap.set id radius m

  abbrev wire_one : DedupeOptions N → DedupeWiring N → DedupeWiring N
  wire_one o w =
      if not (o.id == base_source_id) && o.dedupe_enabled
      then record {
        dedupe_sources = add_source o.id w.dedupe_sources;
        dedupe_radius_by_source = add_radius o.id o.dedupe_radius_meters w.dedupe_radius_by_source;
      }
      else w

  unfoldable pub wire_all : List (DedupeOptions N) → DedupeWiring N → DedupeWiring N
  wire_all [] w = w
  wire_all (o ∷ os) w = wire_all os (wire_one o w)

  unfoldable pub wire_dedupe : List (DedupeOptions N) → DedupeWiring N
  unfolding wire_all
  wire_dedupe options =
      if any (λ o. o.id == base_source_id) options then wire_all options no_dedupe else no_dedupe

module _ {N : Type 0} ⦃F : Floats N⦄ ⦃key : Eq N⦄ where
  abbrev pub spec_of : DedupeWiring N → DedupeRadiusSpec N
  spec_of w = per_source w.dedupe_radius_by_source

  abbrev pub deduped : DedupeWiring N → List Text → List (PoiSummary N) → List (PoiSummary N)
  deduped w [] merged = merged
  deduped w (id ∷ ids) merged = dedupe_against_base merged (id ∷ ids) (spec_of w)

  abbrev pub then_dedupe :
      DedupeWiring N → Option (List (PoiSummary N)) → Option (List (PoiSummary N))
  then_dedupe w none = none
  then_dedupe w (some merged) = some (deduped w w.dedupe_sources merged)

  -- `none` is the error when every source failed.
  unfoldable pub list_deduped :
      List (DedupeOptions N)
      → Text
      → List (Text × Outcome N)
      → PluginStatus
      → Option (List (PoiSummary N)) × PluginStatus
  unfolding wire_dedupe
  list_deduped options now outcomes status =
      let (merged, after) = list_points_of_interest now outcomes status in
      (then_dedupe (wire_dedupe options) merged, after)
