-- ===== src/Outputs/BridgeAirDraft/Resolver.antt =====
-- src/outputs/bridge-air-draft/bridge-clearance-resolver.ts. The promise of `getDetails` is an
-- event: `fetch_settled` runs its callbacks.
pub mod Laws
use signalk_activecaptain_re.Base.{
  ℕ, Bool, true, false, ◌&&◌, ◌||◌, not, Option, none, some, List, [], ◌∷◌, any, if◌then◌else◌,
}
use signalk_activecaptain_re.Base.Text.{Text, txt, text_eq}
use signalk_activecaptain_re.Base.Equality.{◌==◌}
use signalk_activecaptain_re.Base.Float.{Floats}
use signalk_activecaptain_re.Base.Lru.{Lru}
use signalk_activecaptain_re.Types.{PoiType, poi_type_beq, PoiSummary}
use signalk_activecaptain_re.Shared.BridgeClearance.{finite_option}

unfoldable pub active_captain_source_id : Text
active_captain_source_id = txt "activecaptain"

-- The closure's variables, and the calls of `getDetails` whose promise is pending, latest first.
pub record Resolver (C : Type 0) : Type 0 where
  pub cache : C
  pub in_flight : List Text
  pub pending : List Text

-- `Set.prototype.has`, `add` and `delete` on a set of ids.
abbrev pub contains : Text → List Text → Bool
contains k s = any (λ j. j == k) s

abbrev pub add_id : Text → List Text → List Text
add_id k s = if contains k s then s else k ∷ s

unfoldable pub delete_id : Text → List Text → List Text
delete_id k [] = []
delete_id k (j ∷ s) = let rest = delete_id k s in if j == k then rest else j ∷ rest

-- One pending call less: the first with the id.
unfoldable pub settle_pending : Text → List Text → List Text
settle_pending k [] = []
settle_pending k (j ∷ s) = if j == k then s else j ∷ settle_pending k s

-- How the promise of a detail request settles: with the clearance of the detail, or rejected.
pub data Settled (N : Type 0) : Type 0 where
  resolved : Option N → Settled N
  rejected : Settled N

module _ {N C : Type 0} ⦃F : Floats N⦄ (lru : Lru C (Option N)) where
  unfoldable pub start_fetch : Text → Resolver C → Resolver C
  start_fetch id r = record r { in_flight = add_id id r.in_flight; pending = id ∷ r.pending }

  -- The part behind the guards, for an ActiveCaptain bridge whose summary has no clearance.
  unfoldable pub resolve_cached : Text → Resolver C → Option N × Resolver C
  unfolding start_fetch
  resolve_cached id r =
      let touched = record r { cache = lru.touch id r.cache } in
      elim (lru.get id r.cache) [
        | some clearance ↦ (clearance, touched)
        | none ↦ (none, if contains id r.in_flight then touched else start_fetch id touched)
      ]

  abbrev pub needs_detail : PoiSummary N → Bool
  needs_detail poi = poi.source == active_captain_source_id && poi_type_beq poi.type PoiType.bridge

  unfoldable pub clearance_meters : PoiSummary N → Resolver C → Option N × Resolver C
  unfolding resolve_cached
  clearance_meters poi r = elim (finite_option poi.vertical_clearance_meters) [
    | some clearance ↦ (some clearance, r)
    | none ↦ if needs_detail poi then resolve_cached poi.id r else (none, r)
  ]

  abbrev pub then_cache : Text → Settled N → C → C
  then_cache id (resolved clearance) cache = lru.set id (finite_option clearance) cache
  then_cache id rejected cache = cache

  unfoldable pub fetch_settled : Text → Settled N → Resolver C → Resolver C
  unfolding delete_id settle_pending
  fetch_settled id outcome r = record {
    cache = then_cache id outcome r.cache;
    in_flight = delete_id id r.in_flight;
    pending = settle_pending id r.pending;
  }
