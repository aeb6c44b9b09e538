-- ===== src/Inputs/ActiveCaptain/Source.antt =====
-- src/inputs/active-captain/active-captain-source.ts: the list request and the outcomes of the
-- detail loads. The debounce cache's promise holds the tagged summaries, so a list request is given
-- what the client answered to the fetch that it waits for.
use signalk_activecaptain_re.Base.{ℕ, Bool, true, some, List, ◌∷◌, ◌++◌, map, if◌then◌else◌}
use signalk_activecaptain_re.Base.Text.{Text, txt}
use signalk_activecaptain_re.Base.Float.{Floats}
use signalk_activecaptain_re.Base.Lru.{Lru}
use signalk_activecaptain_re.Types.{PoiSummary, PoiType, Bbox, Value}
use signalk_activecaptain_re.Status
use signalk_activecaptain_re.Status.{PluginStatus}
use signalk_activecaptain_re.Outputs.BridgeAirDraft.Resolver.{active_captain_source_id}
use signalk_activecaptain_re.Plugin.World.{Event, plugin_error}
use signalk_activecaptain_re.Shared.BboxDebounce
use signalk_activecaptain_re.Shared.BboxDebounce.{BboxDebounceCache, bbox_key, request}
use signalk_activecaptain_re.Inputs.ActiveCaptain.PoiStore
use signalk_activecaptain_re.Inputs.ActiveCaptain.PoiStore.{PoiStore}
use signalk_activecaptain_re.Inputs.ActiveCaptain.RatingFilter.{filter_by_rating}

abbrev active_captain_attribution : Text
active_captain_attribution = txt "Data from Garmin ActiveCaptain"

abbrev poi_page_url_prefix : Text
poi_page_url_prefix = txt "https://activecaptain.garmin.com/en-US/pois/"

-- Total on the types, so the fallback for a type off the wire is that of `unknown`.
unfoldable pub active_captain_sk_icon : PoiType → Text
active_captain_sk_icon PoiType.marina = txt "marina"
active_captain_sk_icon PoiType.anchorage = txt "anchorage"
active_captain_sk_icon PoiType.hazard = txt "hazard"
active_captain_sk_icon PoiType.business = txt "business"
active_captain_sk_icon PoiType.boat_ramp = txt "boatramp"
active_captain_sk_icon PoiType.bridge = txt "bridge"
active_captain_sk_icon PoiType.dam = txt "dam"
active_captain_sk_icon PoiType.ferry = txt "ferry"
active_captain_sk_icon PoiType.inlet = txt "inlet"
active_captain_sk_icon PoiType.lock = txt "lock"
active_captain_sk_icon PoiType.local_knowledge = txt "notice-to-mariners"
active_captain_sk_icon PoiType.navigational = txt "navigation-structure"
active_captain_sk_icon PoiType.airport = txt "notice-to-mariners"
active_captain_sk_icon PoiType.unknown = txt "notice-to-mariners"

unfoldable pub tag_summary : {N : Type 0} → PoiSummary N → PoiSummary N
unfolding active_captain_sk_icon
tag_summary summary = record summary {
  source = active_captain_source_id;
  url = poi_page_url_prefix ++ summary.id;
  attribution = active_captain_attribution;
  sk_icon = active_captain_sk_icon summary.type;
}

-- How a detail load ended: a 404, or another error with its text.
pub data LoadError : Type 0 where
  not_found : LoadError
  other : Text → LoadError

-- The closure's state; `reports` is what the admin UI was told, latest first.
pub record ActiveCaptainSource (N C : Type 0) : Type 0 where
  pub closed : Bool
  pub store : PoiStore N
  pub bbox_cache : BboxDebounceCache C
  pub status : PluginStatus
  pub reports : List Event

-- What a list request answers when the client has answered its fetch.
unfoldable pub list_answer :
    {N : Type 0} ⦃F : Floats N⦄ → N → List (PoiSummary N) → List (PoiSummary N)
unfolding tag_summary filter_by_rating
list_answer minimum_rating summaries = filter_by_rating (map tag_summary summaries) minimum_rating

module _ {N C : Type 0} where
  unfoldable pub on_load_success : ActiveCaptainSource N C → ActiveCaptainSource N C
  on_load_success s =
      if s.closed
      then s
      else record s { status = Status.record_detail_success active_captain_source_id s.status }

  -- `now` is the clock's reading for the status.
  unfoldable pub on_load_error :
      Text → LoadError → ActiveCaptainSource N C → ActiveCaptainSource N C
  on_load_error now not_found s =
      if s.closed
      then s
      else record s { status = Status.record_detail_success active_captain_source_id s.status }
  on_load_error now (other reason) s = if s.closed then s else record s {
    status =
        Status.record_error now active_captain_source_id (txt "Detail request failed: " ++ reason)
          s.status;
    reports = plugin_error (txt "Detail request failed: " ++ reason) ∷ s.reports;
  }

module _ {N C : Type 0} ⦃F : Floats N⦄ where
  -- The wrapped `persist`.
  unfoldable pub persist : N → Text → Value N → ActiveCaptainSource N C → ActiveCaptainSource N C
  persist now id details s =
      if s.closed then s else record s { store = PoiStore.persist now id details s.store }

  -- The `fetchMethod` of poi-cache.ts behind its `await`.
  unfoldable pub load_succeeded :
      N → Text → Value N → ActiveCaptainSource N C → ActiveCaptainSource N C
  unfolding on_load_success persist
  load_succeeded now id details s = persist now id details (on_load_success s)

  module _ (lru : Lru C ℕ) where
    -- The fetch that a list request waits for.
    unfoldable pub list_request :
        Bbox N → Text → ActiveCaptainSource N C → ℕ × ActiveCaptainSource N C
    list_request bbox poi_types s =
        let (fetch, after) = request lru (bbox_key bbox (some poi_types)) s.bbox_cache in
        (fetch, record s { bbox_cache = after })

    -- `written` says whether the file system took the last write.
    unfoldable pub close :
        (Value N → Text) → Bool → ActiveCaptainSource N C → ActiveCaptainSource N C
    close stringify written s = record s {
      closed = true;
      store = PoiStore.flush stringify written s.store;
      bbox_cache = BboxDebounce.clear lru s.bbox_cache;
    }
