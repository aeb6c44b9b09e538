-- ===== src/Inputs/NoaaEnc/Listing.antt =====
-- src/inputs/noaa-enc/noaa-enc-source.ts: the list request. What the query of a layer answers is given
-- for the fetch that the request waits for.
use signalk_activecaptain_re.Base.{
  ℕ, Bool, true, false, Option, none, some, List, [], ◌∷◌, ◌++◌, if◌then◌else◌,
}
use signalk_activecaptain_re.Base.Text.{Text, txt, text_eq}
use signalk_activecaptain_re.Base.Float.{Floats}
use signalk_activecaptain_re.Base.Lru.{Lru}
use signalk_activecaptain_re.Types.{Position, Bbox, PoiSummary}
use signalk_activecaptain_re.Shared.BboxDebounce.{BboxDebounceCache, bbox_key, request}
use signalk_activecaptain_re.Shared.YearFilter.{filter_by_minimum_year}
use signalk_activecaptain_re.Status
use signalk_activecaptain_re.Status.{PluginStatus}
use signalk_activecaptain_re.Inputs.UsWaters.{should_skip_outside_us_waters}
use signalk_activecaptain_re.Inputs.NoaaEnc.Mapping.{EncLayerKey}
use signalk_activecaptain_re.Inputs.NoaaEnc.Source.{
  EncFeature, CachedFeature, noaa_enc_source_id, to_summary,
}

-- How the query of a layer settles.
pub data LayerOutcome (N : Type 0) : Type 0 where
  features : List (EncFeature N) → LayerOutcome N
  refused : Text → LayerOutcome N

-- The variables of the loop over the settled queries.
pub record LayerFetch (N : Type 0) : Type 0 where
  pub layer_features : List (EncLayerKey × List (EncFeature N))
  pub any_layer_ok : Bool
  pub first_rejection : Option Text
  pub status : PluginStatus

abbrev or_first : Option Text → Text → Option Text
or_first (some first) reason = some first
or_first none reason = some reason

module _ {N : Type 0} where
  abbrev fetch_one : Text → EncLayerKey → LayerOutcome N → LayerFetch N → LayerFetch N
  fetch_one now layer_key (features fs) f = record f {
    any_layer_ok = true;
    layer_features = f.layer_features ++ ((layer_key, fs) ∷ []);
  }
  fetch_one now layer_key (refused reason) f = record f {
    first_rejection = or_first f.first_rejection reason;
    status =
        Status.record_error now noaa_enc_source_id (txt "Layer query failed: " ++ reason) f.status;
  }

  unfoldable pub fetch_all :
      Text → List (EncLayerKey × LayerOutcome N) → LayerFetch N → LayerFetch N
  fetch_all now [] f = f
  fetch_all now ((layer_key, outcome) ∷ rest) f =
      fetch_all now rest (fetch_one now layer_key outcome f)

  -- The fetcher behind the settled queries: the layers' features, or `none` for the error when every
  -- layer failed, with the status.
  unfoldable pub fetch_layers :
      Text
      → List (EncLayerKey × LayerOutcome N)
      → PluginStatus
      → Option (List (EncLayerKey × List (EncFeature N))) × PluginStatus
  unfolding fetch_all
  fetch_layers now outcomes status =
      let f = fetch_all now outcomes (record {
        layer_features = [];
        any_layer_ok = false;
        first_rejection = none;
        status = status;
      }) in
      (if f.any_layer_ok then some f.layer_features else none, f.status)

-- The closure's state.
pub record NoaaEncSource (C D : Type 0) : Type 0 where
  pub cache : D
  pub bbox_cache : BboxDebounceCache C
  pub status : PluginStatus

-- What a list request does before its `await`: it ends with no points, or it waits for a fetch.
pub data ListStart : Type 0 where
  no_points : ListStart
  waits_for : ℕ → ListStart

module _ {N C D : Type 0} ⦃F : Floats N⦄ (bbox_lru : Lru C ℕ) where
  abbrev start_layers :
      List EncLayerKey → Bbox N → NoaaEncSource C D → ListStart × NoaaEncSource C D
  start_layers [] bbox s = (no_points, s)
  start_layers (k ∷ ks) bbox s =
      let (fetch, after) = request bbox_lru (bbox_key bbox none) s.bbox_cache in
      (waits_for fetch, record s { bbox_cache = after })

  -- `position` is the latest fix.
  unfoldable pub start_list :
      List EncLayerKey
      → Option (Position N)
      → Bbox N
      → NoaaEncSource C D
      → ListStart × NoaaEncSource C D
  start_list layers position bbox s =
      let (skip, status) = should_skip_outside_us_waters position s.status noaa_enc_source_id in
      if skip
      then (no_points, record s { status = status })
      else start_layers layers bbox (record s { status = status })

module _ {N D : Type 0} ⦃F : Floats N⦄ (lru : Lru D (CachedFeature N)) (parse_int : Text → N)
    (utc : N → N → N → N) (iso : N → Text) where
  abbrev pub add_summary :
      EncLayerKey
      → EncFeature N
      → Option (PoiSummary N)
      → List (PoiSummary N) × D
      → List (PoiSummary N) × D
  add_summary layer_key feature none s = s
  add_summary layer_key feature (some summary) s = (
    s.0 ++ (summary ∷ []),
    lru.set summary.id (record { layer_key = layer_key; feature = feature }) s.1,
  )

  -- The inner loop over the features of a layer.
  unfoldable pub add_features :
      EncLayerKey → List (EncFeature N) → List (PoiSummary N) × D → List (PoiSummary N) × D
  unfolding to_summary
  add_features layer_key [] s = s
  add_features layer_key (f ∷ fs) s =
      add_features layer_key fs
        (add_summary layer_key f (to_summary parse_int utc iso layer_key f) s)

  unfoldable pub add_layers :
      List (EncLayerKey × List (EncFeature N)) → List (PoiSummary N) × D → List (PoiSummary N) × D
  unfolding add_features
  add_layers [] s = s
  add_layers ((layer_key, fs) ∷ rest) s = add_layers rest (add_features layer_key fs s)

  -- The part of a list request behind its `await`.
  unfoldable pub finish_list :
      {C : Type 0}
      → (Text → N)
      → (N → N)
      → N
      → List (EncLayerKey × List (EncFeature N))
      → NoaaEncSource C D
      → List (PoiSummary N) × NoaaEncSource C D
  unfolding add_layers filter_by_minimum_year
  finish_list parse_date utc_year minimum_year cached s =
      let (summaries, cache) = add_layers cached ([], s.cache) in
      (
        filter_by_minimum_year parse_int parse_date utc_year summaries minimum_year,
        record s { cache = cache },
      )
