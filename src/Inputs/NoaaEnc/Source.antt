-- ===== src/Inputs/NoaaEnc/Source.antt =====
-- src/inputs/noaa-enc/noaa-enc-source.ts: the ids and the summaries of the features. The detail view
-- and its HTML are not modelled.
use signalk_activecaptain_re.Base.{
  Bool, true, false, Option, none, some, List, [], ◌∷◌, ◌++◌, if◌then◌else◌,
}
use signalk_activecaptain_re.Base.Text.{Text, txt, text_eq}
use signalk_activecaptain_re.Base.Equality.{◌==◌}
use signalk_activecaptain_re.Base.Float.{Floats}
use signalk_activecaptain_re.Types.{Position, PoiSummary, Value, num, str, obj, Fields, property_of}
use signalk_activecaptain_re.Shared.Numbers.{is_valid_latitude, is_valid_longitude}
use signalk_activecaptain_re.Shared.NamespacedId.{split_on_first_underscore}
use signalk_activecaptain_re.Inputs.ActiveCaptain.BridgeClearance.{trim}
use signalk_activecaptain_re.Inputs.NoaaEnc.Mapping.{
  EncLayerKey, wreck, obstruction, rock, key_text, layer_label, layer_poi_type, layer_sk_icon,
  open_sea_map_marker_url, sordat_to_iso_timestamp,
}

-- `EncFeature`: the coordinates are a pair, or absent where the geometry is.
pub record EncFeature (N : Type 0) : Type 0 where
  pub id : Option N
  pub coordinates : Option (Value N × Value N)
  pub properties : Fields N

pub record CachedFeature (N : Type 0) : Type 0 where
  pub layer_key : EncLayerKey
  pub feature : EncFeature N

abbrev pub noaa_enc_source_id : Text
noaa_enc_source_id = txt "noaaenc"

-- The copyright sign is the code unit 169.
abbrev noaa_enc_attribution : Text
noaa_enc_attribution = 169 ∷ txt " NOAA Office of Coast Survey (CC0)"

abbrev push_if : Bool → EncLayerKey → List EncLayerKey → List EncLayerKey
push_if false k ks = ks
push_if true k ks = k ∷ ks

unfoldable pub enabled_layers : Bool → Bool → Bool → List EncLayerKey
enabled_layers wrecks obstructions rocks =
    push_if wrecks wreck (push_if obstructions obstruction (push_if rocks rock []))

abbrev number_of : {N : Type 0} → Value N → Option N
number_of (num x) = some x
number_of _ = none

unfoldable pub feature_object_id : {N : Type 0} → EncFeature N → Option N
feature_object_id feature = elim feature.id [
  | some id ↦ some id
  | none ↦ number_of (property_of (txt "OBJECTID") (obj feature.properties))
]

abbrev name_or : {N : Type 0} → Text → Value N → Text
name_or label (str objnam) = elim (trim objnam) [ [] ↦ label | c ∷ s ↦ c ∷ s ]
name_or label _ = label

unfoldable pub feature_name : {N : Type 0} → EncLayerKey → EncFeature N → Text
feature_name layer_key feature =
    name_or (layer_label layer_key) (property_of (txt "OBJNAM") (obj feature.properties))

-- The layer whose key an id starts with.
abbrev pub layer_of : Text → Option EncLayerKey
layer_of prefix =
    if prefix == txt "wreck"
    then some wreck
    else if prefix == txt "obstruction"
    then some obstruction
    else if prefix == txt "rock"
    then some rock
    else none

module _ {N : Type 0} ⦃F : Floats N⦄ where
  abbrev pub position_with : Option N → Option N → Option (Position N)
  position_with (some lat) (some lon) = some (record { latitude = lat; longitude = lon })
  position_with _ _ = none

  unfoldable pub feature_lat_lon : EncFeature N → Option (Position N)
  feature_lat_lon feature = elim feature.coordinates [
    | none ↦ none
    | some (lon, lat) ↦ position_with (is_valid_latitude lat) (is_valid_longitude lon)
  ]

  abbrev pub summary_id : EncLayerKey → N → Text
  summary_id layer_key object_id = key_text layer_key ++ (txt "_" ++ F.to_text object_id)

  module _ (parse_int : Text → N) where
    abbrev finite_id : EncLayerKey → N → Option (EncLayerKey × N)
    finite_id layer_key object_id =
        if F.is_finite object_id then some (layer_key, object_id) else none

    abbrev pub with_layer : Option EncLayerKey → Text → Option (EncLayerKey × N)
    with_layer none remainder = none
    with_layer (some layer_key) remainder = finite_id layer_key (parse_int remainder)

    unfoldable pub parse_summary_id : Text → Option (EncLayerKey × N)
    parse_summary_id id = elim (split_on_first_underscore id) [
      | none ↦ none
      | some (prefix, remainder) ↦ with_layer (layer_of prefix) remainder
    ]

    module _ (utc : N → N → N → N) (iso : N → Text) where
      abbrev pub summary_at :
          EncLayerKey → EncFeature N → Option N → Option (Position N) → Option (PoiSummary N)
      summary_at layer_key feature none at = none
      summary_at layer_key feature (some object_id) none = none
      summary_at layer_key feature (some object_id) (some at) = some (record {
        id = summary_id layer_key object_id;
        type = layer_poi_type;
        position = at;
        name = feature_name layer_key feature;
        source = noaa_enc_source_id;
        url = open_sea_map_marker_url at.latitude at.longitude;
        attribution = noaa_enc_attribution;
        sources = none;
        rating = none;
        review_count = none;
        sk_icon = layer_sk_icon;
        timestamp =
            sordat_to_iso_timestamp parse_int utc iso
              (property_of (txt "SORDAT") (obj feature.properties));
        vertical_clearance_meters = none;
      })

      unfoldable pub to_summary : EncLayerKey → EncFeature N → Option (PoiSummary N)
      unfolding feature_lat_lon feature_object_id feature_name
      to_summary layer_key feature =
          summary_at layer_key feature (feature_object_id feature) (feature_lat_lon feature)
