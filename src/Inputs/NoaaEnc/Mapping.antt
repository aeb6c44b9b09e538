-- ===== src/Inputs/NoaaEnc/Mapping.antt =====
-- The layers and the survey dates of src/inputs/noaa-enc/s57-mapping.ts, and the link of
-- src/shared/map-link.ts. The language's `parseInt`, `Date.UTC` and `toISOString` are parameters.
use signalk_activecaptain_re.Base.{
  Bool, ◌&&◌, ◌||◌, not, Option, none, some, ◌++◌, length, take, drop, nat_beq, if◌then◌else◌,
}
use signalk_activecaptain_re.Base.Text.{Text, txt}
use signalk_activecaptain_re.Base.Float.{Floats, lit}
use signalk_activecaptain_re.Types.{PoiType, Value, str}
use signalk_activecaptain_re.Inputs.ActiveCaptain.BridgeClearance.{trim}

pub data EncLayerKey : Type 0 where
  wreck obstruction rock : EncLayerKey

-- The key as it stands in an id.
abbrev pub key_text : EncLayerKey → Text
key_text wreck = txt "wreck"
key_text obstruction = txt "obstruction"
key_text rock = txt "rock"

abbrev pub layer_label : EncLayerKey → Text
layer_label wreck = txt "Wreck"
layer_label obstruction = txt "Obstruction"
layer_label rock = txt "Rock"

abbrev pub layer_poi_type : PoiType
layer_poi_type = PoiType.hazard

abbrev pub layer_sk_icon : Text
layer_sk_icon = txt "hazard"

pub record Sordat (N : Type 0) : Type 0 where
  pub year : N
  pub month : N
  pub day : Option N

abbrev fallback_url : Text
fallback_url = txt "https://map.openseamap.org/"

module _ {N : Type 0} ⦃F : Floats N⦄ where
  unfoldable pub open_sea_map_marker_url : N → N → Text
  open_sea_map_marker_url latitude longitude =
      let lat = F.to_fixed 5 latitude in
      let lon = F.to_fixed 5 longitude in
      if not (F.is_finite latitude) || not (F.is_finite longitude)
      then fallback_url
      else fallback_url
        ++ (txt "?zoom=15&lat="
            ++ (lat ++ (txt "&lon=" ++ (lon ++ (txt "&mlat=" ++ (lat ++ (txt "&mlon=" ++ lon)))))))

  module _ (parse_int : Text → N) where
    abbrev in_range : N → N → Bool
    in_range high n = F.is_finite n && (F.le (lit 1) n && F.le n high)

    -- The triple of the trimmed text, whose length is 6 or 8.
    abbrev dated : Text → Option (Sordat N)
    dated t =
        let year = parse_int (take 4 t) in
        let month = parse_int (take 2 (drop 4 t)) in
        let day = parse_int (take 2 (drop 6 t)) in
        if not (F.is_finite year) || not (in_range (lit 12) month)
        then none
        else if nat_beq (length t) 6
        then some (record { year = year; month = month; day = none })
        else if in_range (lit 31) day
        then some (record { year = year; month = month; day = some day })
        else none

    unfoldable pub parse_sordat : Value N → Option (Sordat N)
    parse_sordat (str raw) =
        if nat_beq (length (trim raw)) 6 || nat_beq (length (trim raw)) 8
        then dated (trim raw)
        else none
    parse_sordat _ = none

    module _ (utc : N → N → N → N) (iso : N → Text) where
      abbrev iso_if_finite : N → Option Text
      iso_if_finite ms = if F.is_finite ms then some (iso ms) else none

      abbrev day_or_first : Option N → N
      day_or_first none = lit 1
      day_or_first (some day) = day

      unfoldable pub sordat_to_iso_timestamp : Value N → Option Text
      unfolding parse_sordat
      sordat_to_iso_timestamp raw = elim (parse_sordat raw) [
        | none ↦ none
        | some parts ↦
            iso_if_finite (utc parts.year (F.sub parts.month (lit 1)) (day_or_first parts.day))
      ]
