-- ===== src/Panel/NormalizeConfig.antt =====
-- src/panel/normalize-config.ts: from the stored configuration to one that has every setting. The
-- fields stand in the order of their assignment.
pub mod Laws
use signalk_activecaptain_re.Base.{
  Bool, true, false, ◌&&◌, not, Option, none, some, List, [], ◌∷◌, any, all, map, if◌then◌else◌,
}
use signalk_activecaptain_re.Base.Text.{Text, txt, text_beq}
use signalk_activecaptain_re.Base.Float.{Floats, lit}
use signalk_activecaptain_re.Types.{
  Value, Items, nil, cons, bool, num, str, arr, obj, Fields, field, end, property_of,
}
use signalk_activecaptain_re.Shared.Numbers.{positive_finite_number, to_finite_number}
use signalk_activecaptain_re.Shared.BridgeClearance.{clamp_clearance_margin}
use signalk_activecaptain_re.Shared.BboxDebounce.{clamp_bbox_debounce_seconds}
use signalk_activecaptain_re.Shared.YearFilter.{clamp_minimum_year}
use signalk_activecaptain_re.Shared.PoiTypeSelection.{is_true, poi_type_flags}
use signalk_activecaptain_re.Inputs.ActiveCaptain.RatingFilter.{clamp_minimum_rating}
use signalk_activecaptain_re.Outputs.NotesResource.ResourceQuery.{is_space}

-- `value !== false`
abbrev pub is_not_false : {N : Type 0} → Value N → Bool
is_not_false (bool b) = b
is_not_false _ = true

abbrev default_open_sea_map_endpoint : Text
default_open_sea_map_endpoint = txt "https://overpass-api.de/api/interpreter"

abbrev seamark_group_ids : List Text
seamark_group_ids = txt "hazards" ∷ txt "navaids" ∷ txt "harbours" ∷ txt "infrastructure" ∷ []

abbrev noaa_enc_scale_bands : List Text
noaa_enc_scale_bands =
    txt "overview"
    ∷ txt "general"
    ∷ txt "coastal"
    ∷ txt "approach"
    ∷ txt "harbour"
    ∷ txt "berthing"
    ∷ []

abbrev includes : List Text → Text → Bool
includes ts t = any (λ s. text_beq s t) ts

-- A text that is not blank, or the default endpoint.
abbrev endpoint_or_default : {N : Type 0} → Value N → Value N
endpoint_or_default (str t) = if all is_space t then str default_open_sea_map_endpoint else str t
endpoint_or_default _ = str default_open_sea_map_endpoint

abbrev known_group : {N : Type 0} → Value N → Bool
known_group (str t) = includes seamark_group_ids t
known_group _ = false

abbrev known_groups : {N : Type 0} → Items N → Items N
known_groups nil = nil
known_groups (cons v vs) = let rest = known_groups vs in if known_group v then cons v rest else rest

abbrev texts : {N : Type 0} → List Text → Items N
texts [] = nil
texts (t ∷ ts) = cons (str t) (texts ts)

abbrev groups_or_all : {N : Type 0} → Value N → Value N
groups_or_all (arr groups) = arr (known_groups groups)
groups_or_all _ = arr (texts seamark_group_ids)

abbrev band_or_default : {N : Type 0} → Value N → Value N
band_or_default (str t) = if includes noaa_enc_scale_bands t then str t else str (txt "coastal")
band_or_default _ = str (txt "coastal")

-- The loop over the flag table, before the other fields.
abbrev pub flag_fields : {N : Type 0} → Value N → List (Text × Text) → Fields N → Fields N
flag_fields raw [] rest = rest
flag_fields raw ((flag, type) ∷ flags) rest =
    field flag (bool (is_not_false (property_of flag raw))) (flag_fields raw flags rest)

module _ {N : Type 0} ⦃F : Floats N⦄ where
  abbrev or_default : N → Option N → N
  or_default fallback none = fallback
  or_default fallback (some x) = x

  abbrev positive_or : N → Value N → Value N
  positive_or fallback v = num (or_default fallback (positive_finite_number v))

  abbrev not_negative : Option N → N
  not_negative none = lit 0
  not_negative (some x) = if F.le (lit 0) x then x else lit 0

  abbrev hours_or_default : Value N → N
  hours_or_default (num x) =
      if F.is_finite x && (F.le (lit 1) x && F.le x (lit 168)) then x else lit 6
  hours_or_default _ = lit 6

  -- The settings behind the flags. A value that is no object has no properties, as the empty object
  -- that stands for it.
  unfoldable pub other_settings : Value N → Fields N
  other_settings raw =
      let at = λ (k : Text). property_of k raw in
      field (txt "minimumRating") (num (clamp_minimum_rating (at (txt "minimumRating")))) (
        field (txt "enableProximityAlarms") (bool (is_true (at (txt "enableProximityAlarms")))) (
          field (txt "proximityAlarmRadiusMeters")
            (positive_or (lit 500) (at (txt "proximityAlarmRadiusMeters")))
            (field (txt "enableRouteHazardScan") (bool (is_true (at (txt "enableRouteHazardScan"))))
              (field (txt "routeCorridorWidthMeters")
                (positive_or (lit 500) (at (txt "routeCorridorWidthMeters")))
                (field (txt "enableBridgeAirDraftCheck")
                  (bool (is_true (at (txt "enableBridgeAirDraftCheck"))))
                  (field (txt "vesselAirDraftMeters")
                    (num (not_negative (to_finite_number (at (txt "vesselAirDraftMeters")))))
                    (field (txt "bridgeClearanceMarginMeters")
                      (num (clamp_clearance_margin (at (txt "bridgeClearanceMarginMeters"))))
                      (field (txt "openSeaMapEnabled")
                        (bool (is_true (at (txt "openSeaMapEnabled"))))
                        (field (txt "openSeaMapEndpoint")
                          (endpoint_or_default (at (txt "openSeaMapEndpoint")))
                          (field (txt "openSeaMapSeamarkGroups")
                            (groups_or_all (at (txt "openSeaMapSeamarkGroups")))
                            (field (txt "openSeaMapDedupe")
                              (bool (is_not_false (at (txt "openSeaMapDedupe"))))
                              (field (txt "openSeaMapDedupeRadiusMeters")
                                (positive_or (lit 150) (at (txt "openSeaMapDedupeRadiusMeters")))
                                (field (txt "uscgLightListEnabled")
                                  (bool (is_true (at (txt "uscgLightListEnabled"))))
                                  (field (txt "uscgLightListDedupe")
                                    (bool (is_not_false (at (txt "uscgLightListDedupe"))))
                                    (field (txt "uscgLightListDedupeRadiusMeters")
                                      (positive_or (lit 150)
                                        (at (txt "uscgLightListDedupeRadiusMeters")))
                                      (field (txt "uscgLightListRefreshHours")
                                        (num
                                          (hours_or_default (at (txt "uscgLightListRefreshHours"))))
                                        (field (txt "noaaEncEnabled")
                                          (bool (is_true (at (txt "noaaEncEnabled"))))
                                          (field (txt "noaaEncDedupe")
                                            (bool (is_not_false (at (txt "noaaEncDedupe"))))
                                            (field (txt "noaaEncDedupeRadiusMeters")
                                              (positive_or (lit 150)
                                                (at (txt "noaaEncDedupeRadiusMeters")))
                                              (field (txt "noaaEncScaleBand")
                                                (band_or_default (at (txt "noaaEncScaleBand")))
                                                (field (txt "noaaEncIncludeWrecks")
                                                  (bool (
                                                    is_not_false (at (txt "noaaEncIncludeWrecks"))))
                                                  (field (txt "noaaEncIncludeObstructions")
                                                    (bool (
                                                      is_not_false
                                                        (at (txt "noaaEncIncludeObstructions"))))
                                                    (field (txt "noaaEncIncludeRocks")
                                                      (bool
                                                        (is_true (at (txt "noaaEncIncludeRocks"))))
                                                      (field (txt "openSeaMapMinimumYear")
                                                        (num (
                                                          clamp_minimum_year
                                                            (at (txt "openSeaMapMinimumYear"))))
                                                        (field
                                                          (txt "uscgLightListMinimumUpdateYear")
                                                          (num (
                                                            clamp_minimum_year (
                                                            at (
                                                            txt "uscgLightListMinimumUpdateYear"))))
                                                          (field (txt "noaaEncMinimumSurveyYear")
                                                            (num (
                                                            clamp_minimum_year
                                                            (at (txt "noaaEncMinimumSurveyYear"))))
                                                            (field (txt "openSeaMapRefreshSeconds")
                                                            (num (
                                                            clamp_bbox_debounce_seconds
                                                            (at (txt "openSeaMapRefreshSeconds"))))
                                                            (field (txt "noaaEncRefreshSeconds")
                                                            (num (
                                                            clamp_bbox_debounce_seconds
                                                            (at (txt "noaaEncRefreshSeconds"))))
                                                            (field
                                                            (txt "activeCaptainRefreshSeconds")
                                                            (num (
                                                            clamp_bbox_debounce_seconds (
                                                            at
                                                            (txt "activeCaptainRefreshSeconds"))))
                                                            end)))))))))))))))))))))))))))))

  unfoldable pub normalize_config : Value N → Fields N
  unfolding other_settings poi_type_flags
  normalize_config raw =
      field (txt "cachingDurationMinutes")
        (positive_or (lit 60) (property_of (txt "cachingDurationMinutes") raw))
        (flag_fields raw poi_type_flags (other_settings raw))
