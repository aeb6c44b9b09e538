-- ===== src/Tests/Values.antt =====
-- Runs of the helpers that the components share, and of the status recorder.
use signalk_activecaptain_re.Base.{ℕ, ◌≡◌, false, List, [], ◌∷◌}
use signalk_activecaptain_re.Base.Text.{txt, text_eq}
use signalk_activecaptain_re.Base.JsMap
use signalk_activecaptain_re.Panel.NormalizeConfig.{normalize_config}
use signalk_activecaptain_re.Panel.NormalizeConfig.Laws.{
  joined, types_left_on, build_poi_types_string-normalize_config,
}
use signalk_activecaptain_re.Types.{Value, obj, bool, end, field}
use signalk_activecaptain_re.Shared.PoiTypeSelection.{build_poi_types_string, poi_type_flags}
use signalk_activecaptain_re.Status
use signalk_activecaptain_re.Status.{PluginStatus}
use signalk_activecaptain_re.Status.Laws.{
  Recording, error, list_fetch, apply_all, get-apply_all, map_row, row_after_all,
}
use signalk_activecaptain_re.Tests.Sample.{whole_numbers}

abbrev fresh : PluginStatus
fresh = Status.create (txt "t0") ((txt "usace", txt "USACE") ∷ [])

abbrev recordings : List Recording
recordings =
    error (txt "t1") (txt "usace") (txt "down") ∷ list_fetch (txt "t2") (txt "usace") 3 ∷ []

get-apply_all_example :
    JsMap.get (txt "usace") (apply_all recordings fresh).states
    ≡ map_row (row_after_all recordings (txt "usace")) (JsMap.get (txt "usace") fresh.states)
get-apply_all_example = get-apply_all recordings (txt "usace") fresh

-- A stored configuration that turns one type off and says nothing of the others.
abbrev no_marinas : Value ℕ
no_marinas = obj (field (txt "includeMarinas") (bool false) end)

build_poi_types_string-normalize_config_example :
    build_poi_types_string (normalize_config no_marinas)
    ≡ joined (types_left_on no_marinas poi_type_flags)
build_poi_types_string-normalize_config_example = build_poi_types_string-normalize_config no_marinas
