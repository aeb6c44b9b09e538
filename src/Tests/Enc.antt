-- ===== src/Tests/Enc.antt =====
-- Runs of the NOAA ENC input.
use signalk_activecaptain_re.Base.{ℕ, ◌+◌, ◌*◌, ◌≡◌, refl, true, none, some, List, [], ◌∷◌}
use signalk_activecaptain_re.Base.Text.{Text}
use signalk_activecaptain_re.Base.JsMap.{JsMap}
use signalk_activecaptain_re.Types.{Value, num, null, end}
use signalk_activecaptain_re.Inputs.NoaaEnc.Mapping.{EncLayerKey, rock}
use signalk_activecaptain_re.Inputs.NoaaEnc.Source.{
  EncFeature, CachedFeature, summary_id, parse_summary_id,
}
use signalk_activecaptain_re.Inputs.NoaaEnc.Listing.{NoaaEncSource, finish_list}
use signalk_activecaptain_re.Inputs.NoaaEnc.Laws.{
  all_on_globe, parse_summary_id-summary_id, finish_list-on_globe,
}
use signalk_activecaptain_re.Tests.Sample.{whole_numbers, map_cache}

-- Reads what the sample numbers print.
abbrev first_unit : Text → ℕ
first_unit [] = 0
first_unit (c ∷ s) = c

parse_summary_id-summary_id_example :
    parse_summary_id first_unit (summary_id {N = ℕ} rock 7) ≡ some (rock, 7)
parse_summary_id-summary_id_example = parse_summary_id-summary_id first_unit rock 7 refl refl

abbrev rock_at : Value ℕ → EncFeature ℕ
rock_at lat = record { id = some 7; coordinates = some (num 5, lat); properties = end }

abbrev idle : NoaaEncSource (JsMap Text ℕ) (JsMap Text (CachedFeature ℕ))
idle = record {
  cache = [];
  bbox_cache = record { cache = none; fetches = [] };
  status = record { started_at = []; recent_errors = []; states = [] };
}

abbrev any_time : ℕ → ℕ → ℕ → ℕ
any_time y m d = y + m * 100 + d

abbrev two_rocks : List (EncLayerKey × List (EncFeature ℕ))
two_rocks = (rock, rock_at (num 1) ∷ rock_at null ∷ rock_at (num 91) ∷ []) ∷ []

finish_list-on_globe_example :
    all_on_globe
      (finish_list map_cache first_unit any_time
        (λ ms. ms ∷ [])
        first_unit
        (λ ms. ms)
        2000
        two_rocks
        idle).0
    ≡ true
finish_list-on_globe_example =
    finish_list-on_globe map_cache first_unit any_time (λ ms. ms ∷ []) first_unit (λ ms. ms) 2000
      two_rocks idle
