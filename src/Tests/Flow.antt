-- ===== src/Tests/Flow.antt =====
-- Runs of the position monitor, the request queue, the retries and the registry.
use signalk_activecaptain_re.Base.{
  ℕ, ◌+◌, ◌-◌, ◌≡◌, refl, true, false, none, some, List, [], ◌∷◌, arith, ltb, if◌then◌else◌,
}
use mathlib.Core.List.{Memᴰ}
use signalk_activecaptain_re.Base.Text.{txt, text_beq, text_eq}
use signalk_activecaptain_re.Base.JsMap
use signalk_activecaptain_re.Types.{Position, PoiType, PoiSummary, Value, num, obj, field, end}
use signalk_activecaptain_re.Geo.{distance_meters, to_radians}
use signalk_activecaptain_re.Monitoring.{PositionScanContributor, box, Monitor, stop}
use signalk_activecaptain_re.Monitoring.Laws.{Event, delta, settles, run, Quiet, stopped_run}
use signalk_activecaptain_re.Monitoring.Throttle.{IsThrottled}
use signalk_activecaptain_re.Monitoring.Runs.{run-Throttled}
use signalk_activecaptain_re.Inputs.Http.Queue.{acquire, release, pump, start_next}
use signalk_activecaptain_re.Inputs.Http.Queue.Laws.{
  Call, request, finish, IsServing, serve, ends_started, empty_queue, serve-IsServing,
}
use signalk_activecaptain_re.Inputs.Http.Retry.{
  RateLimitOptions, Answer, response, fetch_with_retry,
}
use signalk_activecaptain_re.Inputs.Http.Retry.Laws.{EndsWith, fetch_with_retry_total}
use signalk_activecaptain_re.Inputs.Registry.{
  InputModule, create_registry, value, failed, namespaced, list_points_of_interest, route_details,
}
use signalk_activecaptain_re.Inputs.Registry.Laws.{
  list_points_of_interest_lem, route_details-namespaced,
}
use signalk_activecaptain_re.Status
use signalk_activecaptain_re.Status.{PluginStatus, SourceState}
use signalk_activecaptain_re.Inputs.Registry.{Merge, merge_one}
use signalk_activecaptain_re.Inputs.UsWaters.{is_in_us_waters, should_skip_outside_us_waters}
use signalk_activecaptain_re.Inputs.UsWaters.Laws.{skipped-merge_one}
use signalk_activecaptain_re.Tests.Sample.{whole_numbers, at, sample_poi}

-- An output that counts its evaluations, and asks for a box.
abbrev counter : PositionScanContributor ℕ ℕ
counter = record {
  build_fetch_box = λ p s. (box (record { north = 1; south = 0; east = 1; west = 0 }), s);
  evaluate = λ p pois s. s + 1;
}

abbrev started : Monitor ℕ ℕ
started = record {
  stopped = false;
  tick_in_flight = false;
  latest_position = none;
  last_tick_position = none;
  last_tick_time = 0;
  reads = 0;
  outputs = 0;
  scans = [];
  ticks = [];
  requests = [];
}

abbrev fix : Value ℕ
fix = obj (field (txt "latitude") (num 1) (field (txt "longitude") (num 1) end))

abbrev events : List (Event ℕ)
events = delta fix ∷ settles (some []) ∷ delta fix ∷ settles none ∷ []

stopped_run_example :
    (after : Monitor ℕ ℕ) × (run (counter ∷ []) 100 60000 (λ i. i) events (stop started)
      ≡ some after)
    × Quiet (counter ∷ []) 100 60000 (λ i. i) (stop started) after
unfolding stop
stopped_run_example = stopped_run (counter ∷ []) 100 60000 (λ i. i) events (stop started) refl

nothing_left : (x : ℕ) → x - x ≡ 0
nothing_left x = omega arith

no_distance : (p : Position ℕ) → whole_numbers.le 100 (distance_meters p p) ≡ false
unfolding distance_meters to_radians
no_distance p = rw (nothing_left p.latitude, nothing_left p.longitude) refl

run-Throttled_example :
    (after : Monitor ℕ ℕ) × (run (counter ∷ []) 100 60000 (λ i. i) events started ≡ some after)
    × IsThrottled (counter ∷ []) 100 60000 (λ i. i) after
run-Throttled_example =
    run-Throttled (counter ∷ []) 100 60000 (λ i. i) no_distance (λ i. omega arith) events started
      (record { latest = refl; spaced = omega arith; one_scan = refl })

abbrev calls : List Call
calls = request 0 7 ∷ request 1 8 ∷ request 2 9 ∷ finish 100 ∷ []

serve-IsServing_example : IsServing 2 500 (7 ∷ 8 ∷ 9 ∷ []) 1 (serve 2 500 calls empty_queue)
unfolding ends_started acquire release pump start_next
serve-IsServing_example = serve-IsServing 2 500 calls refl

abbrev limits : RateLimitOptions ℕ
limits = record {
  max_concurrency = 2;
  min_delay = 500;
  backoff_base = 1000;
  max_backoff = 30000;
  max_retries = 3;
  max_retry_after = 300000;
}

-- A server that is not available at first.
abbrev answers : ℕ → Answer
answers i = if ltb i 2 then response 503 none else response 200 none

fetch_with_retry_total_example :
    (n : ℕ) × EndsWith
      (λ s. 0)
      (λ s. 0)
      (λ s. s)
      (λ i. 1)
      (λ i. i)
      answers
      (λ i. false)
      limits
      0
      n
      (fetch_with_retry (λ s. 0) (λ s. 0) (λ s. s) (λ i. 1) (λ i. i) answers (λ i. false) limits)
fetch_with_retry_total_example =
    fetch_with_retry_total (λ s. 0) (λ s. 0) (λ s. s) (λ i. 1) (λ i. i) answers (λ i. false) limits

abbrev fresh : PluginStatus
fresh = Status.create (txt "t0") ((txt "usace", txt "USACE") ∷ (txt "openseamap", txt "OSM") ∷ [])

abbrev lock : PoiSummary ℕ
lock = sample_poi (txt "12-7") PoiType.lock none (at 1 1)

list_points_of_interest_lem_example :
    (list_points_of_interest
      (txt "t1")
      ((txt "usace", value (lock ∷ [])) ∷ (txt "openseamap", failed (txt "down")) ∷ [])
      fresh).0
    ≡ some (namespaced (txt "usace") lock ∷ [])
list_points_of_interest_lem_example =
    list_points_of_interest_lem (txt "t1")
      ((txt "usace", value (lock ∷ [])) ∷ (txt "openseamap", failed (txt "down")) ∷ []) fresh

abbrev usace : InputModule ℕ
usace = record { id = txt "usace"; name = txt "USACE"; enabled = true; source = 5 }

route_details-namespaced_example :
    route_details {S = ℕ} ((txt "usace", 5) ∷ []) (namespaced (txt "usace") lock).id
    ≡ some (5, txt "12-7")
unfolding JsMap.get text_beq create_registry
route_details-namespaced_example =
    route_details-namespaced (usace ∷ []) (usace ∷ []) usace ((txt "usace", 5) ∷ []) lock refl
      (Memᴰ.head refl) (λ e. ground (arith, e))

abbrev merging : Merge ℕ
merging = record { merged = []; any_ok = false; any_timeout = false; status = fresh }

abbrev usace_row : SourceState
usace_row = record {
  name = txt "USACE";
  api_reachable = none;
  last_list_fetch = none;
  just_skipped = false;
}

-- The sample position is inside the envelope of Guam.
skipped-merge_one_example :
    ((should_skip_outside_us_waters (some (at 15 145)) fresh (txt "usace")).0 ≡ false)
    × (JsMap.get
          (txt "usace")
          (merge_one (txt "t1") (txt "usace") (value (lock ∷ [])) (record merging {
            status = (should_skip_outside_us_waters (some (at 15 145)) fresh (txt "usace")).1;
          })).status.states
        ≡ some (record usace_row {
          api_reachable = some true;
          last_list_fetch = some (record { at = txt "t1"; poi_count = 1 });
        }))
unfolding Status.create JsMap.get JsMap.set text_beq is_in_us_waters
skipped-merge_one_example =
    skipped-merge_one (at 15 145) (txt "t1") (txt "usace") (lock ∷ []) usace_row merging refl
