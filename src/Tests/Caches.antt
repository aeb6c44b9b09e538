-- ===== src/Tests/Caches.antt =====
-- Runs of the ActiveCaptain input's caches and filters.
use signalk_activecaptain_re.Base.{
  ℕ, ◌-◌, ◌*◌, ◌≡◌, refl, true, false, Option, none, some, List, [], ◌∷◌, if◌then◌else◌,
}
use signalk_activecaptain_re.Base.Text.{Text, txt, text_beq, text_eq}
use signalk_activecaptain_re.Base.JsMap
use signalk_activecaptain_re.Base.JsMap.{JsMap}
use signalk_activecaptain_re.Types.{Value, Bbox, num, str, obj, field, end}
use signalk_activecaptain_re.Shared.BboxDebounce.Laws.{
  Event, requests, rejects, expires, run, Serves, new_run, run-Serves,
}
use signalk_activecaptain_re.Inputs.ActiveCaptain.PoiStore.{PoiStore, persist, flush, load}
use signalk_activecaptain_re.Inputs.ActiveCaptain.PoiStore.Laws.{usable, get-load}
use signalk_activecaptain_re.Tests.Sample.{whole_numbers, map_cache}

abbrev viewport : Bbox ℕ
viewport = record { north = 4; south = 3; east = 2; west = 1 }

-- A request, its rejection, and two more, between which the entry expires.
abbrev refreshes : List Event
refreshes =
    requests (txt "a")
    ∷ rejects 0
    ∷ requests (txt "a")
    ∷ expires (txt "a")
    ∷ requests (txt "b")
    ∷ []

run-Serves_example :
    Serves map_cache (txt "a") (run map_cache refreshes (new_run map_cache (some [])))
run-Serves_example = run-Serves map_cache (some []) refreshes (txt "a") JsMap.get-empty

abbrev marina_details : Value ℕ
marina_details = obj (
    field (txt "pointOfInterest")
      (obj (
        field (txt "poiType") (str (txt "Marina"))
          (field (txt "name") (str (txt "Bay")) (field (txt "mapLocation") (obj end) end))))
      end)

abbrev empty_store : PoiStore ℕ
empty_store = record { entries = []; write_pending = false; file = none }

abbrev no_index : ℕ → Text
no_index i = []

-- The file of the one entry, and a reader and a writer of it alone.
abbrev marina_file : Value ℕ
marina_file = obj (
    field (txt "version") (num 1) (
      field (txt "entries")
        (obj (
          field (txt "7")
            (obj (field (txt "timestamp") (num 90) (field (txt "details") marina_details end)))
            end))
        end))

abbrev write_json : Value ℕ → Text
write_json v = txt "{}"

abbrev read_json : Text → Option (Value ℕ)
read_json t = some marina_file

get-load_example :
    JsMap.get
      (txt "7")
      (load no_index read_json 1 100
        (flush write_json true (persist 90 (txt "7") marina_details empty_store))).entries
    ≡ usable no_index (100 - 1 * 60000) (
        if text_beq (txt "7") (txt "7")
        then some (record { timestamp = 90; details = marina_details })
        else JsMap.get (txt "7") [])
unfolding persist JsMap.set
get-load_example =
    get-load no_index write_json read_json 1 90 100 (txt "7") marina_details empty_store (txt "7")
      refl refl
