-- ===== src/Tests/LightList.antt =====
-- Runs of the Light List store.
use signalk_activecaptain_re.Base.{
  ℕ, ◌≡◌, refl, true, false, Option, none, some, List, [], ◌∷◌, arith,
}
use signalk_activecaptain_re.Base.Text.{Text, txt, text_eq, text_beq}
use signalk_activecaptain_re.Base.Equality.{nat_eq}
use signalk_activecaptain_re.Base.JsMap
use signalk_activecaptain_re.Types.{Bbox, Value, nil, cons, num, arr, obj, field, end}
use signalk_activecaptain_re.Inputs.LightList.Store.{
  LightListRecord, DistrictHeaders, DistrictMeta, Store, upsert_page, district_key, decimal,
  decimal_from, query_bbox, lat_cell, lon_cell, in_bbox, add_all, add_record_to_index, push_record,
  remove_all, remove_record_from_index,
}
use signalk_activecaptain_re.Inputs.LightList.Store.Buckets.{find}
use signalk_activecaptain_re.Inputs.LightList.Store.Index.{IsIndexed}
use signalk_activecaptain_re.Inputs.LightList.Store.Pages.{upsert_page-IsIndexed, get-upsert_page}
use signalk_activecaptain_re.Inputs.LightList.Store.Visits.{keep}
use signalk_activecaptain_re.Inputs.LightList.Store.Query.{
  MonotoneCells, query_bbox_scan, antimeridian_missed,
}
use signalk_activecaptain_re.Inputs.LightList.Files.{
  empty_index, district_entries, load, page_records,
}
use signalk_activecaptain_re.Inputs.LightList.Files.Loading.{
  empty_index-IsIndexed, IsLoaded, load-IsLoaded,
}
use signalk_activecaptain_re.Inputs.LightList.Files.Laws.{page_records-upsert_page}
use signalk_activecaptain_re.Tests.Sample.{whole_numbers, at}

abbrev sample_record : ℕ → ℕ → ℕ → LightListRecord ℕ
sample_record llnr latitude longitude = record {
  llnr = llnr;
  name = txt "Light";
  position = at latitude longitude;
  light_char = none;
  color = none;
  nominal_range = none;
  focal_plane = none;
  structure_type = none;
  structure_height = none;
  daymark_shape = none;
  daymark_color = none;
  sound_emitter_type = none;
  racon = none;
  aid_type = none;
  aid_subtype = none;
  remark = none;
  district = txt "05";
  volume = 2;
  modified_date = none;
  inactive = false;
}

abbrev some_headers : DistrictHeaders
some_headers = record { last_modified = some (txt "Mon"); etag = none }

abbrev two_lights : List (LightListRecord ℕ)
two_lights = sample_record 7 2 3 ∷ sample_record 8 2 180 ∷ []

abbrev start : Store ℕ
start = empty_index (txt "t0")

start-IsIndexed : IsIndexed start
start-IsIndexed = empty_index-IsIndexed (txt "t0")

abbrev lit_store : Store ℕ
lit_store = upsert_page (txt "t1") (txt "05_1") two_lights some_headers start

lit_store-IsIndexed : IsIndexed lit_store
lit_store-IsIndexed =
    upsert_page-IsIndexed (txt "t1") (txt "05_1") two_lights some_headers start start-IsIndexed

upsert_page-IsIndexed_example :
    IsIndexed
      (upsert_page (txt "t2") (txt "05_1") (sample_record 7 2 4 ∷ []) some_headers lit_store)
upsert_page-IsIndexed_example =
    upsert_page-IsIndexed (txt "t2") (txt "05_1") (sample_record 7 2 4 ∷ []) some_headers lit_store
      lit_store-IsIndexed

-- A page that does not bring a number that it had takes the record of the number away.
get-upsert_page_example :
    JsMap.get 8
      (upsert_page
        (txt "t2")
        (txt "05_1")
        (sample_record 7 2 4 ∷ [])
        some_headers
        lit_store).records
    ≡ none
unfolding upsert_page add_all add_record_to_index push_record remove_all remove_record_from_index
    JsMap.get JsMap.set text_beq
get-upsert_page_example =
    get-upsert_page (txt "t2") (txt "05_1") (sample_record 7 2 4 ∷ []) some_headers lit_store 8

whole_numbers-MonotoneCells : MonotoneCells ℕ
unfolding lat_cell lon_cell
whole_numbers-MonotoneCells = record { lat = λ a b h. ground arith; lon = λ a b h. ground arith }

abbrev small_box : Bbox ℕ
small_box = record { north = 4; south = 1; east = 5; west = 2 }

query_bbox_scan_example :
    find 7 (query_bbox small_box lit_store)
    ≡ keep (in_bbox small_box) (JsMap.get 7 lit_store.records)
unfolding upsert_page add_all add_record_to_index push_record remove_all JsMap.get JsMap.set
    lon_cell
query_bbox_scan_example =
    query_bbox_scan whole_numbers-MonotoneCells small_box lit_store 7 lit_store-IsIndexed refl

-- The box from 179 over the antimeridian to 1, in which the record 8 lies, on the topmost row.
abbrev crossing_box : Bbox ℕ
crossing_box = record { north = 2; south = 1; east = 1; west = 179 }

antimeridian_missed_example :
    (find 8 (query_bbox crossing_box lit_store) ≡ none)
    × (in_bbox crossing_box (sample_record 8 2 180) ≡ true)
unfolding upsert_page add_all add_record_to_index push_record remove_all JsMap.get JsMap.set
    lon_cell
antimeridian_missed_example =
    antimeridian_missed crossing_box lit_store (sample_record 8 2 180) 8 lit_store-IsIndexed refl
      refl refl refl refl (ground arith) refl refl

abbrev sample_meta : DistrictMeta
sample_meta = record { headers = some_headers; record_count = 3; fetched_at = txt "t0"; llnrs = [] }

-- A page file with one light and a value that is none, under metadata that claims three records.
abbrev light_value : Value ℕ
light_value = obj (field (txt "llnr") (num 7) (field (txt "position") (obj end) end))

abbrev page_file : Text → Option (Value ℕ)
page_file key = some (arr (cons light_value (cons (num 5) nil)))

abbrev index_file : Value ℕ
index_file = obj (field (txt "districts") (obj (field (txt "05_1") (obj end) end)) end)

abbrev no_index : ℕ → Text
no_index i = []

load-IsLoaded_example :
    IsLoaded no_index
      (λ v. sample_meta)
      (λ v. sample_record 7 2 3)
      page_file
      ((txt "05_1", obj end) ∷ [])
      (load no_index
        (λ v. sample_meta)
        (λ v. sample_record 7 2 3)
        page_file
        (txt "t1")
        (some index_file))
unfolding district_entries text_beq
load-IsLoaded_example =
    load-IsLoaded no_index (λ v. sample_meta) (λ v. sample_record 7 2 3) page_file (txt "t1")
      (some index_file)

page_records-upsert_page_example :
    page_records (txt "05_1") (upsert_page (txt "t1") (txt "05_1") two_lights some_headers start)
    ≡ two_lights
page_records-upsert_page_example =
    page_records-upsert_page (txt "t1") (txt "05_1") two_lights some_headers start refl

district_key_example : district_key (txt "05") 12 ≡ txt "05_12"
unfolding district_key decimal decimal_from
district_key_example = refl
