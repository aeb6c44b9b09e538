-- ===== src/Inputs/LightList/Store.antt =====
-- src/inputs/uscg-light-list/light-list-store.ts: the index in memory with its tiles. Positions and
-- boxes are in the ranges of latitude and longitude, where every cell is a natural number. The file
-- system is not part of this file; a reading of the clock is an argument.
pub mod Buckets
pub mod Index
pub mod Pages
pub mod Visits
pub mod Query
use signalk_activecaptain_re.Base.{
  ℕ, zero, suc, ◌+◌, ◌-◌, ◌*◌, ◌/◌, ◌%◌, Bool, true, false, ◌&&◌, ◌||◌, not, Option, none, some,
  List, [], ◌∷◌, ◌++◌, map, filter, length, ltb, nat_beq, if◌then◌else◌,
}
use signalk_activecaptain_re.Base.Text.{Text, txt, text_eq}
use signalk_activecaptain_re.Base.Equality.{nat_eq}
use signalk_activecaptain_re.Base.Float.{Floats, lit}
use signalk_activecaptain_re.Base.JsMap
use signalk_activecaptain_re.Base.JsMap.{JsMap}
use signalk_activecaptain_re.Types.{Position, Bbox}

pub record Measure (N : Type 0) : Type 0 where
  pub value : N
  pub unit : Text

pub record LightListRecord (N : Type 0) : Type 0 where
  pub llnr : ℕ
  pub name : Text
  pub position : Position N
  pub light_char : Option Text
  pub color : Option Text
  pub nominal_range : Option (Measure N)
  pub focal_plane : Option (Measure N)
  pub structure_type : Option Text
  pub structure_height : Option (Measure N)
  pub daymark_shape : Option Text
  pub daymark_color : Option Text
  pub sound_emitter_type : Option Text
  pub racon : Option Text
  pub aid_type : Option Text
  pub aid_subtype : Option Text
  pub remark : Option Text
  pub district : Text
  pub volume : ℕ
  pub modified_date : Option Text
  pub inactive : Bool

pub record DistrictHeaders : Type 0 where
  pub last_modified : Option Text
  pub etag : Option Text

pub record DistrictMeta : Type 0 where
  pub headers : DistrictHeaders
  pub record_count : ℕ
  pub fetched_at : Text
  pub llnrs : List ℕ

-- The variables of the closure. A key of `records` is the number whose text the source uses.
pub record Store (N : Type 0) : Type 0 where
  pub generated : Text
  pub districts : JsMap Text DistrictMeta
  pub records : JsMap ℕ (LightListRecord N)
  pub tiles : JsMap ℕ (List (LightListRecord N))
  pub record_tile : JsMap ℕ ℕ
  pub dirty_pages : List Text
  pub metadata_dirty : Bool

abbrev pub lon_cell_count : ℕ
lon_cell_count = 3600

unfoldable pub decimal_from : ℕ → ℕ → Text
decimal_from zero n = []
decimal_from (suc fuel) n =
    let rest = decimal_from fuel (n / 10) in
    if ltb n 10 then (b'0' + n) ∷ [] else rest ++ ((b'0' + n % 10) ∷ [])

-- A number in a template string: the digits of a page number; `n + 1` digits are enough.
unfoldable pub decimal : ℕ → Text
unfolding decimal_from
decimal n = decimal_from (n + 1) n

unfoldable pub district_key : Text → ℕ → Text
unfolding decimal
district_key district page = district ++ (b'_' ∷ decimal page)

abbrev pub previous_llnrs : Option DistrictMeta → List ℕ
previous_llnrs none = []
previous_llnrs (some meta) = meta.llnrs

-- `Set.prototype.add`.
abbrev add_page : Text → List Text → List Text
add_page key pages = JsMap.keys (JsMap.set key key (map (λ k. (k, k)) pages))

module _ {N : Type 0} where
  abbrev pub or_empty : Option (List (LightListRecord N)) → List (LightListRecord N)
  or_empty none = []
  or_empty (some bucket) = bucket

  abbrev pub bucket_at : ℕ → JsMap ℕ (List (LightListRecord N)) → List (LightListRecord N)
  bucket_at key tiles = or_empty (JsMap.get key tiles)

  -- `findIndex` and `splice` of the first record with the number.
  unfoldable pub drop_record : ℕ → List (LightListRecord N) → List (LightListRecord N)
  drop_record llnr [] = []
  drop_record llnr (r ∷ rs) =
      let rest = drop_record llnr rs in if nat_beq r.llnr llnr then rs else r ∷ rest

  -- A bucket that became empty is deleted.
  abbrev pub store_bucket :
      ℕ
      → List (LightListRecord N)
      → JsMap ℕ (List (LightListRecord N))
      → JsMap ℕ (List (LightListRecord N))
  store_bucket key [] tiles = JsMap.delete key tiles
  store_bucket key (r ∷ rs) tiles = JsMap.set key (r ∷ rs) tiles

  abbrev pub drop_from_tile :
      ℕ
      → ℕ
      → Option (List (LightListRecord N))
      → JsMap ℕ (List (LightListRecord N))
      → JsMap ℕ (List (LightListRecord N))
  drop_from_tile llnr key none tiles = tiles
  drop_from_tile llnr key (some bucket) tiles = store_bucket key (drop_record llnr bucket) tiles

  unfoldable pub remove_tile : ℕ → Option ℕ → Store N → Store N
  unfolding drop_record
  remove_tile llnr none s = s
  remove_tile llnr (some key) s = record s {
    record_tile = JsMap.delete llnr s.record_tile;
    tiles = drop_from_tile llnr key (JsMap.get key s.tiles) s.tiles;
  }

  unfoldable pub remove_record_from_index : ℕ → Store N → Store N
  unfolding remove_tile
  remove_record_from_index llnr s =
      remove_tile llnr (JsMap.get llnr s.record_tile)
        (record s { records = JsMap.delete llnr s.records })

  unfoldable pub remove_all : List ℕ → Store N → Store N
  unfolding remove_record_from_index
  remove_all [] s = s
  remove_all (llnr ∷ rest) s = remove_all rest (remove_record_from_index llnr s)

module _ {N : Type 0} ⦃F : Floats N⦄ where
  unfoldable pub lat_cell : N → ℕ
  lat_cell latitude = F.to_nat (F.floor (F.mul (F.add latitude (lit 90)) (lit 10)))

  unfoldable pub lon_cell : N → ℕ
  lon_cell longitude = F.to_nat (F.floor (F.mul (F.add longitude (lit 180)) (lit 10)))

  unfoldable pub tile_key : Position N → ℕ
  unfolding lat_cell lon_cell
  tile_key position = lat_cell position.latitude * lon_cell_count + lon_cell position.longitude

  unfoldable pub lon_cell_ranges : Bbox N → List (ℕ × ℕ)
  unfolding lon_cell
  lon_cell_ranges bbox =
      if F.le bbox.west bbox.east
      then (lon_cell bbox.west, lon_cell bbox.east) ∷ []
      else (lon_cell bbox.west, lon_cell_count - 1) ∷ (0, lon_cell bbox.east) ∷ []

  unfoldable pub longitude_in_bbox : N → Bbox N → Bool
  longitude_in_bbox longitude bbox =
      if F.le bbox.west bbox.east
      then F.le bbox.west longitude && F.le longitude bbox.east
      else F.le bbox.west longitude || F.le longitude bbox.east

  unfoldable pub push_record : LightListRecord N → Store N → Store N
  unfolding tile_key
  push_record r s =
      let key = tile_key r.position in
      record s {
        records = JsMap.set r.llnr r s.records;
        tiles = JsMap.set key (bucket_at key s.tiles ++ (r ∷ [])) s.tiles;
        record_tile = JsMap.set r.llnr key s.record_tile;
      }

  unfoldable pub add_record_to_index : LightListRecord N → Store N → Store N
  unfolding remove_record_from_index push_record
  add_record_to_index r s =
      push_record r
        (if JsMap.has r.llnr s.record_tile then remove_record_from_index r.llnr s else s)

  unfoldable pub add_all : List (LightListRecord N) → Store N → Store N
  unfolding add_record_to_index
  add_all [] s = s
  add_all (r ∷ rs) s = add_all rs (add_record_to_index r s)

  unfoldable pub upsert_page :
      Text → Text → List (LightListRecord N) → DistrictHeaders → Store N → Store N
  unfolding remove_all add_all
  upsert_page now key records headers s =
      let stored = add_all records (remove_all (previous_llnrs (JsMap.get key s.districts)) s) in
      record stored {
        districts =
            JsMap.set key
              (record {
                headers = headers;
                record_count = length records;
                fetched_at = now;
                llnrs = map (λ r. r.llnr) records;
              })
              stored.districts;
        generated = now;
        dirty_pages = add_page key stored.dirty_pages;
        metadata_dirty = true;
      }

  unfoldable pub upsert_district :
      Text → Text → ℕ → List (LightListRecord N) → DistrictHeaders → Store N → Store N
  unfolding district_key upsert_page
  upsert_district now district page = upsert_page now (district_key district page)

  unfoldable pub in_bbox : Bbox N → LightListRecord N → Bool
  unfolding longitude_in_bbox
  in_bbox bbox r =
      F.le bbox.south r.position.latitude
      && F.le r.position.latitude bbox.north
      && longitude_in_bbox r.position.longitude bbox

  -- The loop over `n` longitudes of one row, from the key `key` on.
  unfoldable pub query_row :
      Bbox N → JsMap ℕ (List (LightListRecord N)) → ℕ → ℕ → List (LightListRecord N)
  unfolding in_bbox
  query_row bbox tiles key zero = []
  query_row bbox tiles key (suc n) =
      filter (in_bbox bbox) (bucket_at key tiles) ++ query_row bbox tiles (key + 1) n

  unfoldable pub query_ranges :
      Bbox N → JsMap ℕ (List (LightListRecord N)) → ℕ → List (ℕ × ℕ) → List (LightListRecord N)
  unfolding query_row
  query_ranges bbox tiles base [] = []
  query_ranges bbox tiles base ((first, last) ∷ ranges) =
      query_row bbox tiles (base + first) ((last + 1) - first)
      ++ query_ranges bbox tiles base ranges

  -- The loop over `n` rows from the latitude `lat` on.
  unfoldable pub query_rows :
      Bbox N → JsMap ℕ (List (LightListRecord N)) → List (ℕ × ℕ) → ℕ → ℕ → List (LightListRecord N)
  unfolding query_ranges
  query_rows bbox tiles ranges lat zero = []
  query_rows bbox tiles ranges lat (suc n) =
      query_ranges bbox tiles (lat * lon_cell_count) ranges
      ++ query_rows bbox tiles ranges (lat + 1) n

  unfoldable pub query_bbox : Bbox N → Store N → List (LightListRecord N)
  unfolding lat_cell lon_cell_ranges query_rows
  query_bbox bbox s =
      query_rows bbox s.tiles (lon_cell_ranges bbox) (lat_cell bbox.south)
        ((lat_cell bbox.north + 1) - lat_cell bbox.south)
