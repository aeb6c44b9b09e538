-- ===== src/Inputs/LightList/Store/Query.antt =====
-- The tile query against the scan of all records.
use signalk_activecaptain_re.Base.{
  ℕ, zero, suc, ◌+◌, ◌-◌, ◌*◌, ◌≤◌, ◌<◌, ◌≡◌, refl, ap, ◌∙◌, Bool, true, false, Option, none, some,
  List, if◌then◌else◌, nat_beq, ltb, arith, inl, inr, Bool-cases,
}
use mathlib.Core.Path.{subst}
use signalk_activecaptain_re.Base.Equality.{nat_eq}
use signalk_activecaptain_re.Base.Float.{Floats}
use signalk_activecaptain_re.Base.JsMap
use signalk_activecaptain_re.Base.JsMap.{JsMap}
use signalk_activecaptain_re.Types.{Bbox}
use signalk_activecaptain_re.Inputs.LightList.Store.{
  LightListRecord, Store, tile_key, lat_cell, lon_cell, lon_cell_ranges, longitude_in_bbox, in_bbox,
  query_bbox, lon_cell_count,
}
use signalk_activecaptain_re.Inputs.LightList.Store.Index.{IsIndexed, tile_of}
use signalk_activecaptain_re.Inputs.LightList.Store.Buckets.{find}
use signalk_activecaptain_re.Inputs.LightList.Store.Visits.{
  keep, in_ranges, in_rows, visited, find-query_bbox,
}

-- The cells grow with the coordinate: rounding to a nearest double and `Math.floor` are monotone.
pub record MonotoneCells (N : Type 0) ⦃F : Floats N⦄ : Type 0 where
  pub lat : (a b : N) → F.le a b ≡ true → lat_cell a ≤ lat_cell b
  pub lon : (a b : N) → F.le a b ≡ true → lon_cell a ≤ lon_cell b

in_rows-hit :
    (ranges : List (ℕ × ℕ)) (lat n row : ℕ) (t : Option ℕ)
    → lat ≤ row
    → row < lat + n
    → in_ranges (row * lon_cell_count) t ranges ≡ true
    → in_rows ranges lat n t ≡ true
in_rows-hit ranges lat zero row t a b h = ground arith
in_rows-hit ranges lat (suc n) row t a b h = elim (Bool-cases (nat_beq lat row)) [
  | inl e ↦
      let q : row ≡ lat = ground (arith, e) in
      ground (arith, subst (λ x. in_ranges (x * lon_cell_count) t ranges ≡ true) q h)
  | inr e ↦
      ground (arith, e, in_rows-hit ranges (lat + 1) n row t (ground (arith, e)) (omega arith) h)
]

module _ {N : Type 0} ⦃F : Floats N⦄ (m : MonotoneCells N) (bbox : Bbox N) where
  in_box-ranges :
      (row : ℕ) (longitude : N)
      → lon_cell longitude < lon_cell_count
      → longitude_in_bbox longitude bbox ≡ true
      → in_ranges
          (row * lon_cell_count)
          (some (row * lon_cell_count + lon_cell longitude))
          (lon_cell_ranges bbox)
        ≡ true
  unfolding lon_cell_ranges longitude_in_bbox
  in_box-ranges row longitude c h =
      ground (arith, m.lon bbox.west longitude, m.lon longitude bbox.east)

  tile_visited :
      (r : LightListRecord N)
      → lon_cell r.position.longitude < lon_cell_count
      → in_bbox bbox r ≡ true
      → visited bbox (some (tile_key r.position)) ≡ true
  unfolding in_bbox tile_key
  tile_visited r c h =
      let row = lat_cell r.position.latitude in
      let south : F.le bbox.south r.position.latitude ≡ true = ground (arith, h) in
      let north : F.le r.position.latitude bbox.north ≡ true = ground (arith, h) in
      let lo = m.lat bbox.south r.position.latitude south in
      let hi = m.lat r.position.latitude bbox.north north in
      in_rows-hit (lon_cell_ranges bbox) (lat_cell bbox.south)
        ((lat_cell bbox.north + 1) - lat_cell bbox.south) row (some (tile_key r.position)) lo
        (omega arith) (in_box-ranges row r.position.longitude c (ground (arith, h)))

  -- The test that a record is not on the antimeridian, where its tile stands in the row above.
  abbrev pub below_antimeridian : Option (LightListRecord N) → Bool
  below_antimeridian none = true
  below_antimeridian (some r) = ltb (lon_cell r.position.longitude) lon_cell_count

  scan_all :
      (o : Option (LightListRecord N))
      → below_antimeridian o ≡ true
      → (if visited bbox (tile_of o) then keep (in_bbox bbox) o else none) ≡ keep (in_bbox bbox) o
  scan_all none b = ground arith
  scan_all (some r) b = ground (arith, tile_visited r)

  -- Where the cells grow with the coordinates: a query of the tiles of an index finds under a number
  -- what a scan of all records finds, the record if it lies in the box, provided that the record is
  -- not on the antimeridian.
  pub query_bbox_scan :
      (s : Store N) (l : ℕ)
      → IsIndexed s
      → below_antimeridian (JsMap.get l s.records) ≡ true
      → find l (query_bbox bbox s) ≡ keep (in_bbox bbox) (JsMap.get l s.records)
  query_bbox_scan s l i b =
      find-query_bbox bbox s i l ∙ rw (i.placed l) (scan_all (JsMap.get l s.records) b)

in_rows-miss :
    (ranges : List (ℕ × ℕ)) (lat n k : ℕ)
    → ((row : ℕ)
        → lat ≤ row
        → row < lat + n
        → in_ranges (row * lon_cell_count) (some k) ranges ≡ false)
    → in_rows ranges lat n (some k) ≡ false
in_rows-miss ranges lat zero k h = refl
in_rows-miss ranges lat (suc n) k h = ground (
  arith,
  h lat (omega arith) (omega arith),
  in_rows-miss ranges (lat + 1) n k (λ row f g. h row (omega arith) (omega arith)),
)

module _ {N : Type 0} ⦃F : Floats N⦄ (bbox : Bbox N) where
  missed_ranges :
      (top row : ℕ)
      → F.le bbox.west bbox.east ≡ false
      → lon_cell bbox.east < lon_cell_count
      → row ≤ top
      → in_ranges
          (row * lon_cell_count)
          (some (top * lon_cell_count + lon_cell_count))
          (lon_cell_ranges bbox)
        ≡ false
  unfolding lon_cell_ranges
  missed_ranges top row c e h = rw c (ground arith)

  -- A box that crosses the antimeridian does not find a record on it that lies between the latitudes
  -- of the box and in its topmost row of cells, though the record passes the test that the query
  -- makes of the records of a tile.
  pub antimeridian_missed :
      (s : Store N) (r : LightListRecord N) (l : ℕ)
      → IsIndexed s
      → JsMap.get l s.records ≡ some r
      → F.le bbox.west bbox.east ≡ false
      → F.le bbox.west r.position.longitude ≡ true
      → F.le bbox.south r.position.latitude ≡ true
      → F.le r.position.latitude bbox.north ≡ true
      → lon_cell bbox.east < lon_cell_count
      → lon_cell r.position.longitude ≡ lon_cell_count
      → lat_cell r.position.latitude ≡ lat_cell bbox.north
      → (find l (query_bbox bbox s) ≡ none) × (in_bbox bbox r ≡ true)
  unfolding in_bbox longitude_in_bbox tile_key
  antimeridian_missed s r l i g c w south north e lon lat =
      let top = lat_cell bbox.north in
      let key : JsMap.get l s.record_tile ≡ some (top * lon_cell_count + lon_cell_count) =
        i.placed l ∙ ap tile_of g ∙ rw (lat, lon) refl in
      let missed =
        in_rows-miss (lon_cell_ranges bbox) (lat_cell bbox.south)
          ((lat_cell bbox.north + 1) - lat_cell bbox.south) (top * lon_cell_count + lon_cell_count)
          (λ row f h. missed_ranges top row c e (omega arith)) in
      (find-query_bbox bbox s i l ∙ rw key (rw missed refl), ground (arith, c, w, south, north))
