-- ===== src/Inputs/Dedupe.antt =====
-- src/inputs/dedupe-pois.ts: the merge of the sources' points into the base layer's, and the
-- collapse of the duplicates of one source. An object that the source finds again by identity or
-- changes through a second reference is an index here. A number is a key of a `Map` by an equality
-- that is an instance argument: SameValueZero on numbers with one zero and one NaN.
pub mod Standin
pub mod Grid
pub mod SameSource
pub mod Seats
pub mod Merging
pub mod AgainstBase
use signalk_activecaptain_re.Base.{
  ℕ, zero, suc, Bool, true, false, ◌&&◌, ◌||◌, not, Option, none, some, List, [], ◌∷◌, ◌++◌, map,
  any, filter, length, modify_at, get_elem?, if◌then◌else◌,
}
use signalk_activecaptain_re.Base.Text.{Text, txt, text_eq, join_with}
use signalk_activecaptain_re.Base.Equality.{Eq, ◌==◌}
use signalk_activecaptain_re.Base.Float.{Floats, lit}
use signalk_activecaptain_re.Base.JsMap
use signalk_activecaptain_re.Base.JsMap.{JsMap}
use signalk_activecaptain_re.Types.{PoiType, poi_type_beq, Position, PoiSummary}
use signalk_activecaptain_re.Geo.{distance_meters}
use signalk_activecaptain_re.Outputs.BridgeAirDraft.Resolver.{active_captain_source_id}

abbrev pub base_source_id : Text
base_source_id = active_captain_source_id

abbrev pub default_dedupe_radius_meters : {N : Type 0} ⦃F : Floats N⦄ → N
default_dedupe_radius_meters = lit 150

abbrev meters_per_degree : {N : Type 0} ⦃F : Floats N⦄ → N
meters_per_degree = lit 111320

abbrev cell_key_stride : {N : Type 0} ⦃F : Floats N⦄ → N
cell_key_stride = lit 100000000

abbrev pub min_safe_radius_meters : {N : Type 0} ⦃F : Floats N⦄ → N
min_safe_radius_meters = lit 1

-- A point in a grid, with its place in the list that holds the object.
pub record Candidate (N : Type 0) : Type 0 where
  pub index : ℕ
  pub poi : PoiSummary N

abbrev pub Grid : Type 0 → Type 0
Grid N = JsMap N (List (Candidate N))

pub record Corroboration (N : Type 0) : Type 0 where
  pub slugs : List Text
  pub attributions : List Text
  pub clearance : Option N

-- An entry of the map `corroboration`, which has one for each base point, in their order.
pub record Corroborated (N : Type 0) : Type 0 where
  pub base : PoiSummary N
  pub merged : Corroboration N

pub data DedupeRadiusSpec (N : Type 0) : Type 0 where
  uniform : N → DedupeRadiusSpec N
  per_source : JsMap Text N → DedupeRadiusSpec N

-- The variables of the loop over the points of other sources.
pub record BaseMerge (N : Type 0) : Type 0 where
  pub corroboration : List (Corroborated N)
  pub survivors : List (PoiSummary N)

-- The variables of the loop of `dedupeSameSource`.
pub record SourceMerge (N : Type 0) : Type 0 where
  pub kept_by_source : JsMap Text (Grid N)
  pub out : List (PoiSummary N)

abbrev pub or_empty : {A : Type 0} → Option (List A) → List A
or_empty none = []
or_empty (some xs) = xs

-- `includes` and `push` of what is not yet there.
abbrev pub add_new : Text → List Text → List Text
add_new t ts = if any (λ u. u == t) ts then ts else ts ++ (t ∷ [])

abbrev pub grid_of : {N : Type 0} → Text → JsMap Text (Grid N) → Grid N
grid_of source kept = or_empty (JsMap.get source kept)

abbrev pub or_else : {A : Type 0} → Option A → Option A → Option A
or_else none o = o
or_else (some a) o = some a

module _ {N : Type 0} ⦃F : Floats N⦄ ⦃key : Eq N⦄ where
  abbrev pub pack_cell_key : N → N → N
  pack_cell_key x y = F.add (F.mul x cell_key_stride) y

  unfoldable pub matches : PoiType → Position N → N → PoiSummary N → Bool
  matches type position radius candidate =
      poi_type_beq candidate.type type && F.le (distance_meters candidate.position position) radius

  unfoldable pub first_match : PoiType → Position N → N → List (Candidate N) → Option (Candidate N)
  unfolding matches
  first_match type position radius [] = none
  first_match type position radius (c ∷ cs) =
      if matches type position radius c.poi then some c else first_match type position radius cs

  abbrev pub bucket_at : Grid N → N → List (Candidate N)
  bucket_at grid k = or_empty (JsMap.get k grid)

  unfoldable pub scan_cells : Grid N → PoiType → Position N → N → List N → Option (Candidate N)
  unfolding first_match
  scan_cells grid type position radius [] = none
  scan_cells grid type position radius (k ∷ ks) =
      or_else (first_match type position radius (bucket_at grid k))
        (scan_cells grid type position radius ks)

  abbrev steps : List N
  steps = F.neg (lit 1) ∷ lit 0 ∷ lit 1 ∷ []

  -- The keys of the nine cells, in the order of the two loops.
  unfoldable pub neighborhood : N → N → List N
  neighborhood x y =
      (map (λ dy. pack_cell_key (F.add x (F.neg (lit 1))) (F.add y dy)) steps
        ++ map (λ dy. pack_cell_key (F.add x (lit 0)) (F.add y dy)) steps)
      ++ map (λ dy. pack_cell_key (F.add x (lit 1)) (F.add y dy)) steps

  unfoldable pub scan_neighborhood :
      Grid N → N → N → PoiType → Position N → N → Option (Candidate N)
  unfolding scan_cells neighborhood
  scan_neighborhood grid x y type position radius =
      scan_cells grid type position radius (neighborhood x y)

  unfoldable pub push_to_bucket : N → Candidate N → Grid N → Grid N
  push_to_bucket k c grid = JsMap.set k (bucket_at grid k ++ (c ∷ [])) grid

  unfoldable pub min_clearance : Option N → Option N → Option N
  min_clearance current none = current
  min_clearance none (some candidate) = some candidate
  min_clearance (some current) (some candidate) =
      some (if F.lt candidate current then candidate else current)

  unfoldable raw_radius : Text → DedupeRadiusSpec N → N
  raw_radius source (uniform radius) = radius
  raw_radius source (per_source radii) = or_value (JsMap.get source radii)
    where
      or_value : Option N → N
      or_value none = default_dedupe_radius_meters
      or_value (some radius) = radius

  unfoldable pub at_least_safe : N → N
  at_least_safe raw = if F.lt raw min_safe_radius_meters then min_safe_radius_meters else raw

  unfoldable pub radius_for : Text → DedupeRadiusSpec N → N
  unfolding raw_radius at_least_safe
  radius_for source spec = at_least_safe (raw_radius source spec)

  unfoldable greatest : N → JsMap Text N → N
  greatest max [] = max
  greatest max ((source, value) ∷ radii) = greatest (if F.lt max value then value else max) radii

  unfoldable pub grid_radius : DedupeRadiusSpec N → N
  unfolding greatest at_least_safe
  grid_radius (uniform radius) = at_least_safe radius
  grid_radius (per_source radii) = at_least_safe (greatest default_dedupe_radius_meters radii)

  abbrev sum_latitudes : N → List (PoiSummary N) → N
  sum_latitudes sum [] = sum
  sum_latitudes sum (poi ∷ pois) = sum_latitudes (F.add sum poi.position.latitude) pois

  unfoldable pub lon_scale : List (PoiSummary N) → N
  lon_scale pois =
      let mean = F.div (sum_latitudes (lit 0) pois) (lit (length pois)) in
      F.mul meters_per_degree (F.cos (F.div (F.mul mean F.pi) (lit 180)))

  unfoldable pub cell_coords : N → N → PoiSummary N → N × N
  cell_coords scale cell_radius poi = (
    F.floor (F.div (F.mul poi.position.longitude scale) cell_radius),
    F.floor (F.div (F.mul poi.position.latitude meters_per_degree) cell_radius),
  )

  -- The write of the folded clearance to the survivor; without one the field is left as it is.
  unfoldable pub fold_clearance : Option N → PoiSummary N → PoiSummary N
  unfolding min_clearance
  fold_clearance clearance kept = write (min_clearance kept.vertical_clearance_meters clearance)
    where
      write : Option N → PoiSummary N
      write none = kept
      write (some folded) = record kept { vertical_clearance_meters = some folded }

  unfoldable pub is_base : PoiSummary N → Bool
  is_base poi = poi.source == base_source_id

  unfoldable pub is_listed : List Text → PoiSummary N → Bool
  is_listed dedupe_sources poi = any (λ s. s == poi.source) dedupe_sources

  abbrev pub with_own_source : PoiSummary N → PoiSummary N
  with_own_source poi = record poi { sources = some (poi.source ∷ []) }

  abbrev pub seed : PoiSummary N → Corroborated N
  seed base = record {
    base = base;
    merged = record {
      slugs = base.source ∷ [];
      attributions = base.attribution ∷ [];
      clearance = base.vertical_clearance_meters;
    };
  }

  -- The credit of a source that is new to the base point, and the fold of the clearance.
  unfoldable pub merge_into : PoiSummary N → Corroborated N → Corroborated N
  unfolding min_clearance
  merge_into poi c =
      let is_new = not (any (λ s. s == poi.source) c.merged.slugs) in
      record c {
        merged = record {
          slugs = if is_new then c.merged.slugs ++ (poi.source ∷ []) else c.merged.slugs;
          attributions =
              if is_new
              then add_new poi.attribution c.merged.attributions
              else c.merged.attributions;
          clearance = min_clearance c.merged.clearance poi.vertical_clearance_meters;
        };
      }

  unfoldable pub base_survivor : Corroborated N → PoiSummary N
  base_survivor c = emit c.merged.clearance
    where
      emit : Option N → PoiSummary N
      emit none = record c.base {
        sources = some c.merged.slugs;
        attribution = join_with (txt "; ") c.merged.attributions;
      }
      emit (some clearance) = record c.base {
        sources = some c.merged.slugs;
        attribution = join_with (txt "; ") c.merged.attributions;
        vertical_clearance_meters = some clearance;
      }

  module _ (spec : DedupeRadiusSpec N) (cell_coords : PoiSummary N → N × N)
      (dedupe_sources : List Text) where
    abbrev scan_grid : Grid N → PoiSummary N → Option (Candidate N)
    scan_grid grid poi =
        let cell = cell_coords poi in
        scan_neighborhood grid cell.0 cell.1 poi.type poi.position (radius_for poi.source spec)

    abbrev cell_key : PoiSummary N → N
    cell_key poi = let cell = cell_coords poi in pack_cell_key cell.0 cell.1

    abbrev keep_point : PoiSummary N → SourceMerge N → SourceMerge N
    keep_point poi m = record {
      kept_by_source =
          JsMap.set poi.source
            (push_to_bucket (cell_key poi) (record { index = length m.out; poi = poi })
              (grid_of poi.source m.kept_by_source))
            m.kept_by_source;
      out = m.out ++ (poi ∷ []);
    }

    unfoldable pub collapse_with :
        Option (Candidate N) → PoiSummary N → SourceMerge N → SourceMerge N
    unfolding fold_clearance push_to_bucket
    collapse_with (some kept) poi m = record m {
      out = modify_at kept.index (fold_clearance poi.vertical_clearance_meters) m.out;
    }
    collapse_with none poi m = keep_point poi m

    unfoldable pub collapse_one : PoiSummary N → SourceMerge N → SourceMerge N
    unfolding collapse_with scan_neighborhood radius_for is_listed
    collapse_one poi m =
        if is_listed dedupe_sources poi
        then collapse_with (scan_grid (grid_of poi.source m.kept_by_source) poi) poi m
        else record m { out = m.out ++ (poi ∷ []) }

    unfoldable pub collapse_all : List (PoiSummary N) → SourceMerge N → SourceMerge N
    unfolding collapse_one
    collapse_all [] m = m
    collapse_all (poi ∷ pois) m = collapse_all pois (collapse_one poi m)

    unfoldable pub dedupe_same_source : List (PoiSummary N) → List (PoiSummary N)
    unfolding collapse_all
    dedupe_same_source [] = []
    dedupe_same_source (poi ∷ []) = poi ∷ []
    dedupe_same_source (poi ∷ next ∷ pois) =
        (collapse_all (poi ∷ next ∷ pois) (record { kept_by_source = []; out = [] })).out

    -- The grid of the base points, of which the first has the index `n`.
    unfoldable pub base_grid : ℕ → List (PoiSummary N) → Grid N → Grid N
    unfolding push_to_bucket
    base_grid n [] grid = grid
    base_grid n (base ∷ bases) grid =
        base_grid (suc n) bases
          (push_to_bucket (cell_key base) (record { index = n; poi = base }) grid)

    unfoldable pub merge_with : Option (Candidate N) → PoiSummary N → BaseMerge N → BaseMerge N
    unfolding merge_into
    merge_with none poi m = record m { survivors = m.survivors ++ (with_own_source poi ∷ []) }
    merge_with (some base) poi m = record m {
      corroboration = modify_at base.index (merge_into poi) m.corroboration;
    }

    unfoldable pub merge_one : Grid N → PoiSummary N → BaseMerge N → BaseMerge N
    unfolding merge_with scan_neighborhood radius_for is_base is_listed
    merge_one grid poi m =
        if is_base poi
        then m
        else if is_listed dedupe_sources poi
        then merge_with (scan_grid grid poi) poi m
        else record m { survivors = m.survivors ++ (poi ∷ []) }

    unfoldable pub merge_all : Grid N → List (PoiSummary N) → BaseMerge N → BaseMerge N
    unfolding merge_one
    merge_all grid [] m = m
    merge_all grid (poi ∷ pois) m = merge_all grid pois (merge_one grid poi m)

    abbrev tag : PoiSummary N → PoiSummary N
    tag poi = if is_listed dedupe_sources poi then with_own_source poi else poi

    unfoldable pub dedupe_bases : List (PoiSummary N) → List (PoiSummary N) → List (PoiSummary N)
    unfolding dedupe_same_source base_grid merge_all base_survivor is_listed
    dedupe_bases pois [] = dedupe_same_source (map tag pois)
    dedupe_bases pois (base ∷ bases) =
        let merged =
          merge_all (base_grid 0 (base ∷ bases) []) pois
            (record { corroboration = map seed (base ∷ bases); survivors = [] }) in
        map base_survivor merged.corroboration ++ dedupe_same_source merged.survivors

  unfoldable pub dedupe_against_base :
      List (PoiSummary N) → List Text → DedupeRadiusSpec N → List (PoiSummary N)
  unfolding dedupe_bases cell_coords lon_scale grid_radius is_base
  dedupe_against_base [] dedupe_sources spec = []
  dedupe_against_base (poi ∷ pois) dedupe_sources spec =
      let all = poi ∷ pois in
      dedupe_bases spec (cell_coords (lon_scale all) (grid_radius spec)) dedupe_sources all
        (filter is_base all)
