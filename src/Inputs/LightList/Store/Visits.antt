-- ===== src/Inputs/LightList/Store/Visits.antt =====
-- What the loops of a query find: the kept record of every tile that they come by.
use signalk_activecaptain_re.Base.{
  ℕ, zero, suc, ◌+◌, ◌-◌, ◌*◌, ◌≤◌, ◌≡◌, refl, sym, ap, ◌∙◌, Bool, true, false, ◌&&◌, ◌||◌, Option,
  none, some, List, [], ◌∷◌, filter, if◌then◌else◌, nat_beq_iff, leb, ltb, arith,
}
use signalk_activecaptain_re.Base.Equality.{nat_eq}
use signalk_activecaptain_re.Base.Float.{Floats}
use signalk_activecaptain_re.Base.JsMap
use signalk_activecaptain_re.Base.JsMap.{JsMap}
use signalk_activecaptain_re.Types.{Bbox}
use signalk_activecaptain_re.Inputs.LightList.Store.{
  LightListRecord, Store, lat_cell, lon_cell_ranges, bucket_at, in_bbox, query_row, query_ranges,
  query_rows, query_bbox, lon_cell_count,
}
use signalk_activecaptain_re.Inputs.LightList.Store.Index.{IsIndexed}
use signalk_activecaptain_re.Inputs.LightList.Store.Buckets.{
  or_else, find, count, count-find, find-append, held,
}

abbrev pub keep : {A : Type 0} → (A → Bool) → Option A → Option A
keep p none = none
keep p (some a) = if p a then some a else none

-- The tile lies in the run of `n` keys from `key` on.
abbrev pub in_run : ℕ → ℕ → Option ℕ → Bool
in_run key n none = false
in_run key n (some k) = leb key k && ltb k (key + n)

abbrev pub in_ranges : ℕ → Option ℕ → List (ℕ × ℕ) → Bool
in_ranges base t [] = false
in_ranges base t ((first, last) ∷ ranges) =
    in_run (base + first) ((last + 1) - first) t || in_ranges base t ranges

abbrev pub in_rows : List (ℕ × ℕ) → ℕ → ℕ → Option ℕ → Bool
in_rows ranges lat zero t = false
in_rows ranges lat (suc n) t =
    in_ranges (lat * lon_cell_count) t ranges || in_rows ranges (lat + 1) n t

find-filter :
    {N : Type 0} (p : LightListRecord N → Bool) (l : ℕ) (xs : List (LightListRecord N))
    → count l xs ≤ 1
    → find l (filter p xs) ≡ keep p (find l xs)
find-filter p l [] h = refl
find-filter p l (r ∷ xs) h = ground (arith, find-filter p l xs, count-find l xs)

-- Whether the loops of a query come by a tile.
abbrev pub visited : {N : Type 0} ⦃F : Floats N⦄ → Bbox N → Option ℕ → Bool
visited bbox t =
    in_rows (lon_cell_ranges bbox) (lat_cell bbox.south)
      ((lat_cell bbox.north + 1) - lat_cell bbox.south) t

module _ {N : Type 0} ⦃F : Floats N⦄ (bbox : Bbox N) (s : Store N) (i : IsIndexed s) (l : ℕ) where
  abbrev kept : Option (LightListRecord N)
  kept = keep (in_bbox bbox) (JsMap.get l s.records)

  abbrev tile : Option ℕ
  tile = JsMap.get l s.record_tile

  keep-held :
      (k : ℕ) (t : Option ℕ) (o : Option (LightListRecord N))
      → keep (in_bbox bbox) (held k t o) ≡ (if in_run k 1 t then keep (in_bbox bbox) o else none)
  keep-held k none o = refl
  keep-held k (some key) o = ground (arith, nat_beq_iff key k)

  in_run_none : (key : ℕ) (t : Option ℕ) → in_run key 0 t ≡ false
  in_run_none key none = refl
  in_run_none key (some k) = ground arith

  in_run-suc :
      (key n : ℕ) (t : Option ℕ) → in_run key (suc n) t ≡ (in_run key 1 t || in_run (key + 1) n t)
  in_run-suc key n none = refl
  in_run-suc key n (some k) = ground arith

  -- Two searches that find the same or nothing.
  either_search :
      {A : Type 0} (b c : Bool) (o : Option A)
      → or_else (if b then o else none) (if c then o else none) ≡ (if b || c then o else none)
  either_search true true none = refl
  either_search true true (some a) = refl
  either_search true false none = refl
  either_search true false (some a) = refl
  either_search false c o = refl

  find-bucket :
      (k : ℕ)
      → find l (filter (in_bbox bbox) (bucket_at k s.tiles))
        ≡ (if in_run k 1 tile then kept else none)
  find-bucket k =
      find-filter (in_bbox bbox) l (bucket_at k s.tiles) (i.tiled.once k l)
      ∙ ap (keep (in_bbox bbox)) (i.tiled.bucket k l)
      ∙ keep-held k tile (JsMap.get l s.records)

  find-query_row :
      (key n : ℕ)
      → find l (query_row bbox s.tiles key n) ≡ (if in_run key n tile then kept else none)
  unfolding query_row
  find-query_row key zero = rw (in_run_none key tile) refl
  find-query_row key (suc n) =
      find-append l (filter (in_bbox bbox) (bucket_at key s.tiles))
        (query_row bbox s.tiles (key + 1) n)
      ∙ rw (find-bucket key, find-query_row (key + 1) n)
          (either_search (in_run key 1 tile) (in_run (key + 1) n tile) kept
            ∙ ap (λ b. if b then kept else none) (sym (in_run-suc key n tile)))

  find-query_ranges :
      (base : ℕ) (ranges : List (ℕ × ℕ))
      → find l (query_ranges bbox s.tiles base ranges)
        ≡ (if in_ranges base tile ranges then kept else none)
  unfolding query_ranges
  find-query_ranges base [] = refl
  find-query_ranges base ((first, last) ∷ ranges) =
      let n = (last + 1) - first in
      find-append l (query_row bbox s.tiles (base + first) n)
        (query_ranges bbox s.tiles base ranges)
      ∙ rw (find-query_row (base + first) n, find-query_ranges base ranges)
          (either_search (in_run (base + first) n tile) (in_ranges base tile ranges) kept)

  find-query_rows :
      (ranges : List (ℕ × ℕ)) (lat n : ℕ)
      → find l (query_rows bbox s.tiles ranges lat n)
        ≡ (if in_rows ranges lat n tile then kept else none)
  unfolding query_rows
  find-query_rows ranges lat zero = refl
  find-query_rows ranges lat (suc n) =
      let base = lat * lon_cell_count in
      find-append l (query_ranges bbox s.tiles base ranges)
        (query_rows bbox s.tiles ranges (lat + 1) n)
      ∙ rw (find-query_ranges base ranges, find-query_rows ranges (lat + 1) n)
          (either_search (in_ranges base tile ranges) (in_rows ranges (lat + 1) n tile) kept)

  pub find-query_bbox : find l (query_bbox bbox s) ≡ (
      if visited bbox (JsMap.get l s.record_tile)
      then keep (in_bbox bbox) (JsMap.get l s.records)
      else none)
  unfolding query_bbox
  find-query_bbox =
      find-query_rows (lon_cell_ranges bbox) (lat_cell bbox.south)
        ((lat_cell bbox.north + 1) - lat_cell bbox.south)
