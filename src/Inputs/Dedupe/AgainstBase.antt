-- ===== src/Inputs/Dedupe/AgainstBase.antt =====
-- The merge into the base layer: every point keeps a stand-in with a clearance that is no higher.
use signalk_activecaptain_re.Base.{
  ℕ, zero, suc, ◌+◌, ◌≡◌, refl, sym, ◌∙◌, fun_ext, true, false, some, List, [], ◌∷◌, ◌++◌, map, any,
  filter, get_elem?, any-append, any-get, get-map, any-map, get-filter, filter-get, List-cases,
  arith, inl, inr, Bool-cases, if◌then◌else◌,
}
use mathlib.Core.Path.{subst}
use signalk_activecaptain_re.Base.Text.{Text, text_eq}
use signalk_activecaptain_re.Base.Equality.{Eq}
use signalk_activecaptain_re.Base.Float.{Floats}
use signalk_activecaptain_re.Types.{PoiSummary}
use signalk_activecaptain_re.Inputs.Dedupe.{
  Candidate, Grid, DedupeRadiusSpec, Corroborated, BaseMerge, is_base, is_listed, push_to_bucket,
  pack_cell_key, seed, base_grid, merge_one, merge_all, base_survivor, with_own_source,
  dedupe_same_source, dedupe_bases, dedupe_against_base, cell_coords, lon_scale, grid_radius,
}
use signalk_activecaptain_re.Inputs.Dedupe.Standin.{
  finite_clearance, AllFinite, stands_for, stands_for_self,
}
use signalk_activecaptain_re.Inputs.Dedupe.Grid.{GridAll, GridAll-push, GridAll-empty}
use signalk_activecaptain_re.Inputs.Dedupe.SameSource.{dedupe_same_source_covers}
use signalk_activecaptain_re.Inputs.Dedupe.Seats.{IsSeated, or_else_idem, stands_for-base_survivor}
use signalk_activecaptain_re.Inputs.Dedupe.Merging.{
  Carried, Placed, by_base, tagged_alike, merge_one-Merges,
}

module _ {N : Type 0} ⦃F : Floats N⦄ ⦃key : Eq N⦄ where
  module _ (spec : DedupeRadiusSpec N) where
    module _ (cell_coords : PoiSummary N → N × N) (dedupe_sources : List Text) (grid : Grid N) where
      merge_all_keeps :
          (pois : List (PoiSummary N)) (m : BaseMerge N) (e : PoiSummary N)
          → GridAll (IsSeated m.corroboration) grid
          → AllFinite m.survivors
          → AllFinite pois
          → Placed spec e m
          → Placed spec e (merge_all spec cell_coords dedupe_sources grid pois m)
      unfolding merge_all
      merge_all_keeps [] m e g f h p = p
      merge_all_keeps (poi ∷ pois) m e g f h p =
          let step =
            merge_one-Merges spec cell_coords dedupe_sources grid poi m g f (h 0 poi refl) in
          merge_all_keeps pois (merge_one spec cell_coords dedupe_sources grid poi m) e step.seats
            step.finite (λ i. h (suc i)) (step.keeps e p)

      merge_all-AllFinite :
          (pois : List (PoiSummary N)) (m : BaseMerge N)
          → GridAll (IsSeated m.corroboration) grid
          → AllFinite m.survivors
          → AllFinite pois
          → AllFinite (merge_all spec cell_coords dedupe_sources grid pois m).survivors
      unfolding merge_all
      merge_all-AllFinite [] m g f h = f
      merge_all-AllFinite (poi ∷ pois) m g f h =
          let step =
            merge_one-Merges spec cell_coords dedupe_sources grid poi m g f (h 0 poi refl) in
          merge_all-AllFinite pois (merge_one spec cell_coords dedupe_sources grid poi m) step.seats
            step.finite (λ i. h (suc i))

      merge_all_places :
          (pois : List (PoiSummary N)) (m : BaseMerge N) (i : ℕ) (e : PoiSummary N)
          → GridAll (IsSeated m.corroboration) grid
          → AllFinite m.survivors
          → AllFinite pois
          → get_elem? pois i ≡ some e
          → is_base e ≡ false
          → Placed spec e (merge_all spec cell_coords dedupe_sources grid pois m)
      unfolding merge_all
      merge_all_places [] m i e g f h at b = ground (arith, at)
      merge_all_places (poi ∷ pois) m zero e g f h at b =
          let step =
            merge_one-Merges spec cell_coords dedupe_sources grid poi m g f (h 0 poi refl) in
          let same : poi ≡ e = ground (arith, at) in
          subst (λ x. Placed spec x (merge_all spec cell_coords dedupe_sources grid (poi ∷ pois) m))
            same
            (merge_all_keeps pois (merge_one spec cell_coords dedupe_sources grid poi m) poi
              step.seats step.finite (λ i. h (suc i))
              (step.here (subst (λ x. is_base x ≡ false) (sym same) b)))
      merge_all_places (poi ∷ pois) m (suc i) e g f h at b =
          let step =
            merge_one-Merges spec cell_coords dedupe_sources grid poi m g f (h 0 poi refl) in
          merge_all_places pois (merge_one spec cell_coords dedupe_sources grid poi m) i e
            step.seats step.finite (λ j. h (suc j)) at b

    base_grid-IsSeated :
        (cell_coords : PoiSummary N → N × N) (dedupe_sources : List Text)
        (corroboration : List (Corroborated N)) (n : ℕ) (bases : List (PoiSummary N))
        (grid : Grid N)
        → ((j : ℕ) (b : PoiSummary N)
            → get_elem? bases j ≡ some b
            → (get_elem? corroboration (n + j) ≡ some (seed b))
              × (is_base b ≡ true)
              × (finite_clearance b.vertical_clearance_meters ≡ true))
        → GridAll (IsSeated corroboration) grid
        → GridAll (IsSeated corroboration) (base_grid spec cell_coords dedupe_sources n bases grid)
    unfolding base_grid
    base_grid-IsSeated cell_coords dedupe_sources corroboration n [] grid h g = g
    base_grid-IsSeated cell_coords dedupe_sources corroboration n (b ∷ bases) grid h g =
        let cell = cell_coords b in
        let k = pack_cell_key cell.0 cell.1 in
        let entry : Candidate N = record { index = n; poi = b } in
        let at : n + 0 ≡ n = omega arith in
        let first = h 0 b refl in
        base_grid-IsSeated cell_coords dedupe_sources corroboration (suc n) bases
          (push_to_bucket k entry grid)
          (λ j c e.
            let later : n + suc j ≡ suc n + j = omega arith in
            subst
              (λ x.
                (get_elem? corroboration x ≡ some (seed c))
                × (is_base c ≡ true)
                × (finite_clearance c.vertical_clearance_meters ≡ true))
              later (h (suc j) c e))
          (GridAll-push (IsSeated corroboration) grid k entry g (record {
            entry = seed b;
            found = subst (λ x. get_elem? corroboration x ≡ some (seed b)) at first.0;
            own = refl;
            based = first.1;
            finite = first.2;
            known = or_else_idem b.vertical_clearance_meters;
          }))

    base_entry :
        (pois bases : List (PoiSummary N)) (j : ℕ) (b : PoiSummary N)
        → AllFinite pois
        → filter is_base pois ≡ bases
        → get_elem? bases j ≡ some b
        → (get_elem? (map seed bases) (0 + j) ≡ some (seed b))
          × (is_base b ≡ true)
          × (finite_clearance b.vertical_clearance_meters ≡ true)
    base_entry pois bases j b f q at =
        let came = filter-get is_base pois j b (subst (λ l. get_elem? l j ≡ some b) (sym q) at) in
        let zero_left : j ≡ 0 + j = omega arith in
        (
          subst (λ x. get_elem? (map seed bases) x ≡ some (seed b)) zero_left
              (get-map seed bases j b at),
          came.2,
          f came.0 b came.1,
        )

    module _ (cell_coords : PoiSummary N → N × N) (dedupe_sources : List Text) where
      collapsed_covers :
          (e : PoiSummary N) (survivors : List (PoiSummary N))
          → AllFinite survivors
          → Carried spec e survivors
          → any (stands_for spec e) (dedupe_same_source spec cell_coords dedupe_sources survivors)
            ≡ true
      collapsed_covers e survivors f c =
          let out = dedupe_same_source spec cell_coords dedupe_sources survivors in
          subst (λ p. any p out ≡ true) (fun_ext c.alike)
            (dedupe_same_source_covers spec cell_coords dedupe_sources survivors c.index c.carrier f
              c.found)

      -- A point that has a place behind the merge has a stand-in in what is emitted.
      Placed-covers :
          (e : PoiSummary N) (m : BaseMerge N)
          → AllFinite m.survivors
          → Placed spec e m
          → any (stands_for spec e) (
              map base_survivor m.corroboration
              ++ dedupe_same_source spec cell_coords dedupe_sources m.survivors)
            ≡ true
      Placed-covers e m f p =
          let out = dedupe_same_source spec cell_coords dedupe_sources m.survivors in
          any-append (stands_for spec e) (map base_survivor m.corroboration) out ∙ elim p [
            | inl based ↦
                ground (arith, any-map (stands_for spec e) base_survivor m.corroboration, based)
            | inr carried ↦ ground (arith, collapsed_covers e m.survivors f carried)
          ]

      -- A base point's own entry stands for it from the start.
      seed_stands :
          (b : PoiSummary N)
          → finite_clearance b.vertical_clearance_meters ≡ true
          → by_base spec b (seed b) ≡ true
      seed_stands b f =
          stands_for-base_survivor spec b (seed b)
          ∙ rw (or_else_idem b.vertical_clearance_meters) (stands_for_self spec b f)

      tag_alike :
          (poi : PoiSummary N)
          → (q : PoiSummary N)
          → stands_for spec (if is_listed dedupe_sources poi then with_own_source poi else poi) q
            ≡ stands_for spec poi q
      tag_alike poi q = elim (Bool-cases (is_listed dedupe_sources poi)) [
        | inl e ↦ rw e (tagged_alike spec poi q)
        | inr e ↦ rw e refl
      ]

      tagged_finite :
          (pois : List (PoiSummary N))
          → AllFinite pois
          → AllFinite (map (λ p. if is_listed dedupe_sources p then with_own_source p else p) pois)
      tagged_finite [] f i q h = ground (arith, h)
      tagged_finite (poi ∷ pois) f zero q h = elim (Bool-cases (is_listed dedupe_sources poi)) [
        | inl e ↦ ground (arith, f 0 poi refl, rw e at h)
        | inr e ↦ ground (arith, f 0 poi refl, rw e at h)
      ]
      tagged_finite (poi ∷ pois) f (suc i) q h = tagged_finite pois (λ j. f (suc j)) i q h

      untagged_covers :
          (pois : List (PoiSummary N)) (i : ℕ) (e : PoiSummary N)
          → AllFinite pois
          → get_elem? pois i ≡ some e
          → any (stands_for spec e) (dedupe_bases spec cell_coords dedupe_sources pois []) ≡ true
      unfolding dedupe_bases
      untagged_covers pois i e f h =
          let tag =
            λ (p : PoiSummary N). if is_listed dedupe_sources p then with_own_source p else p in
          collapsed_covers e (map tag pois) (tagged_finite pois f) (record {
            index = i;
            carrier = tag e;
            found = get-map tag pois i e h;
            alike = tag_alike e;
          })

      -- The loop, from the entries of the base points, leaves every point a stand-in.
      based_covers :
          (pois : List (PoiSummary N)) (b : PoiSummary N) (bs : List (PoiSummary N)) (i : ℕ)
          (e : PoiSummary N)
          → AllFinite pois
          → filter is_base pois ≡ (b ∷ bs)
          → get_elem? pois i ≡ some e
          → any (stands_for spec e) (dedupe_bases spec cell_coords dedupe_sources pois (b ∷ bs))
            ≡ true
      unfolding dedupe_bases
      based_covers pois b bs i e f q h =
          let bases = b ∷ bs in
          let grid = base_grid spec cell_coords dedupe_sources 0 bases [] in
          let start : BaseMerge N = record { corroboration = map seed bases; survivors = [] } in
          let merged = merge_all spec cell_coords dedupe_sources grid pois start in
          let none_yet : AllFinite {N = N} [] = λ j p at. ground (arith, at) in
          let seats =
            base_grid-IsSeated cell_coords dedupe_sources (map seed bases) 0 bases []
              (λ j p at. base_entry pois bases j p f q at)
              (GridAll-empty (IsSeated (map seed bases))) in
          Placed-covers e merged
            (merge_all-AllFinite cell_coords dedupe_sources grid pois start seats none_yet f)
            (elim (Bool-cases (is_base e)) [
              | inl y ↦
                  let own = get-filter is_base pois i e h y in
                  let at = subst (λ l. get_elem? l own.0 ≡ some e) q own.1 in
                  merge_all_keeps cell_coords dedupe_sources grid pois start e seats none_yet f (
                    inl (
                      any-get (by_base spec e) (map seed bases) own.0 (seed e)
                        (get-map seed bases own.0 e at) (seed_stands e (f i e h))))
              | inr n ↦
                  merge_all_places cell_coords dedupe_sources grid pois start i e seats none_yet f h
                    n
            ])

    -- Every point of the input, of whichever source, has a point in the result that stands for it: of
    -- its type; the point itself, or a point of the base layer or of the same source within the
    -- source's radius; and with a clearance that is known and no higher where the point has one,
    -- provided that every clearance is a finite number.
    pub dedupe_against_base_covers :
        (pois : List (PoiSummary N)) (dedupe_sources : List Text) (i : ℕ) (e : PoiSummary N)
        → AllFinite pois
        → get_elem? pois i ≡ some e
        → any (stands_for spec e) (dedupe_against_base pois dedupe_sources spec) ≡ true
    unfolding dedupe_against_base
    dedupe_against_base_covers [] dedupe_sources i e f h = ground (arith, h)
    dedupe_against_base_covers (poi ∷ pois) dedupe_sources i e f h =
        let all = poi ∷ pois in
        let cells = cell_coords (lon_scale all) (grid_radius spec) in
        elim (List-cases (filter is_base all)) [
          | inl q ↦ rw q (untagged_covers cells dedupe_sources all i e f h)
          | inr (b, bs, q) ↦ rw q (based_covers cells dedupe_sources all b bs i e f q h)
        ]
