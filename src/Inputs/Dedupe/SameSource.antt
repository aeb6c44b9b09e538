-- ===== src/Inputs/Dedupe/SameSource.antt =====
-- The collapse of the duplicates of one source: every point keeps a stand-in.
use signalk_activecaptain_re.Base.{
  ℕ, zero, suc, ◌≡◌, refl, sym, ap, ◌∙◌, true, ◌||◌, Option, none, some, List, [], ◌∷◌, ◌++◌, any,
  length, modify_at, get_elem?, get-append, get_elem?-length, any-append, any-get, get-modify_hit,
  get-modify_other, any-modify, arith, inl, inr, Bool-cases, Option-cases,
}
use mathlib.Core.Path.{subst}
use signalk_activecaptain_re.Base.Text.{Text, text_eq, text_beq_iff}
use signalk_activecaptain_re.Base.Equality.{Eq, ◌==◌}
use signalk_activecaptain_re.Base.Float.{Floats}
use signalk_activecaptain_re.Base.JsMap
use signalk_activecaptain_re.Base.JsMap.{JsMap}
use signalk_activecaptain_re.Types.{PoiSummary}
use signalk_activecaptain_re.Inputs.Dedupe.{
  Candidate, Grid, DedupeRadiusSpec, SourceMerge, matches, radius_for, min_clearance,
  fold_clearance, is_base, is_listed, grid_of, push_to_bucket, pack_cell_key, scan_neighborhood,
  collapse_with, collapse_one, collapse_all, dedupe_same_source,
}
use signalk_activecaptain_re.Inputs.Dedupe.Standin.{
  finite_clearance, AllFinite, stands_for, stands_for_self, stands_for-lowered, matches-stands_for,
  min_clearance-covers, min_clearance-finite, fold_clearance_lem,
}
use signalk_activecaptain_re.Inputs.Dedupe.Grid.{
  GridAll, GridAll-push, GridAll-map, GridAll-empty, scan_neighborhood_sound,
}

module _ {N : Type 0} ⦃F : Floats N⦄ ⦃key : Eq N⦄ where
  -- A candidate's object stands in `out` at its index, with the type and the position that the
  -- candidate was entered with; only its clearance may have changed.
  pub record IsAnchored (out : List (PoiSummary N)) (source : Text) (c : Candidate N) : Type 0 where
    pub object : PoiSummary N
    pub found : get_elem? out c.index ≡ some object
    pub type : object.type ≡ c.poi.type
    pub position : object.position ≡ c.poi.position
    pub from : object.source ≡ source
    pub finite : finite_clearance object.vertical_clearance_meters ≡ true

  IsAnchored-append :
      (out ys : List (PoiSummary N)) (source : Text) (c : Candidate N)
      → IsAnchored out source c
      → IsAnchored (out ++ ys) source c
  IsAnchored-append out ys source c a = record {
    object = a.object;
    found = get-append out ys c.index a.object a.found;
    type = a.type;
    position = a.position;
    from = a.from;
    finite = a.finite;
  }

  IsAnchored-fold :
      (out : List (PoiSummary N)) (source : Text) (c : Candidate N) (i : ℕ) (o : Option N)
      → finite_clearance o ≡ true
      → IsAnchored out source c
      → IsAnchored (modify_at i (fold_clearance o) out) source c
  IsAnchored-fold out source c i o f a =
      elim (get-modify_other i c.index (fold_clearance o) out a.object a.found) [
        | inl same ↦ record {
          object = a.object;
          found = same;
          type = a.type;
          position = a.position;
          from = a.from;
          finite = a.finite;
        }
        | inr folded ↦ record {
          object = record a.object {
            vertical_clearance_meters = min_clearance a.object.vertical_clearance_meters o;
          };
          found = folded ∙ ap some (fold_clearance_lem o a.object);
          type = a.type;
          position = a.position;
          from = a.from;
          finite = min_clearance-finite a.object.vertical_clearance_meters o a.finite f;
        }
      ]

  abbrev IsGridded : SourceMerge N → Type 0
  IsGridded m = (s : Text) → GridAll (IsAnchored m.out s) (grid_of s m.kept_by_source)

  module _ (spec : DedupeRadiusSpec N) (cell_coords : PoiSummary N → N × N)
      (dedupe_sources : List Text) where
    -- A step of the loop: the point has a stand-in behind it, and what had one keeps one.
    record Collapses (poi : PoiSummary N) (m after : SourceMerge N) : Type 0 where
      gridded : IsGridded after
      here : any (stands_for spec poi) after.out ≡ true
      keeps :
          (e : PoiSummary N)
          → any (stands_for spec e) m.out ≡ true
          → any (stands_for spec e) after.out ≡ true

    any-appended :
        (poi : PoiSummary N) (out : List (PoiSummary N))
        → finite_clearance poi.vertical_clearance_meters ≡ true
        → any (stands_for spec poi) (out ++ (poi ∷ [])) ≡ true
    any-appended poi out f =
        any-get (stands_for spec poi) (out ++ (poi ∷ [])) (length out) poi
          (get_elem?-length out poi) (stands_for_self spec poi f)

    any-kept :
        (e : PoiSummary N) (out ys : List (PoiSummary N))
        → any (stands_for spec e) out ≡ true
        → any (stands_for spec e) (out ++ ys) ≡ true
    any-kept e out ys h = ground (arith, any-append (stands_for spec e) out ys, h)

    append-Collapses :
        (poi : PoiSummary N) (m : SourceMerge N)
        → finite_clearance poi.vertical_clearance_meters ≡ true
        → IsGridded m
        → Collapses poi m (record m { out = m.out ++ (poi ∷ []) })
    append-Collapses poi m f g = record {
      gridded = λ s.
          GridAll-map (IsAnchored m.out s) (IsAnchored (m.out ++ (poi ∷ [])) s)
            (grid_of s m.kept_by_source) (g s) (IsAnchored-append m.out (poi ∷ []) s);
      here = any-appended poi m.out f;
      keeps = λ e h. any-kept e m.out (poi ∷ []) h;
    }

    collapse_new :
        (poi : PoiSummary N) (m : SourceMerge N)
        → finite_clearance poi.vertical_clearance_meters ≡ true
        → IsGridded m
        → Collapses poi m (collapse_with spec cell_coords dedupe_sources none poi m)
    unfolding collapse_with
    collapse_new poi m f g =
        let plain = append-Collapses poi m f g in
        let out = m.out ++ (poi ∷ []) in
        let cell = cell_coords poi in
        let k = pack_cell_key cell.0 cell.1 in
        let entry : Candidate N = record { index = length m.out; poi = poi } in
        let own : Grid N = push_to_bucket k entry (grid_of poi.source m.kept_by_source) in
        record {
          gridded = λ s. elim (Bool-cases (poi.source == s)) [
            | inl e ↦
                let anchored : IsAnchored out s entry = record {
                  object = poi;
                  found = get_elem?-length m.out poi;
                  type = refl;
                  position = refl;
                  from = (text_beq_iff poi.source s).0 e;
                  finite = f;
                } in
                let pushed =
                  GridAll-push (IsAnchored out s) (grid_of poi.source m.kept_by_source) k entry
                    (subst (λ t. GridAll (IsAnchored out s) (grid_of t m.kept_by_source))
                      (sym ((text_beq_iff poi.source s).0 e)) (plain.gridded s))
                    anchored in
                rw (JsMap.get-set poi.source s own m.kept_by_source, e) pushed
            | inr e ↦ rw (JsMap.get-set poi.source s own m.kept_by_source, e) (plain.gridded s)
          ];
          here = plain.here;
          keeps = plain.keeps;
        }

    collapse_kept :
        (c : Candidate N) (poi : PoiSummary N) (m : SourceMerge N)
        → finite_clearance poi.vertical_clearance_meters ≡ true
        → IsGridded m
        → IsAnchored m.out poi.source c
        → matches poi.type poi.position (radius_for poi.source spec) c.poi ≡ true
        → Collapses poi m (collapse_with spec cell_coords dedupe_sources (some c) poi m)
    unfolding collapse_with matches
    collapse_kept c poi m f g a h =
        let o = poi.vertical_clearance_meters in
        let folded = fold_clearance o a.object in
        let found = get-modify_hit c.index (fold_clearance o) m.out a.object a.found in
        let low = min_clearance-covers a.object.vertical_clearance_meters o a.finite f in
        let placed : matches poi.type poi.position (radius_for poi.source spec) folded ≡ true =
          rw (fold_clearance_lem o a.object, a.type, a.position) h in
        let own : (is_base folded || folded.source == poi.source) ≡ true =
          rw (fold_clearance_lem o a.object)
            (ground (arith, text_beq_iff a.object.source poi.source, a.from)) in
        let stands =
          matches-stands_for spec poi folded placed own (rw (fold_clearance_lem o a.object) low) in
        record {
          gridded = λ s.
              GridAll-map (IsAnchored m.out s)
                (IsAnchored (modify_at c.index (fold_clearance o) m.out) s)
                (grid_of s m.kept_by_source) (g s) (λ d b. IsAnchored-fold m.out s d c.index o f b);
          here =
              any-get (stands_for spec poi) (modify_at c.index (fold_clearance o) m.out) c.index
                folded found stands;
          keeps = λ e.
              any-modify (stands_for spec e) (fold_clearance o) c.index m.out
                (λ q at h. stands_for-lowered spec e q o h);
        }

    collapse_one-Collapses :
        (poi : PoiSummary N) (m : SourceMerge N)
        → finite_clearance poi.vertical_clearance_meters ≡ true
        → IsGridded m
        → Collapses poi m (collapse_one spec cell_coords dedupe_sources poi m)
    unfolding collapse_one
    collapse_one-Collapses poi m f g =
        let cell = cell_coords poi in
        let grid = grid_of poi.source m.kept_by_source in
        let radius = radius_for poi.source spec in
        elim (Bool-cases (is_listed dedupe_sources poi)) [
          | inl e ↦
              rw e
                (elim (Option-cases
                  (scan_neighborhood grid cell.0 cell.1 poi.type poi.position radius)) [
                    | inl q ↦ rw q (collapse_new poi m f g)
                    | inr (c, q) ↦
                        let hit =
                          scan_neighborhood_sound (IsAnchored m.out poi.source) grid cell.0 cell.1
                            poi.type poi.position radius c (g poi.source) q in
                        rw q (collapse_kept c poi m f g hit.0 hit.1)
                  ])
          | inr e ↦ rw e (append-Collapses poi m f g)
        ]

    collapse_all_keeps :
        (pois : List (PoiSummary N)) (m : SourceMerge N) (e : PoiSummary N)
        → AllFinite pois
        → IsGridded m
        → any (stands_for spec e) m.out ≡ true
        → any (stands_for spec e) (collapse_all spec cell_coords dedupe_sources pois m).out ≡ true
    unfolding collapse_all
    collapse_all_keeps [] m e f g h = h
    collapse_all_keeps (poi ∷ pois) m e f g h =
        let step = collapse_one-Collapses poi m (f 0 poi refl) g in
        collapse_all_keeps pois (collapse_one spec cell_coords dedupe_sources poi m) e
          (λ i. f (suc i)) step.gridded (step.keeps e h)

    collapse_all_covers :
        (pois : List (PoiSummary N)) (m : SourceMerge N) (i : ℕ) (e : PoiSummary N)
        → AllFinite pois
        → IsGridded m
        → get_elem? pois i ≡ some e
        → any (stands_for spec e) (collapse_all spec cell_coords dedupe_sources pois m).out ≡ true
    unfolding collapse_all
    collapse_all_covers [] m i e f g h = ground (arith, h)
    collapse_all_covers (poi ∷ pois) m zero e f g h =
        let step = collapse_one-Collapses poi m (f 0 poi refl) g in
        let here =
          collapse_all_keeps pois (collapse_one spec cell_coords dedupe_sources poi m) poi
            (λ i. f (suc i)) step.gridded step.here in
        ground (arith, h, here)
    collapse_all_covers (poi ∷ pois) m (suc i) e f g h =
        let step = collapse_one-Collapses poi m (f 0 poi refl) g in
        collapse_all_covers pois (collapse_one spec cell_coords dedupe_sources poi m) i e
          (λ j. f (suc j)) step.gridded h

    -- Every point of the input has a stand-in in the output.
    pub dedupe_same_source_covers :
        (pois : List (PoiSummary N)) (i : ℕ) (e : PoiSummary N)
        → AllFinite pois
        → get_elem? pois i ≡ some e
        → any (stands_for spec e) (dedupe_same_source spec cell_coords dedupe_sources pois) ≡ true
    unfolding dedupe_same_source JsMap.get
    dedupe_same_source_covers [] i e f h = ground (arith, h)
    dedupe_same_source_covers (poi ∷ []) i e f h =
        any-get (stands_for spec e) (poi ∷ []) i e h (stands_for_self spec e (f i e h))
    dedupe_same_source_covers (poi ∷ next ∷ pois) i e f h =
        collapse_all_covers (poi ∷ next ∷ pois) (record { kept_by_source = []; out = [] }) i e f
          (λ s. GridAll-empty (IsAnchored [] s)) h
