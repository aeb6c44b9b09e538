-- ===== src/Inputs/Dedupe/Merging.antt =====
-- One step of the merge into the base layer.
use signalk_activecaptain_re.Base.{
  ℕ, ◌≡◌, refl, sym, Bool, true, false, some, List, [], ◌∷◌, ◌++◌, any, length, modify_at,
  get_elem?, get-append, get-append_one, get_elem?-length, any-get, get-modify_hit, any-modify,
  arith, ◌⊎◌, inl, inr, Bool-cases, Option-cases,
}
use mathlib.Core.Path.{subst}
use signalk_activecaptain_re.Base.Text.{Text, text_eq}
use signalk_activecaptain_re.Base.Equality.{Eq}
use signalk_activecaptain_re.Base.Float.{Floats}
use signalk_activecaptain_re.Types.{PoiSummary}
use signalk_activecaptain_re.Inputs.Dedupe.{
  Candidate, Grid, DedupeRadiusSpec, Corroborated, BaseMerge, matches, radius_for, is_base,
  is_listed, scan_neighborhood, or_else, merge_into, merge_with, merge_one, base_survivor,
  with_own_source,
}
use signalk_activecaptain_re.Inputs.Dedupe.Standin.{finite_clearance, AllFinite, stands_for}
use signalk_activecaptain_re.Inputs.Dedupe.Grid.{GridAll, GridAll-map, scan_neighborhood_sound}
use signalk_activecaptain_re.Inputs.Dedupe.Seats.{
  IsSeated, IsSeated-merge, stands_for-merged, merged_stands,
}

module _ {N : Type 0} ⦃F : Floats N⦄ ⦃key : Eq N⦄ where
  module _ (spec : DedupeRadiusSpec N) where
    -- A point of the list for which every point stands that stands for `e`.
    pub record Carried (e : PoiSummary N) (survivors : List (PoiSummary N)) : Type 0 where
      pub index : ℕ
      pub carrier : PoiSummary N
      pub found : get_elem? survivors index ≡ some carrier
      pub alike : (q : PoiSummary N) → stands_for spec carrier q ≡ stands_for spec e q

    Carried-append :
        (e : PoiSummary N) (xs ys : List (PoiSummary N)) → Carried e xs → Carried e (xs ++ ys)
    Carried-append e xs ys c = record {
      index = c.index;
      carrier = c.carrier;
      found = get-append xs ys c.index c.carrier c.found;
      alike = c.alike;
    }

    pub tagged_alike :
        (e q : PoiSummary N) → stands_for spec (with_own_source e) q ≡ stands_for spec e q
    unfolding stands_for
    tagged_alike e q = refl

    abbrev pub by_base : PoiSummary N → Corroborated N → Bool
    by_base e c = stands_for spec e (base_survivor c)

    abbrev pub Placed : PoiSummary N → BaseMerge N → Type 0
    Placed e m = (any (by_base e) m.corroboration ≡ true) ⊎ Carried e m.survivors

    AllFinite-append_one :
        (xs : List (PoiSummary N)) (x : PoiSummary N)
        → AllFinite xs
        → finite_clearance x.vertical_clearance_meters ≡ true
        → AllFinite (xs ++ (x ∷ []))
    AllFinite-append_one xs x f g i poi h = elim (get-append_one xs x poi i h) [
      | inl before ↦ f i poi before
      | inr same ↦ subst (λ p. finite_clearance p.vertical_clearance_meters ≡ true) (sym same) g
    ]

    module _ (cell_coords : PoiSummary N → N × N) (dedupe_sources : List Text) (grid : Grid N) where
      pub record Merges (poi : PoiSummary N) (m after : BaseMerge N) : Type 0 where
        pub seats : GridAll (IsSeated after.corroboration) grid
        pub finite : AllFinite after.survivors
        pub here : is_base poi ≡ false → Placed poi after
        pub keeps : (e : PoiSummary N) → Placed e m → Placed e after

      survive_as :
          (poi q : PoiSummary N) (m : BaseMerge N)
          → GridAll (IsSeated m.corroboration) grid
          → AllFinite m.survivors
          → finite_clearance q.vertical_clearance_meters ≡ true
          → ((r : PoiSummary N) → stands_for spec q r ≡ stands_for spec poi r)
          → Merges poi m (record m { survivors = m.survivors ++ (q ∷ []) })
      survive_as poi q m g f h a = record {
        seats = g;
        finite = AllFinite-append_one m.survivors q f h;
        here = λ b. inr (record {
          index = length m.survivors;
          carrier = q;
          found = get_elem?-length m.survivors q;
          alike = a;
        });
        keeps = λ e p. elim p [
          | inl based ↦ inl based
          | inr carried ↦ inr (Carried-append e m.survivors (q ∷ []) carried)
        ];
      }

      merge_seat :
          (poi : PoiSummary N) (c : Candidate N) (m : BaseMerge N)
          → GridAll (IsSeated m.corroboration) grid
          → AllFinite m.survivors
          → finite_clearance poi.vertical_clearance_meters ≡ true
          → IsSeated m.corroboration c
          → matches poi.type poi.position (radius_for poi.source spec) c.poi ≡ true
          → Merges poi m
              (record m { corroboration = modify_at c.index (merge_into poi) m.corroboration })
      merge_seat poi c m g f h a near = record {
        seats =
            GridAll-map (IsSeated m.corroboration)
              (IsSeated (modify_at c.index (merge_into poi) m.corroboration)) grid g
              (λ d. IsSeated-merge m.corroboration d c.index poi h);
        finite = f;
        here = λ b. inl (
            any-get (by_base poi) (modify_at c.index (merge_into poi) m.corroboration) c.index
              (merge_into poi a.entry)
              (get-modify_hit c.index (merge_into poi) m.corroboration a.entry a.found)
              (merged_stands spec poi a.entry a.known a.finite h (rw a.own near)
                (rw a.own a.based)));
        keeps = λ e p. elim p [
          | inl based ↦ inl (
              any-modify (by_base e) (merge_into poi) c.index m.corroboration
                (λ d at s. stands_for-merged spec e poi d (known_at d at) s) based)
          | inr carried ↦ inr carried
        ];
      }
        where
          known_at :
              (d : Corroborated N)
              → get_elem? m.corroboration c.index ≡ some d
              → or_else d.merged.clearance d.base.vertical_clearance_meters ≡ d.merged.clearance
          known_at d at = ground (arith, at, a.found, a.known)

      pub merge_one-Merges :
          (poi : PoiSummary N) (m : BaseMerge N)
          → GridAll (IsSeated m.corroboration) grid
          → AllFinite m.survivors
          → finite_clearance poi.vertical_clearance_meters ≡ true
          → Merges poi m (merge_one spec cell_coords dedupe_sources grid poi m)
      unfolding merge_one merge_with
      merge_one-Merges poi m g f h =
          let cell = cell_coords poi in
          let radius = radius_for poi.source spec in
          elim (Bool-cases (is_base poi)) [
            | inl b ↦ rw b (record {
              seats = g;
              finite = f;
              here = λ nb. ground (arith, b, nb);
              keeps = λ e p. p;
            })
            | inr b ↦ elim (Bool-cases (is_listed dedupe_sources poi)) [
              | inl l ↦
                  elim (Option-cases
                    (scan_neighborhood grid cell.0 cell.1 poi.type poi.position radius)) [
                      | inl q ↦
                          rw (b, l, q)
                            (survive_as poi (with_own_source poi) m g f h (tagged_alike poi))
                      | inr (c, q) ↦
                          let hit =
                            scan_neighborhood_sound (IsSeated m.corroboration) grid cell.0 cell.1
                              poi.type poi.position radius c g q in
                          rw (b, l, q) (merge_seat poi c m g f h hit.0 hit.1)
                    ]
              | inr l ↦ rw (b, l) (survive_as poi poi m g f h (λ r. refl))
            ]
          ]
