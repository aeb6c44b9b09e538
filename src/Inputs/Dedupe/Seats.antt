-- ===== src/Inputs/Dedupe/Seats.antt =====
-- The entries of the base points, and what a merge into one leaves standing.
use signalk_activecaptain_re.Base.{
  ℕ, ◌≡◌, refl, sym, ◌∙◌, true, Option, none, some, List, modify_at, get_elem?, get-modify_other,
  arith, inl, inr,
}
use signalk_activecaptain_re.Base.Text.{text_eq}
use signalk_activecaptain_re.Base.Equality.{Eq}
use signalk_activecaptain_re.Base.Float.{Floats}
use signalk_activecaptain_re.Types.{PoiSummary}
use signalk_activecaptain_re.Inputs.Dedupe.{
  Candidate, DedupeRadiusSpec, Corroborated, matches, radius_for, min_clearance, is_base, or_else,
  merge_into, base_survivor,
}
use signalk_activecaptain_re.Inputs.Dedupe.Standin.{
  finite_clearance, stands_for, matches-stands_for, min_clearance-covers, min_clearance-finite,
  covers-min_clearance,
}

module _ {N : Type 0} ⦃F : Floats N⦄ ⦃key : Eq N⦄ where
  -- The point that a base point is emitted as, up to the credits.
  abbrev pub emitted : Option N → PoiSummary N → PoiSummary N
  emitted o base = record base {
    vertical_clearance_meters = or_else o base.vertical_clearance_meters;
  }

  stands_with :
      (spec : DedupeRadiusSpec N) (e : PoiSummary N) (o : Option N) (c : Corroborated N)
      → stands_for spec e (base_survivor (record c { merged = record c.merged { clearance = o } }))
        ≡ stands_for spec e (emitted o c.base)
  unfolding base_survivor stands_for matches is_base
  stands_with spec e none c = refl
  stands_with spec e (some a) c = refl

  pub stands_for-base_survivor :
      (spec : DedupeRadiusSpec N) (e : PoiSummary N) (c : Corroborated N)
      → stands_for spec e (base_survivor c) ≡ stands_for spec e (emitted c.merged.clearance c.base)
  stands_for-base_survivor spec e c = stands_with spec e c.merged.clearance c

  -- The folded clearance is known where the base point's is.
  or_else-min_clearance :
      (o c b : Option N) → or_else o b ≡ o → or_else (min_clearance o c) b ≡ min_clearance o c
  unfolding min_clearance
  or_else-min_clearance none none b h = h
  or_else-min_clearance none (some x) b h = refl
  or_else-min_clearance (some y) none b h = refl
  or_else-min_clearance (some y) (some x) b h = refl

  pub or_else_idem : (o : Option N) → or_else o o ≡ o
  or_else_idem none = refl
  or_else_idem (some x) = refl

  -- The entry of a candidate of the base grid: its own base point, with a finite folded clearance.
  pub record IsSeated (corroboration : List (Corroborated N)) (c : Candidate N) : Type 0 where
    pub entry : Corroborated N
    pub found : get_elem? corroboration c.index ≡ some entry
    pub own : entry.base ≡ c.poi
    pub based : is_base c.poi ≡ true
    pub finite : finite_clearance entry.merged.clearance ≡ true
    pub known :
        or_else entry.merged.clearance entry.base.vertical_clearance_meters ≡ entry.merged.clearance

  pub IsSeated-merge :
      (corroboration : List (Corroborated N)) (c : Candidate N) (i : ℕ) (poi : PoiSummary N)
      → finite_clearance poi.vertical_clearance_meters ≡ true
      → IsSeated corroboration c
      → IsSeated (modify_at i (merge_into poi) corroboration) c
  unfolding merge_into
  IsSeated-merge corroboration c i poi f a =
      let o = poi.vertical_clearance_meters in
      elim (get-modify_other i c.index (merge_into poi) corroboration a.entry a.found) [
        | inl same ↦ record {
          entry = a.entry;
          found = same;
          own = a.own;
          based = a.based;
          finite = a.finite;
          known = a.known;
        }
        | inr merged ↦ record {
          entry = merge_into poi a.entry;
          found = merged;
          own = a.own;
          based = a.based;
          finite = min_clearance-finite a.entry.merged.clearance o a.finite f;
          known =
              or_else-min_clearance a.entry.merged.clearance o
                a.entry.base.vertical_clearance_meters a.known;
        }
      ]

  module _ (spec : DedupeRadiusSpec N) where
    -- What stood for a point before a merge into a base point stands for it behind the merge.
    pub stands_for-merged :
        (e poi : PoiSummary N) (c : Corroborated N)
        → or_else c.merged.clearance c.base.vertical_clearance_meters ≡ c.merged.clearance
        → stands_for spec e (base_survivor c) ≡ true
        → stands_for spec e (base_survivor (merge_into poi c)) ≡ true
    unfolding merge_into stands_for matches is_base
    stands_for-merged e poi c k h =
        let o = poi.vertical_clearance_meters in
        let base = c.base.vertical_clearance_meters in
        let before = sym (stands_for-base_survivor spec e c) ∙ h in
        stands_for-base_survivor spec e (merge_into poi c)
        ∙ rw (or_else-min_clearance c.merged.clearance o base k) (
            ground (
              arith,
              before,
              k,
              covers-min_clearance e.vertical_clearance_meters c.merged.clearance o,
            ))

    -- The base point that a point is merged into stands for it.
    pub merged_stands :
        (poi : PoiSummary N) (c : Corroborated N)
        → or_else c.merged.clearance c.base.vertical_clearance_meters ≡ c.merged.clearance
        → finite_clearance c.merged.clearance ≡ true
        → finite_clearance poi.vertical_clearance_meters ≡ true
        → matches poi.type poi.position (radius_for poi.source spec) c.base ≡ true
        → is_base c.base ≡ true
        → stands_for spec poi (base_survivor (merge_into poi c)) ≡ true
    unfolding merge_into matches is_base
    merged_stands poi c k f g h b =
        let o = poi.vertical_clearance_meters in
        stands_for-base_survivor spec poi (merge_into poi c)
        ∙ rw (or_else-min_clearance c.merged.clearance o c.base.vertical_clearance_meters k) (
            matches-stands_for spec poi
              (record c.base { vertical_clearance_meters = min_clearance c.merged.clearance o }) h
              (ground (arith, b)) (min_clearance-covers c.merged.clearance o f g))
