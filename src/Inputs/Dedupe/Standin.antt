-- ===== src/Inputs/Dedupe/Standin.antt =====
-- When a point of the result stands for a point of the input, and what the fold of a clearance keeps.
use signalk_activecaptain_re.Base.{
  ℕ, ◌≡◌, refl, Bool, true, false, ◌&&◌, ◌||◌, Option, none, some, List, get_elem?, arith,
}
use signalk_activecaptain_re.Base.Text.{text_eq, text_beq_iff}
use signalk_activecaptain_re.Base.Equality.{Eq, ◌==◌}
use signalk_activecaptain_re.Base.Float.{Floats}
use signalk_activecaptain_re.Types.{poi_type_beq, PoiSummary}
use signalk_activecaptain_re.Inputs.Dedupe.{
  DedupeRadiusSpec, matches, radius_for, min_clearance, fold_clearance, is_base,
}

module _ {N : Type 0} ⦃F : Floats N⦄ ⦃key : Eq N⦄ where
  -- The clearance `r` warns wherever the clearance of the point does.
  abbrev pub covers : Option N → Option N → Bool
  covers none r = true
  covers (some c) none = false
  covers (some c) (some r) = F.le r c

  abbrev pub finite_clearance : Option N → Bool
  finite_clearance none = true
  finite_clearance (some c) = F.is_finite c

  abbrev pub same_feature : DedupeRadiusSpec N → PoiSummary N → PoiSummary N → Bool
  same_feature spec poi q =
      (q.id == poi.id && q.source == poi.source)
      || (matches poi.type poi.position (radius_for poi.source spec) q
          && (is_base q || q.source == poi.source))

  -- The point `q` stands for `poi`: it has its type; it is the point itself, or a point of the base
  -- layer or of the same source within the radius; and its clearance is no higher.
  unfoldable pub stands_for : DedupeRadiusSpec N → PoiSummary N → PoiSummary N → Bool
  stands_for spec poi q =
      (poi_type_beq q.type poi.type && same_feature spec poi q)
      && covers poi.vertical_clearance_meters q.vertical_clearance_meters

  pub covers-min_clearance :
      (e current candidate : Option N)
      → covers e current ≡ true
      → covers e (min_clearance current candidate) ≡ true
  unfolding min_clearance
  covers-min_clearance none current candidate h = refl
  covers-min_clearance (some e) current none h = h
  covers-min_clearance (some e) none (some b) h = ground (arith, h)
  covers-min_clearance (some e) (some a) (some b) h =
      ground (arith, h, F.lt→le b a, F.le_trans b a e)

  pub min_clearance-covers :
      (current candidate : Option N)
      → finite_clearance current ≡ true
      → finite_clearance candidate ≡ true
      → covers candidate (min_clearance current candidate) ≡ true
  unfolding min_clearance
  min_clearance-covers current none f g = refl
  min_clearance-covers none (some b) f g = F.le_refl b g
  min_clearance-covers (some a) (some b) f g = ground (arith, f, g, F.le_refl b, F.not_lt→le b a)

  pub min_clearance-finite :
      (current candidate : Option N)
      → finite_clearance current ≡ true
      → finite_clearance candidate ≡ true
      → finite_clearance (min_clearance current candidate) ≡ true
  unfolding min_clearance
  min_clearance-finite current none f g = f
  min_clearance-finite none (some b) f g = g
  min_clearance-finite (some a) (some b) f g = ground (arith, f, g)

  pub covers_refl : (o : Option N) → finite_clearance o ≡ true → covers o o ≡ true
  covers_refl none f = refl
  covers_refl (some a) f = F.le_refl a f

  folded_with :
      (c o : Option N) (q : PoiSummary N)
      → fold_clearance c (record q { vertical_clearance_meters = o })
        ≡ record q { vertical_clearance_meters = min_clearance o c }
  unfolding fold_clearance min_clearance
  folded_with none none q = refl
  folded_with none (some a) q = refl
  folded_with (some b) none q = refl
  folded_with (some b) (some a) q = refl

  pub fold_clearance_lem :
      (c : Option N) (q : PoiSummary N)
      → fold_clearance c q
        ≡ record q { vertical_clearance_meters = min_clearance q.vertical_clearance_meters c }
  fold_clearance_lem c q = folded_with c q.vertical_clearance_meters q

  pub stands_for_self :
      (spec : DedupeRadiusSpec N) (poi : PoiSummary N)
      → finite_clearance poi.vertical_clearance_meters ≡ true
      → stands_for spec poi poi ≡ true
  unfolding stands_for
  stands_for_self spec poi f = ground (
    arith,
    text_beq_iff poi.id poi.id,
    text_beq_iff poi.source poi.source,
    covers_refl poi.vertical_clearance_meters f,
  )

  -- A point that matches in the radius and has a low enough clearance stands for the other.
  pub matches-stands_for :
      (spec : DedupeRadiusSpec N) (poi q : PoiSummary N)
      → matches poi.type poi.position (radius_for poi.source spec) q ≡ true
      → (is_base q || q.source == poi.source) ≡ true
      → covers poi.vertical_clearance_meters q.vertical_clearance_meters ≡ true
      → stands_for spec poi q ≡ true
  unfolding stands_for matches
  matches-stands_for spec poi q h s c = ground (arith, h, s, c)

  pub stands_for-lowered :
      (spec : DedupeRadiusSpec N) (poi q : PoiSummary N) (c : Option N)
      → stands_for spec poi q ≡ true
      → stands_for spec poi (fold_clearance c q) ≡ true
  unfolding stands_for matches is_base
  stands_for-lowered spec poi q c h = rw (fold_clearance_lem c q) (
      ground (
        arith,
        h,
        covers-min_clearance poi.vertical_clearance_meters q.vertical_clearance_meters c,
      ))

  abbrev pub AllFinite : List (PoiSummary N) → Type 0
  AllFinite pois =
      (i : ℕ) (poi : PoiSummary N)
      → get_elem? pois i ≡ some poi
      → finite_clearance poi.vertical_clearance_meters ≡ true
