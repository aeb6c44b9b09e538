-- ===== src/Inputs/Aggregate/Laws.antt =====
-- What stands in the aggregate's list for a point that a source answered.
use signalk_activecaptain_re.Base.{
  ℕ, zero, suc, ◌+◌, ◌≡◌, refl, ap, sym, ◌∙◌, Bool, true, false, Option, none, some, List, [], ◌∷◌,
  ◌++◌, any, all, any-get, get-map, get-append, get_elem?, length, arith, if◌then◌else◌,
}
use signalk_activecaptain_re.Base.Text.{Text, text_eq, text_beq_iff}
use signalk_activecaptain_re.Base.Equality.{Eq}
use signalk_activecaptain_re.Base.Float.{Floats}
use signalk_activecaptain_re.Types.{PoiSummary}
use signalk_activecaptain_re.Status.{PluginStatus}
use signalk_activecaptain_re.Inputs.Registry.{Outcome, value, namespaced, list_points_of_interest}
use signalk_activecaptain_re.Inputs.Registry.Laws.{
  answered, union_of, is_failed, list_points_of_interest_lem,
}
use signalk_activecaptain_re.Inputs.Dedupe.{DedupeRadiusSpec}
use signalk_activecaptain_re.Inputs.Dedupe.Standin.{stands_for, covers, finite_clearance, AllFinite}
use signalk_activecaptain_re.Inputs.Dedupe.AgainstBase.{dedupe_against_base_covers}
use signalk_activecaptain_re.Inputs.Aggregate.{
  DedupeOptions, DedupeWiring, wire_dedupe, spec_of, deduped, then_dedupe, list_deduped,
}

get-after {ℓ} :
    {A : Type ℓ} (xs ys : List A) (i : ℕ) → get_elem? (xs ++ ys) (length xs + i) ≡ get_elem? ys i
get-after [] ys i = let same : 0 + i ≡ i = omega arith in ap (get_elem? ys) same
get-after (x ∷ xs) ys i =
    let same : suc (length xs) + i ≡ suc (length xs + i) = omega arith in
    ap (get_elem? (x ∷ (xs ++ ys))) same ∙ get-after xs ys i

module _ {N : Type 0} where
  abbrev place : List (Text × Outcome N) → ℕ → ℕ → ℕ
  place [] k i = i
  place (o ∷ os) zero i = i
  place (o ∷ os) (suc k) i = length (answered o) + place os k i

  get-union_of :
      (os : List (Text × Outcome N)) (k : ℕ) (id : Text) (pois : List (PoiSummary N)) (i : ℕ)
      (poi : PoiSummary N)
      → get_elem? os k ≡ some (id, value pois)
      → get_elem? pois i ≡ some poi
      → get_elem? (union_of os) (place os k i) ≡ some (namespaced id poi)
  get-union_of [] k id pois i poi h g = ground (arith, h)
  get-union_of (o ∷ os) zero id pois i poi h g =
      let same : (id, value pois) ≡ o = cc h in
      get-append (answered o) (union_of os) i (namespaced id poi) (
        ap (λ (p : Text × Outcome N). get_elem? (answered p) i) (sym same)
        ∙ get-map (namespaced id) pois i poi g)
  get-union_of (o ∷ os) (suc k) id pois i poi h g =
      get-after (answered o) (union_of os) (place os k i) ∙ get-union_of os k id pois i poi h g

  not_all_failed :
      (os : List (Text × Outcome N)) (k : ℕ) (id : Text) (pois : List (PoiSummary N))
      → get_elem? os k ≡ some (id, value pois)
      → all (λ o. is_failed o.1) os ≡ false
  not_all_failed [] k id pois h = ground (arith, h)
  not_all_failed (o ∷ os) zero id pois h =
      let same : (id, value pois) ≡ o = cc h in
      let live : is_failed o.1 ≡ false = ap (λ (p : Text × Outcome N). is_failed p.1) (sym same) in
      ground (arith, live)
  not_all_failed (o ∷ os) (suc k) id pois h = ground (arith, not_all_failed os k id pois h)

module _ {N : Type 0} ⦃F : Floats N⦄ ⦃key : Eq N⦄ where
  covers_refl : (o : Option N) → finite_clearance o ≡ true → covers o o ≡ true
  covers_refl none h = refl
  covers_refl (some c) h = F.le_refl c h

  stands_for_refl :
      (spec : DedupeRadiusSpec N) (poi : PoiSummary N)
      → finite_clearance poi.vertical_clearance_meters ≡ true
      → stands_for spec poi poi ≡ true
  unfolding stands_for
  stands_for_refl spec poi h = ground (
    arith,
    covers_refl poi.vertical_clearance_meters h,
    text_beq_iff poi.id poi.id,
    text_beq_iff poi.source poi.source,
  )

  deduped_covers :
      (w : DedupeWiring N) (ids : List Text) (merged : List (PoiSummary N)) (j : ℕ)
      (e : PoiSummary N)
      → AllFinite merged
      → get_elem? merged j ≡ some e
      → any (stands_for (spec_of w) e) (deduped w ids merged) ≡ true
  deduped_covers w [] merged j e f h =
      any-get (stands_for (spec_of w) e) merged j e h (stands_for_refl (spec_of w) e (f j e h))
  deduped_covers w (id ∷ ids) merged j e f h =
      dedupe_against_base_covers (spec_of w) merged (id ∷ ids) j e f h

  abbrev pub lists_standin : DedupeRadiusSpec N → PoiSummary N → Option (List (PoiSummary N)) → Bool
  lists_standin spec e none = false
  lists_standin spec e (some pois) = any (stands_for spec e) pois

  -- Where every clearance that was listed is a finite number: a list request in which a source
  -- answered in time succeeds, and every point of that answer has, under its namespaced id, a point
  -- in the list that stands for it: of its type; the point itself, or a point of the base layer or
  -- of the same source within the radius of the source; and with a clearance that is known and no
  -- higher where the point has one.
  pub list_deduped_covers :
      (options : List (DedupeOptions N)) (now : Text) (outcomes : List (Text × Outcome N))
      (status : PluginStatus) (k : ℕ) (id : Text) (pois : List (PoiSummary N)) (i : ℕ)
      (poi : PoiSummary N)
      → AllFinite (union_of outcomes)
      → get_elem? outcomes k ≡ some (id, value pois)
      → get_elem? pois i ≡ some poi
      → lists_standin
          (spec_of (wire_dedupe options))
          (namespaced id poi)
          (list_deduped options now outcomes status).0
        ≡ true
  unfolding list_deduped
  list_deduped_covers options now outcomes status k id pois i poi f h g =
      let w = wire_dedupe options in
      let merged : (list_points_of_interest now outcomes status).0 ≡ some (union_of outcomes) =
        list_points_of_interest_lem now outcomes status
        ∙ ap (λ (b : Bool). if b then none else some (union_of outcomes))
            (not_all_failed outcomes k id pois h) in
      ap
        (λ (o : Option (List (PoiSummary N))).
          lists_standin (spec_of w) (namespaced id poi) (then_dedupe w o))
        merged
      ∙ deduped_covers w w.dedupe_sources (union_of outcomes) (place outcomes k i)
          (namespaced id poi) f (get-union_of outcomes k id pois i poi h g)
