-- ===== src/Inputs/Registry/Laws.antt =====
-- What a merged list holds, when a list request fails, and where its ids are routed.
use signalk_activecaptain_re.Base.{
  ◌≡◌, ◌≢◌, refl, ap, sym, ◌∙◌, Bool, true, false, ◌&&◌, not, none, some, List, [], ◌∷◌, ◌++◌, map,
  any, all, if◌then◌else◌, nat_beq, arith, Bool-cases, inl, inr,
}
use mathlib.Core.Path.{subst}
use mathlib.Core.List.{append_assoc, append-nil, Memᴰ}
use signalk_activecaptain_re.Base.Text.{Text, text_eq}
use signalk_activecaptain_re.Base.JsMap
use signalk_activecaptain_re.Base.JsMap.{JsMap}
use signalk_activecaptain_re.Types.{PoiSummary}
use signalk_activecaptain_re.Shared.NamespacedId.{split_on_first_separator}
use signalk_activecaptain_re.Shared.NamespacedId.Laws.{Lacks, split-join}
use signalk_activecaptain_re.Status.{PluginStatus}
use signalk_activecaptain_re.Inputs.Registry.{
  InputModule, hyphen, create_registry, Outcome, value, timeout, failed, namespaced, Merge,
  merge_one, merge_all, list_points_of_interest, route_details,
}

module _ {N : Type 0} where
  -- The list of one source under its namespaced ids: nothing unless it answered in time.
  abbrev pub answered : Text × Outcome N → List (PoiSummary N)
  answered (id, value pois) = map (namespaced id) pois
  answered (id, timeout) = []
  answered (id, failed reason) = []

  abbrev pub union_of : List (Text × Outcome N) → List (PoiSummary N)
  union_of [] = []
  union_of (o ∷ os) = answered o ++ union_of os

  abbrev pub is_failed : Outcome N → Bool
  is_failed (failed reason) = true
  is_failed _ = false

  merged-merge_all :
      (now : Text) (os : List (Text × Outcome N)) (m : Merge N)
      → (merge_all now os m).merged ≡ m.merged ++ union_of os
  unfolding merge_all merge_one
  merged-merge_all now [] m = sym (append-nil m.merged)
  merged-merge_all now ((id, value pois) ∷ os) m =
      merged-merge_all now os (merge_one now id (value pois) m)
      ∙ append_assoc m.merged (map (namespaced id) pois) (union_of os)
  merged-merge_all now ((id, timeout) ∷ os) m = merged-merge_all now os (merge_one now id timeout m)
  merged-merge_all now ((id, failed reason) ∷ os) m =
      merged-merge_all now os (merge_one now id (failed reason) m)

  live-merge_all :
      (now : Text) (os : List (Text × Outcome N)) (m : Merge N)
      → (not (merge_all now os m).any_ok && not (merge_all now os m).any_timeout)
        ≡ (not m.any_ok && not m.any_timeout && all (λ o. is_failed o.1) os)
  unfolding merge_all merge_one
  live-merge_all now [] m = ground arith
  live-merge_all now ((id, value pois) ∷ os) m =
      ground (arith, live-merge_all now os (merge_one now id (value pois) m))
  live-merge_all now ((id, timeout) ∷ os) m =
      ground (arith, live-merge_all now os (merge_one now id timeout m))
  live-merge_all now ((id, failed reason) ∷ os) m =
      ground (arith, live-merge_all now os (merge_one now id (failed reason) m))

  -- A list request throws exactly when every source failed; otherwise it returns the points of the
  -- sources that answered in time, in the order of the sources, under their namespaced ids.
  pub list_points_of_interest_lem :
      (now : Text) (os : List (Text × Outcome N)) (status : PluginStatus)
      → (list_points_of_interest now os status).0
        ≡ (if all (λ o. is_failed o.1) os then none else some (union_of os))
  unfolding list_points_of_interest
  list_points_of_interest_lem now os status =
      let start : Merge N = record {
        merged = [];
        any_ok = false;
        any_timeout = false;
        status = status;
      } in
      rw (live-merge_all now os start) (rw (merged-merge_all now os start))

abbrev some_hyphen : {S : Type 0} → List (InputModule S) → Bool
some_hyphen modules = any (λ m. any (λ c. nat_beq hyphen c) m.id) modules

module _ {S : Type 0} where
  registered-Lacks :
      (modules : List (InputModule S)) (m : InputModule S)
      → some_hyphen modules ≡ false
      → Memᴰ m modules
      → Lacks hyphen m.id
  registered-Lacks [] m h i = elim i [ ]
  registered-Lacks (n ∷ ns) m h (Memᴰ.head e) =
      subst (λ x. Lacks hyphen x.id) (sym e) (ground arith)
  registered-Lacks (n ∷ ns) m h (Memᴰ.tail i) = registered-Lacks ns m (ground arith) i

  registered_lem :
      (modules registered : List (InputModule S))
      → create_registry modules ≡ some registered
      → (some_hyphen modules ≡ false) × (modules ≡ registered)
  unfolding create_registry
  registered_lem modules registered made = elim (Bool-cases (some_hyphen modules)) [
    | inl h ↦ ground (arith, h)
    | inr h ↦ (h, ground (arith, h))
  ]

route_details-split :
    {S : Type 0} (sources : JsMap Text S) (id prefix rest : Text)
    → split_on_first_separator id (hyphen ∷ []) ≡ some (prefix, rest)
    → route_details sources id
      ≡ elim (JsMap.get prefix sources) [ none ↦ none | some source ↦ some (source, rest) ]
unfolding route_details
route_details-split sources id prefix rest h = rw (h, route_details) refl

-- What `route_details` does with the id that a source gave, under a prefix with no hyphen.
route_details-join :
    {S : Type 0} (sources : JsMap Text S) (id rest : Text)
    → Lacks hyphen id
    → id ≢ []
    → route_details sources ((id ++ (hyphen ∷ [])) ++ rest)
      ≡ elim (JsMap.get id sources) [ none ↦ none | some source ↦ some (source, rest) ]
route_details-join sources [] rest h n = elim (n refl) [ ]
route_details-join sources (c ∷ s) rest h n =
    route_details-split sources (((c ∷ s) ++ (hyphen ∷ [])) ++ rest) (c ∷ s) rest (
      ap (λ x. split_on_first_separator x (hyphen ∷ [])) (append_assoc (c ∷ s) (hyphen ∷ []) rest)
      ∙ split-join hyphen c s rest h)

module _ {N S : Type 0} where
  -- The id that a list hands out for a point of a registered input, whose slug is not empty, leads a
  -- detail request to what is kept under that slug, with the id that the source gave, whatever
  -- hyphens that has; where nothing is kept under the slug the request fails.
  pub route_details-namespaced :
      (modules registered : List (InputModule S)) (m : InputModule S) (sources : JsMap Text S)
      (poi : PoiSummary N)
      → create_registry modules ≡ some registered
      → Memᴰ m registered
      → m.id ≢ []
      → route_details sources (namespaced m.id poi).id
        ≡ elim (JsMap.get m.id sources) [ none ↦ none | some source ↦ some (source, poi.id) ]
  unfolding namespaced
  route_details-namespaced modules registered m sources poi made here n =
      let r = registered_lem modules registered made in
      route_details-join sources m.id poi.id
        (registered-Lacks registered m (subst (λ x. some_hyphen x ≡ false) r.1 r.0) here) n
