-- ===== src/Inputs/Dedupe/Grid.antt =====
-- What a scan of the grid finds: a candidate of a bucket, which matches.
use signalk_activecaptain_re.Base.{
  ℕ, suc, ◌≡◌, sym, ◌∙◌, true, some, List, [], ◌∷◌, ◌++◌, get_elem?, get-append_one, arith, inl,
  inr, Bool-cases, Option-cases,
}
use mathlib.Core.Path.{subst}
use signalk_activecaptain_re.Base.Equality.{Eq, ◌==◌}
use signalk_activecaptain_re.Base.Float.{Floats}
use signalk_activecaptain_re.Base.JsMap
use signalk_activecaptain_re.Types.{PoiType, Position}
use signalk_activecaptain_re.Inputs.Dedupe.{
  Candidate, Grid, matches, first_match, bucket_at, scan_cells, scan_neighborhood, neighborhood,
  push_to_bucket,
}

module _ {N : Type 0} ⦃F : Floats N⦄ ⦃key : Eq N⦄ where
  -- Every candidate of every bucket has the property.
  abbrev pub GridAll : (Candidate N → Type 0) → Grid N → Type 0
  GridAll P grid = (k : N) (i : ℕ) (c : Candidate N) → get_elem? (bucket_at grid k) i ≡ some c → P c

  module _ (type : PoiType) (position : Position N) (radius : N) where
    first_match_sound :
        (cs : List (Candidate N)) (c : Candidate N)
        → first_match type position radius cs ≡ some c
        → (i : ℕ) × (get_elem? cs i ≡ some c) × (matches type position radius c.poi ≡ true)
    unfolding first_match
    first_match_sound [] c h = ground (arith, h)
    first_match_sound (d ∷ cs) c h = elim (Bool-cases (matches type position radius d.poi)) [
      | inl e ↦ let same : some d ≡ some c = rw e at h in (0, same, ground (arith, same, e))
      | inr e ↦
          let found : first_match type position radius cs ≡ some c = rw e at h in
          let rest = first_match_sound cs c found in (suc rest.0, rest.1, rest.2)
    ]

    scan_cells_sound :
        (P : Candidate N → Type 0) (grid : Grid N) (ks : List N) (c : Candidate N)
        → GridAll P grid
        → scan_cells grid type position radius ks ≡ some c
        → P c × (matches type position radius c.poi ≡ true)
    unfolding scan_cells
    scan_cells_sound P grid [] c g h = ground (arith, h)
    scan_cells_sound P grid (k ∷ ks) c g h =
        elim (Option-cases (first_match type position radius (bucket_at grid k))) [
          | inl e ↦
              let found : scan_cells grid type position radius ks ≡ some c = rw e at h in
              scan_cells_sound P grid ks c g found
          | inr (d, e) ↦
              let same : first_match type position radius (bucket_at grid k) ≡ some c =
                e ∙ rw e at h in
              let hit = first_match_sound (bucket_at grid k) c same in (g k hit.0 c hit.1, hit.2)
        ]

  -- A candidate that a scan finds has every property that all candidates of the grid have, and it
  -- matches the point that was asked for.
  pub scan_neighborhood_sound :
      (P : Candidate N → Type 0) (grid : Grid N) (x y : N) (type : PoiType) (position : Position N)
      (radius : N) (c : Candidate N)
      → GridAll P grid
      → scan_neighborhood grid x y type position radius ≡ some c
      → P c × (matches type position radius c.poi ≡ true)
  unfolding scan_neighborhood
  scan_neighborhood_sound P grid x y type position radius c g h =
      scan_cells_sound type position radius P grid (neighborhood x y) c g h

  pub GridAll-push :
      (P : Candidate N → Type 0) (grid : Grid N) (k : N) (c : Candidate N)
      → GridAll P grid
      → P c
      → GridAll P (push_to_bucket k c grid)
  unfolding push_to_bucket
  GridAll-push P grid k c g p j i d h = elim (Bool-cases (k == j)) [
    | inl e ↦
        let pushed : get_elem? (bucket_at grid k ++ (c ∷ [])) i ≡ some d =
          rw (JsMap.get-set k j (bucket_at grid k ++ (c ∷ [])) grid, e) at h in
        elim (get-append_one (bucket_at grid k) c d i pushed) [
          | inl before ↦ g k i d before
          | inr same ↦ subst P (sym same) p
        ]
    | inr e ↦ g j i d (rw (JsMap.get-set k j (bucket_at grid k ++ (c ∷ [])) grid, e) at h)
  ]

  pub GridAll-map :
      (P Q : Candidate N → Type 0) (grid : Grid N)
      → GridAll P grid
      → ((c : Candidate N) → P c → Q c)
      → GridAll Q grid
  GridAll-map P Q grid g f k i c h = f c (g k i c h)

  pub GridAll-empty : (P : Candidate N → Type 0) → GridAll P []
  unfolding JsMap.get
  GridAll-empty P k i c h = ground (arith, h)
