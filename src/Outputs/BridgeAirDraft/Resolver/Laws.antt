-- ===== src/Outputs/BridgeAirDraft/Resolver/Laws.antt =====
-- One detail request at a time for each bridge, and what a call returns.
use signalk_activecaptain_re.Base.{
  ℕ, suc, ◌-◌, ◌≤◌, ◌≡◌, refl, true, false, ◌&&◌, ◌||◌, not, Option, none, some, List, [], ◌∷◌,
  arith, if◌then◌else◌, Option-cases, Bool-cases, inl, inr,
}
use signalk_activecaptain_re.Base.Text.{Text, text_eq, text_beq_iff}
use signalk_activecaptain_re.Base.Equality.{◌==◌}
use signalk_activecaptain_re.Base.Float.{Floats}
use signalk_activecaptain_re.Base.Lru.{Lru}
use signalk_activecaptain_re.Types.{PoiSummary}
use signalk_activecaptain_re.Shared.BridgeClearance.{finite_option, or_else}
use signalk_activecaptain_re.Outputs.BridgeAirDraft.Resolver.{
  Resolver, Settled, resolved, contains, add_id, delete_id, settle_pending, start_fetch,
  resolve_cached, needs_detail, clearance_meters, fetch_settled,
}

abbrev pub count : Text → List Text → ℕ
count k [] = 0
count k (j ∷ s) = if j == k then suc (count k s) else count k s

-- The ids in flight are those whose request is pending, and no id has two pending requests.
pub record FetchesOnce {C : Type 0} (r : Resolver C) : Type 0 where
  pub tracked : (k : Text) → contains k r.in_flight ≡ contains k r.pending
  pub once : (k : Text) → count k r.pending ≤ 1

contains-add_id : (i k : Text) (s : List Text) → contains k (add_id i s) ≡ (i == k || contains k s)
contains-add_id i k s = ground (arith, text_beq_iff i k)

contains-delete_id :
    (i k : Text) (s : List Text) → contains k (delete_id i s) ≡ (not (i == k) && contains k s)
unfolding delete_id
contains-delete_id i k [] = ground arith
contains-delete_id i k (j ∷ s) =
    ground (arith, text_beq_iff i k, text_beq_iff j i, text_beq_iff j k, contains-delete_id i k s)

count-contains : (k : Text) (s : List Text) → contains k s ≡ false → count k s ≡ 0
count-contains k [] h = refl
count-contains k (j ∷ s) h = ground (arith, count-contains k s)

contains-count : (k : Text) (s : List Text) → count k s ≡ 0 → contains k s ≡ false
contains-count k [] h = refl
contains-count k (j ∷ s) h = ground (arith, contains-count k s)

count-settle :
    (i k : Text) (s : List Text)
    → count k (settle_pending i s) ≡ (if i == k && contains i s then count k s - 1 else count k s)
unfolding settle_pending
count-settle i k [] = ground arith
count-settle i k (j ∷ s) =
    ground (arith, text_beq_iff i k, text_beq_iff j i, text_beq_iff j k, count-settle i k s)

contains-settle_ne :
    (i k : Text) (s : List Text) → (i == k) ≡ false → contains k (settle_pending i s) ≡ contains k s
unfolding settle_pending
contains-settle_ne i k [] h = refl
contains-settle_ne i k (j ∷ s) h =
    ground (arith, text_beq_iff i k, text_beq_iff j i, text_beq_iff j k, contains-settle_ne i k s)

settle_absent :
    (k : Text) (s : List Text) → contains k s ≡ false → contains k (settle_pending k s) ≡ false
unfolding settle_pending
settle_absent k [] h = refl
settle_absent k (j ∷ s) h = ground (arith, settle_absent k s)

-- A cached result, which may be that the detail has no clearance.
abbrev cached_clearance : {N : Type 0} → Option (Option N) → Option N
cached_clearance none = none
cached_clearance (some clearance) = clearance

module _ {N C : Type 0} ⦃F : Floats N⦄ (lru : Lru C (Option N)) where
  start_fetch-FetchesOnce :
      (id : Text) (r : Resolver C)
      → contains id r.in_flight ≡ false
      → FetchesOnce r
      → FetchesOnce (start_fetch lru id r)
  unfolding start_fetch
  start_fetch-FetchesOnce id r h f = record {
    tracked = λ k. ground (arith, contains-add_id id k r.in_flight, f.tracked k);
    once =
        λ k. ground (arith, f.once k, f.tracked id, count-contains id r.pending, text_beq_iff id k);
  }

  resolve_cached-FetchesOnce :
      (id : Text) (r : Resolver C) → FetchesOnce r → FetchesOnce (resolve_cached lru id r).1
  unfolding resolve_cached start_fetch
  resolve_cached-FetchesOnce id r f =
      let touched : Resolver C = record r { cache = lru.touch id r.cache } in
      elim (Option-cases (lru.get id r.cache)) [
        | inr (c, e) ↦ rw (e, resolve_cached) (record { tracked = f.tracked; once = f.once })
        | inl e ↦ elim (Bool-cases (contains id r.in_flight)) [
          | inl d ↦ rw (e, resolve_cached) (rw d (record { tracked = f.tracked; once = f.once }))
          | inr d ↦
              rw (e, resolve_cached)
                (rw d (
                  rw d at (
                    start_fetch-FetchesOnce id touched d
                      (record { tracked = f.tracked; once = f.once }))))
        ]
      ]

  -- Where no bridge has two requests pending and those in flight are the pending ones, a call keeps
  -- it so: it starts no second request for a bridge whose request is pending.
  pub clearance_meters-FetchesOnce :
      (poi : PoiSummary N) (r : Resolver C)
      → FetchesOnce r
      → FetchesOnce (clearance_meters lru poi r).1
  unfolding clearance_meters
  clearance_meters-FetchesOnce poi r f =
      elim (Option-cases (finite_option poi.vertical_clearance_meters)) [
        | inr (c, e) ↦ rw (e, clearance_meters) f
        | inl e ↦ elim (Bool-cases (needs_detail lru poi)) [
          | inl d ↦ rw (e, clearance_meters) (rw d (resolve_cached-FetchesOnce poi.id r f))
          | inr d ↦ rw (e, clearance_meters) (rw d f)
        ]
      ]

  pub fetch_settled-FetchesOnce :
      (id : Text) (outcome : Settled N) (r : Resolver C)
      → FetchesOnce r
      → FetchesOnce (fetch_settled lru id outcome r)
  unfolding fetch_settled
  fetch_settled-FetchesOnce id outcome r f = record {
    tracked = λ k. ground (
      arith,
      contains-delete_id id k r.in_flight,
      f.tracked k,
      f.once k,
      text_beq_iff id k,
      count-settle id k r.pending,
      count-contains k r.pending,
      contains-count k (settle_pending id r.pending),
      contains-settle_ne id k r.pending,
      settle_absent k r.pending,
    );
    once = λ k. ground (arith, count-settle id k r.pending, f.once k);
  }

  -- What a call returns, by the state before it: the clearance of the summary, or for an
  -- ActiveCaptain bridge the one that is cached.
  unfoldable pub known_clearance : C → PoiSummary N → Option N
  known_clearance cache poi =
      or_else (finite_option poi.vertical_clearance_meters)
        (if needs_detail lru poi then cached_clearance (lru.get poi.id cache) else none)

  -- A call returns what is known, and changes nothing that another call returns.
  pub clearance_meters-known :
      (poi : PoiSummary N) (r : Resolver C)
      → ((clearance_meters lru poi r).0 ≡ known_clearance r.cache poi)
        × ((k : Text) → lru.get k (clearance_meters lru poi r).1.cache ≡ lru.get k r.cache)
  unfolding clearance_meters known_clearance
  clearance_meters-known poi r = (ground arith, λ k. ground (arith, lru.get-touch poi.id k r.cache))

  -- Once the detail request of a bridge without a clearance on its summary has resolved, calls for
  -- the bridge return the finite clearance of the detail, or `null` where the detail has none.
  pub known-fetch_settled :
      (poi : PoiSummary N) (clearance : Option N) (r : Resolver C)
      → needs_detail lru poi ≡ true
      → finite_option poi.vertical_clearance_meters ≡ none
      → known_clearance (fetch_settled lru poi.id (resolved clearance) r).cache poi
        ≡ finite_option clearance
  unfolding known_clearance fetch_settled
  known-fetch_settled poi clearance r d e =
      ground (arith, d, e, lru.get-set_self poi.id (finite_option clearance) r.cache)
