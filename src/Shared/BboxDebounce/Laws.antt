-- ===== src/Shared/BboxDebounce/Laws.antt =====
-- What a request waits for, after any requests, rejections and expiries.
use signalk_activecaptain_re.Base.{
  ℕ, zero, suc, ◌<◌, ◌≡◌, refl, sym, ap, ◌∙◌, Bool, true, false, Option, none, some, List, [], ◌∷◌,
  ◌++◌, arith, length, any, get_elem?, get-append, get_elem?-length, length-append, nat_beq,
  Bool-cases, Option-cases, inl, inr, ◌≢◌,
}
use signalk_activecaptain_re.Base.Text.{Text, text_beq, text_beq_iff}
use signalk_activecaptain_re.Base.Lru.{Lru}
use signalk_activecaptain_re.Shared.BboxDebounce.{
  BboxDebounceCache, request, reject, evict_from, expire, clear, dropped, cleared,
}

pub data Event : Type 0 where
  requests : Text → Event
  rejects : ℕ → Event
  expires : Text → Event
  clears : Event

-- The cache, and the fetches that were rejected.
pub record Run (C : Type 0) : Type 0 where
  pub state : BboxDebounceCache C
  pub rejected : List ℕ

abbrev pub is_among : ℕ → List ℕ → Bool
is_among p ps = any (λ q. nat_beq q p) ps

abbrev add_rejected : ℕ → Option Text → List ℕ → List ℕ
add_rejected p none ps = ps
add_rejected p (some key) ps = p ∷ ps

get-bound : (xs : List Text) (i : ℕ) (a : Text) → get_elem? xs i ≡ some a → i < length xs
get-bound [] i a h = ground (arith, h)
get-bound (x ∷ xs) zero a h = omega arith
get-bound (x ∷ xs) (suc i) a h = omega (arith, get-bound xs i a h)

module _ {C : Type 0} (lru : Lru C ℕ) where
  unfoldable pub step : Event → Run C → Run C
  step (requests key) r = record r { state = (request lru key r.state).1 }
  step (rejects p) r = record {
    state = reject lru p r.state;
    rejected = add_rejected p (get_elem? r.state.fetches p) r.rejected;
  }
  step (expires key) r = record r { state = expire lru key r.state }
  step clears r = record r { state = clear lru r.state }

  unfoldable pub run : List Event → Run C → Run C
  unfolding step
  run [] r = r
  run (e ∷ es) r = run es (step e r)

  abbrev held : Text → Option C → Option ℕ
  held key none = none
  held key (some c) = lru.get key c

  -- What is cached was fetched under its key and not rejected; only started fetches are rejected.
  record IsShared (cache : Option C) (fetches : List Text) (rejected : List ℕ) : Type 0 where
    owned : (key : Text) (p : ℕ) → held key cache ≡ some p → get_elem? fetches p ≡ some key
    kept : (key : Text) (p : ℕ) → held key cache ≡ some p → is_among p rejected ≡ false
    begun : (p : ℕ) → is_among p rejected ≡ true → p < length fetches

  abbrev IsSharedRun : Run C → Type 0
  IsSharedRun r = IsShared r.state.cache r.state.fetches r.rejected

  IsShared-shrink :
      (cache less : Option C) (fetches : List Text) (rejected : List ℕ)
      → ((key : Text) (p : ℕ) → held key less ≡ some p → held key cache ≡ some p)
      → IsShared cache fetches rejected
      → IsShared less fetches rejected
  IsShared-shrink cache less fetches rejected sub h = record {
    owned = λ key p g. h.owned key p (sub key p g);
    kept = λ key p g. h.kept key p (sub key p g);
    begun = h.begun;
  }

  held-delete :
      (k j : Text) (p : ℕ) (c : C)
      → held j (some (lru.delete k c)) ≡ some p
      → held j (some c) ≡ some p
  held-delete k j p c h = elim (Bool-cases (text_beq k j)) [
    | inl e ↦
        let same : k ≡ j = ground (arith, e, text_beq_iff k j) in
        ground
          (arith, h, ap (λ (i : Text). lru.get i (lru.delete k c)) same, lru.get-delete_self k c)
    | inr e ↦ lru.get-delete_ne k j p c (λ s. ground (arith, e, s, text_beq_iff k j)) h
  ]

  -- A fetch that is started, where its promise is cached.
  started-IsShared :
      (key : Text) (c : C) (fetches : List Text) (rejected : List ℕ)
      → IsShared (some c) fetches rejected
      → IsShared (some (lru.set key (length fetches) c)) (fetches ++ (key ∷ [])) rejected
  started-IsShared key c fetches rejected h = record {
    owned = λ j p g. elim (Bool-cases (text_beq key j)) [
      | inl e ↦
          let same : key ≡ j = ground (arith, e, text_beq_iff key j) in
          let number : length fetches ≡ p = new j p same g in
          ap (get_elem? (fetches ++ (key ∷ []))) (sym number)
          ∙ (get_elem?-length fetches key ∙ ap some same)
      | inr e ↦ get-append fetches (key ∷ []) p j (h.owned j p (old j p e g))
    ];
    kept = λ j p g. elim (Bool-cases (text_beq key j)) [
      | inl e ↦
          let number : length fetches ≡ p = new j p (ground (arith, e, text_beq_iff key j)) g in
          ground (arith, number, h.begun p)
      | inr e ↦ h.kept j p (old j p e g)
    ];
    begun = λ p g. omega (arith, h.begun p g, length-append fetches (key ∷ []));
  }
    where
      new :
          (j : Text) (p : ℕ)
          → key ≡ j
          → held j (some (lru.set key (length fetches) c)) ≡ some p
          → length fetches ≡ p
      new j p same g = ground (
        arith,
        g,
        ap (λ (i : Text). lru.get i (lru.set key (length fetches) c)) same,
        lru.get-set_self key (length fetches) c,
      )

      old :
          (j : Text) (p : ℕ)
          → text_beq key j ≡ false
          → held j (some (lru.set key (length fetches) c)) ≡ some p
          → held j (some c) ≡ some p
      old j p e g =
          lru.get-set_ne key j (length fetches) p c (λ s. ground (arith, e, s, text_beq_iff key j))
            g

  touched :
      (key : Text) (c : C) (fetches : List Text) (rejected : List ℕ)
      → IsShared (some c) fetches rejected
      → IsShared (some (lru.touch key c)) fetches rejected
  touched key c fetches rejected =
      IsShared-shrink (some c) (some (lru.touch key c)) fetches rejected
        (λ j p g. sym (lru.get-touch key j c) ∙ g)

  request-IsShared :
      (key : Text) (cache : Option C) (fetches : List Text) (rejected : List ℕ)
      → IsShared cache fetches rejected
      → let after = (request lru key (record { cache = cache; fetches = fetches })).1 in
        IsShared after.cache after.fetches rejected
  unfolding request
  request-IsShared key none fetches rejected h = record {
    owned = λ j p g. ground (arith, g);
    kept = λ j p g. ground (arith, g);
    begun = λ p g. omega (arith, h.begun p g, length-append fetches (key ∷ []));
  }
  request-IsShared key (some c) fetches rejected h = elim (Option-cases (lru.get key c)) [
    | inl e ↦
        rw (e, request)
          (started-IsShared key (lru.touch key c) fetches rejected
            (touched key c fetches rejected h))
    | inr (hit, e) ↦ rw (e, request) (touched key c fetches rejected h)
  ]

  touched_back :
      (key j : Text) (p : ℕ) (c : C) → lru.get j (lru.touch key c) ≡ some p → lru.get j c ≡ some p
  touched_back key j p c g = sym (lru.get-touch key j c) ∙ g

  evict_less :
      (key : Text) (fetch : ℕ) (cache : Option C) (j : Text) (p : ℕ)
      → held j (evict_from lru key fetch cache) ≡ some p
      → held j cache ≡ some p
  evict_less key fetch none j p = λ g. g
  evict_less key fetch (some c) j p = elim (Option-cases (lru.get key c)) [
    | inl e ↦ rw (e, held, evict_from) (λ g. touched_back key j p c g)
    | inr (cached, e) ↦ elim (Bool-cases (nat_beq cached fetch)) [
      | inl f ↦
          rw (e, f, held, evict_from)
            (λ g. touched_back key j p c (held-delete key j p (lru.touch key c) g))
      | inr f ↦ rw (e, f, held, evict_from) (λ g. touched_back key j p c g)
    ]
  ]

  evict_gone :
      (key : Text) (fetch : ℕ) (cache : Option C)
      → held key (evict_from lru key fetch cache) ≢ some fetch
  evict_gone key fetch none = λ g. ground (arith, g)
  evict_gone key fetch (some c) = elim (Option-cases (lru.get key c)) [
    | inl e ↦ rw (e, held, evict_from) (λ g. ground (arith, e, touched_back key key fetch c g))
    | inr (cached, e) ↦ elim (Bool-cases (nat_beq cached fetch)) [
      | inl f ↦
          rw (e, f, held, evict_from)
            (λ g. ground (arith, g, lru.get-delete_self key (lru.touch key c)))
      | inr f ↦
          rw (e, f, held, evict_from) (λ g. ground (arith, e, f, touched_back key key fetch c g))
    ]
  ]

  reject-IsShared :
      (fetch : ℕ) (key : Text) (cache : Option C) (fetches : List Text) (rejected : List ℕ)
      → get_elem? fetches fetch ≡ some key
      → fetch < length fetches
      → IsShared cache fetches rejected
      → IsShared (evict_from lru key fetch cache) fetches (fetch ∷ rejected)
  reject-IsShared fetch key cache fetches rejected o l h = record {
    owned = λ j p g. h.owned j p (evict_less key fetch cache j p g);
    kept = λ j p g. elim (Bool-cases (nat_beq fetch p)) [
      | inr e ↦ ground (arith, e, h.kept j p (evict_less key fetch cache j p g))
      | inl e ↦
          let same : fetch ≡ p = ground (arith, e) in
          let owner = h.owned j p (evict_less key fetch cache j p g) in
          let mine : key ≡ j = cc (o, same, owner) in
          let gone = evict_gone key fetch cache in
          ground (
            arith,
            gone (
                ap (λ (i : Text). held i (evict_from lru key fetch cache)) mine
                ∙ (g ∙ ap some (sym same))),
          )
    ];
    begun = λ p g. ground (arith, g, l, h.begun p);
  }

  dropped_less :
      (key : Text) (cache : Option C) (j : Text) (p : ℕ)
      → held j (dropped lru key cache) ≡ some p
      → held j cache ≡ some p
  dropped_less key none j p g = g
  dropped_less key (some c) j p g = held-delete key j p c g

  cleared_less :
      (cache : Option C) (j : Text) (p : ℕ)
      → held j (cleared lru cache) ≡ some p
      → held j cache ≡ some p
  cleared_less none j p g = g
  cleared_less (some c) j p g = ground (arith, g, lru.get-clear j c)

  step-IsShared : (e : Event) (r : Run C) → IsSharedRun r → IsSharedRun (step e r)
  unfolding step reject expire clear
  step-IsShared (requests key) r h = request-IsShared key r.state.cache r.state.fetches r.rejected h
  step-IsShared (rejects p) r h = elim (Option-cases (get_elem? r.state.fetches p)) [
    | inl e ↦ rw (e, step, reject) h
    | inr (key, e) ↦
        rw (e, step, reject)
          (reject-IsShared p key r.state.cache r.state.fetches r.rejected e
            (get-bound r.state.fetches p key e) h)
  ]
  step-IsShared (expires key) r h =
      IsShared-shrink r.state.cache (dropped lru key r.state.cache) r.state.fetches r.rejected
        (dropped_less key r.state.cache) h
  step-IsShared clears r h =
      IsShared-shrink r.state.cache (cleared lru r.state.cache) r.state.fetches r.rejected
        (cleared_less r.state.cache) h

  run-IsShared : (es : List Event) (r : Run C) → IsSharedRun r → IsSharedRun (run es r)
  unfolding run
  run-IsShared [] r h = h
  run-IsShared (e ∷ es) r h = run-IsShared es (step e r) (step-IsShared e r h)

  -- The fetch that a request is given: of its key, and not rejected.
  abbrev pub Serves : Text → Run C → Type 0
  Serves key r =
      (get_elem? (request lru key r.state).1.fetches (request lru key r.state).0 ≡ some key)
      × (is_among (request lru key r.state).0 r.rejected ≡ false)

  abbrev pub new_run : Option C → Run C
  new_run cache = record { state = record { cache = cache; fetches = [] }; rejected = [] }

  serves : (key : Text) (r : Run C) → IsSharedRun r → Serves key r
  unfolding request
  serves key r h = serves_with r.state.cache r.state.fetches r.rejected h
    where
      from_new :
          (fetches : List Text) (rejected : List ℕ)
          → ((p : ℕ) → is_among p rejected ≡ true → p < length fetches)
          → (get_elem? (fetches ++ (key ∷ [])) (length fetches) ≡ some key)
            × (is_among (length fetches) rejected ≡ false)
      from_new fetches rejected begun =
          (get_elem?-length fetches key, ground (arith, begun (length fetches)))

      serves_with :
          (cache : Option C) (fetches : List Text) (rejected : List ℕ)
          → IsShared cache fetches rejected
          → Serves key
              (record { state = record { cache = cache; fetches = fetches }; rejected = rejected })
      serves_with none fetches rejected h = from_new fetches rejected h.begun
      serves_with (some c) fetches rejected h = elim (Option-cases (lru.get key c)) [
        | inl e ↦ rw (e, request) (from_new fetches rejected h.begun)
        | inr (hit, e) ↦ rw (e, request) (h.owned key hit e, h.kept key hit e)
      ]

  -- Of a debounce cache that starts with no entry: after any requests, rejections of fetches,
  -- expiries and clears, a request is given a fetch that was started under its own key and has not
  -- been rejected.
  pub run-Serves :
      (cache : Option C) (es : List Event) (key : Text)
      → ((j : Text) → held j cache ≡ none)
      → Serves key (run es (new_run cache))
  run-Serves cache es key empty = serves key (run es (new_run cache)) (
      run-IsShared es (new_run cache) (record {
        owned = λ j p g. ground (arith, g, empty j);
        kept = λ j p g. refl;
        begun = λ p g. ground (arith, g);
      }))
