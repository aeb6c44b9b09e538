-- ===== src/Base/JsMap.antt =====
-- JavaScript's `Map`: entries in insertion order; a write to a present key keeps its place.
use mathlib.Core.Path.{◌≡◌, refl}
use mathlib.Core.Bool.{Bool, true, ◌&&◌, not}
use mathlib.Core.List.{List, [], ◌∷◌, map}
use mathlib.Core.Option.{Option, none, some}
use native.Mathlib.Omega.{arith}
use signalk_activecaptain_re.Base.Tests.{if◌then◌else◌, is_some}
use signalk_activecaptain_re.Base.Lists.{any, all}
use signalk_activecaptain_re.Base.Equality.{Eq, ◌==◌}

abbrev pub JsMap : Type 0 → Type 0 → Type 0
JsMap K V = List (K × V)

module _ {K V : Type 0} ⦃e : Eq K⦄ where
  unfoldable pub get : K → JsMap K V → Option V
  get k [] = none
  get k ((j, v) ∷ m) = if j == k then some v else get k m

  -- `Map.prototype.has`
  abbrev pub has : K → JsMap K V → Bool
  has k m = is_some (get k m)

  unfoldable pub set : K → V → JsMap K V → JsMap K V
  set k v [] = (k, v) ∷ []
  set k v ((j, w) ∷ m) = if j == k then (k, v) ∷ m else (j, w) ∷ set k v m

  unfoldable pub delete : K → JsMap K V → JsMap K V
  delete k [] = []
  delete k ((j, w) ∷ m) = let rest = delete k m in if j == k then rest else (j, w) ∷ rest

  abbrev pub keys : JsMap K V → List K
  keys = map (λ p. p.0)

  pub get-empty : (k : K) → ◌≡◌ {A = Option V} (get k []) none
  unfolding get
  get-empty k = refl

  pub get-set :
      (k j : K) (v : V) (m : JsMap K V) → get j (set k v m) ≡ (if k == j then some v else get j m)
  unfolding get set
  get-set k j v [] = refl
  get-set k j v ((i, w) ∷ m) = ground (
    arith,
    e.strict_equals_iff k j,
    e.strict_equals_iff i k,
    e.strict_equals_iff i j,
    get-set k j v m,
  )

  pub get-delete :
      (k j : K) (m : JsMap K V) → get j (delete k m) ≡ (if k == j then none else get j m)
  unfolding get delete
  get-delete k j [] = ground arith
  get-delete k j ((i, w) ∷ m) = ground (
    arith,
    e.strict_equals_iff k j,
    e.strict_equals_iff i k,
    e.strict_equals_iff i j,
    get-delete k j m,
  )

  pub has-keys : (k : K) (m : JsMap K V) → has k m ≡ any (λ j. j == k) (keys m)
  unfolding get
  has-keys k [] = refl
  has-keys k ((j, v) ∷ m) = ground (arith, has-keys k m)

  pub all-set :
      (p : K × V → Bool) (k : K) (v : V) (m : JsMap K V)
      → p (k, v) ≡ true
      → all p m ≡ true
      → all p (set k v m) ≡ true
  unfolding set
  all-set p k v [] h g = ground (arith, h)
  all-set p k v ((j, w) ∷ m) h g = ground (arith, h, g, all-set p k v m)

  -- No key has two entries.
  abbrev pub distinct_keys : JsMap K V → Bool
  distinct_keys [] = true
  distinct_keys ((j, v) ∷ m) = not (has j m) && distinct_keys m

  pub distinct_keys-set :
      (k : K) (v : V) (m : JsMap K V) → distinct_keys m ≡ true → distinct_keys (set k v m) ≡ true
  unfolding get set
  distinct_keys-set k v [] h = refl
  distinct_keys-set k v ((j, w) ∷ m) h = ground (
    arith,
    h,
    get-set k j v m,
    e.strict_equals_iff j k,
    e.strict_equals_iff k j,
    distinct_keys-set k v m,
  )
