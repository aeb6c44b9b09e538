-- ===== src/Base/Lists.antt =====
-- Lists measured by native numbers, and Boolean searches that compute.
use Prim.Native.Nat.{ℕ, zero, suc, ◌+◌, ◌-◌, ◌≤◌}
use mathlib.Core.Path.{◌≡◌, refl, ap, ◌∙◌}
use mathlib.Core.Logic.{◌⊎◌, inl, inr}
use mathlib.Core.Bool.{Bool, true, false, ◌&&◌, ◌||◌}
use mathlib.Core.List.{List, [], ◌∷◌, ◌++◌, map}
use signalk_activecaptain_re.Base.Tests.{Bool-cases}
use mathlib.Core.Option.{Option, none, some}
use native.Mathlib.Omega.{arith}

module _ {ℓ} {A : Type ℓ} where
  abbrev pub length : List A → ℕ
  length [] = 0
  length (x ∷ xs) = suc (length xs)

  abbrev pub get_elem? : List A → ℕ → Option A
  get_elem? [] i = none
  get_elem? (x ∷ xs) zero = some x
  get_elem? (x ∷ xs) (suc i) = get_elem? xs i

  abbrev pub take : ℕ → List A → List A
  take zero xs = []
  take (suc n) [] = []
  take (suc n) (x ∷ xs) = x ∷ take n xs

  abbrev pub drop : ℕ → List A → List A
  drop zero xs = xs
  drop (suc n) [] = []
  drop (suc n) (x ∷ xs) = drop n xs

  abbrev pub any : (A → Bool) → List A → Bool
  any p [] = false
  any p (x ∷ xs) = p x || any p xs

  abbrev pub all : (A → Bool) → List A → Bool
  all p [] = true
  all p (x ∷ xs) = p x && all p xs

  pub length-append : (xs ys : List A) → length (xs ++ ys) ≡ length xs + length ys
  length-append [] ys = omega arith
  length-append (x ∷ xs) ys = omega (arith, length-append xs ys)

-- `Array.prototype.filter`.
module _ {ℓ} {A : Type ℓ} (p : A → Bool) where
  abbrev keep_if : Bool → A → List A → List A
  keep_if true x xs = x ∷ xs
  keep_if false x xs = xs

  abbrev pub filter : List A → List A
  filter [] = []
  filter (x ∷ xs) = keep_if (p x) x (filter xs)

  pub length-filter-le : (xs : List A) → length (filter xs) ≤ length xs
  length-filter-le [] = omega arith
  length-filter-le (x ∷ xs) = ground (arith, length-filter-le xs)

-- Reads behind writes at an index.
module _ {ℓ} {A : Type ℓ} where
  abbrev pub modify_at : ℕ → (A → A) → List A → List A
  modify_at i f [] = []
  modify_at zero f (x ∷ xs) = f x ∷ xs
  modify_at (suc i) f (x ∷ xs) = x ∷ modify_at i f xs

  pub get-append :
      (xs ys : List A) (i : ℕ) (a : A) → get_elem? xs i ≡ some a → get_elem? (xs ++ ys) i ≡ some a
  get-append [] ys i a h = ground (arith, h)
  get-append (x ∷ xs) ys zero a h = h
  get-append (x ∷ xs) ys (suc i) a h = get-append xs ys i a h

  pub get_elem?-length : (xs : List A) (a : A) → get_elem? (xs ++ (a ∷ [])) (length xs) ≡ some a
  get_elem?-length [] a = refl
  get_elem?-length (x ∷ xs) a = get_elem?-length xs a

  pub any-append : (p : A → Bool) (xs ys : List A) → any p (xs ++ ys) ≡ (any p xs || any p ys)
  any-append p [] ys = refl
  any-append p (x ∷ xs) ys = ground (arith, any-append p xs ys)

  pub any-get :
      (p : A → Bool) (xs : List A) (i : ℕ) (a : A)
      → get_elem? xs i ≡ some a
      → p a ≡ true
      → any p xs ≡ true
  any-get p [] i a h g = ground (arith, h)
  any-get p (x ∷ xs) zero a h g = ground (arith, h, g)
  any-get p (x ∷ xs) (suc i) a h g = ground (arith, any-get p xs i a h g)

  pub get-modify_hit :
      (i : ℕ) (f : A → A) (xs : List A) (a : A)
      → get_elem? xs i ≡ some a
      → get_elem? (modify_at i f xs) i ≡ some (f a)
  get-modify_hit i f [] a h = ground (arith, h)
  get-modify_hit zero f (x ∷ xs) a h = ground (arith, h)
  get-modify_hit (suc i) f (x ∷ xs) a h = get-modify_hit i f xs a h

  -- A write at an index leaves every entry as it was or applies the function to it.
  pub get-modify_other :
      (i j : ℕ) (f : A → A) (xs : List A) (a : A)
      → get_elem? xs j ≡ some a
      → (get_elem? (modify_at i f xs) j ≡ some a) ⊎ (get_elem? (modify_at i f xs) j ≡ some (f a))
  get-modify_other i j f [] a h = ground (arith, h)
  get-modify_other zero zero f (x ∷ xs) a h = inr (ground (arith, h))
  get-modify_other zero (suc j) f (x ∷ xs) a h = inl h
  get-modify_other (suc i) zero f (x ∷ xs) a h = inl h
  get-modify_other (suc i) (suc j) f (x ∷ xs) a h = get-modify_other i j f xs a h

  pub any-modify :
      (p : A → Bool) (f : A → A) (i : ℕ) (xs : List A)
      → ((a : A) → get_elem? xs i ≡ some a → p a ≡ true → p (f a) ≡ true)
      → any p xs ≡ true
      → any p (modify_at i f xs) ≡ true
  any-modify p f i [] m h = h
  any-modify p f zero (x ∷ xs) m h = ground (arith, m x refl)
  any-modify p f (suc i) (x ∷ xs) m h = ground (arith, any-modify p f i xs m)

  pub get-append_one :
      (xs : List A) (x y : A) (i : ℕ)
      → get_elem? (xs ++ (x ∷ [])) i ≡ some y
      → (get_elem? xs i ≡ some y) ⊎ (y ≡ x)
  get-append_one [] x y zero h = inr (ground (arith, h))
  get-append_one [] x y (suc i) h = ground (arith, h)
  get-append_one (z ∷ xs) x y zero h = inl h
  get-append_one (z ∷ xs) x y (suc i) h = get-append_one xs x y i h

pub get-map {ℓ} :
    {A B : Type ℓ} (f : A → B) (xs : List A) (i : ℕ) (a : A)
    → get_elem? xs i ≡ some a
    → get_elem? (map f xs) i ≡ some (f a)
get-map f [] i a h = ground (arith, h)
get-map f (x ∷ xs) zero a h = ground (arith, h)
get-map f (x ∷ xs) (suc i) a h = get-map f xs i a h

pub any-map {ℓ} :
    {A B : Type ℓ} (p : B → Bool) (f : A → B) (xs : List A)
    → any p (map f xs) ≡ any (λ x. p (f x)) xs
any-map p f [] = refl
any-map p f (x ∷ xs) = ground (arith, any-map p f xs)

pub get-filter {ℓ} :
    {A : Type ℓ} (p : A → Bool) (xs : List A) (i : ℕ) (a : A)
    → get_elem? xs i ≡ some a
    → p a ≡ true
    → (j : ℕ) × (get_elem? (filter p xs) j ≡ some a)
get-filter p [] i a h g = ground (arith, h)
get-filter p (x ∷ xs) zero a h g = (0, ground (arith, h, g))
get-filter p (x ∷ xs) (suc i) a h g =
    let rest = get-filter p xs i a h g in
    elim (Bool-cases (p x)) [ inl e ↦ (suc rest.0, rw e rest.1) | inr e ↦ (rest.0, rw e rest.1) ]

module _ {ℓ} {A : Type ℓ} (p : A → Bool) where
  abbrev Passes : List A → A → Type ℓ
  Passes xs a = (i : ℕ) × (get_elem? xs i ≡ some a) × (p a ≡ true)

  Passes-later : (x a : A) (xs : List A) → Passes xs a → Passes (x ∷ xs) a
  Passes-later x a xs (i, h, g) = (suc i, h, g)

  Passes-first :
      (x a : A) (xs ys : List A) (j : ℕ)
      → p x ≡ true
      → (get_elem? ys (j - 1) ≡ some a → Passes xs a)
      → get_elem? (x ∷ ys) j ≡ some a
      → Passes (x ∷ xs) a
  Passes-first x a xs ys zero e f h = (0, h, ground (arith, e, h))
  Passes-first x a xs ys (suc j) e f h =
      let same : suc j - 1 ≡ j = omega arith in Passes-later x a xs (f (ap (get_elem? ys) same ∙ h))

  -- An entry of a filtered list is one of the list that passes the test.
  pub filter-get :
      (xs : List A) (j : ℕ) (a : A)
      → get_elem? (filter p xs) j ≡ some a
      → (i : ℕ) × (get_elem? xs i ≡ some a) × (p a ≡ true)
  filter-get [] j a h = ground (arith, h)
  filter-get (x ∷ xs) j a h = elim (Bool-cases (p x)) [
    | inl e ↦ Passes-first x a xs (filter p xs) j e (filter-get xs (j - 1) a) (rw e at h)
    | inr e ↦ Passes-later x a xs (filter-get xs j a (rw e at h))
  ]

pub List-cases {ℓ} :
    {A : Type ℓ} (xs : List A) → (xs ≡ []) ⊎ ((x : A) × (ys : List A) × (xs ≡ (x ∷ ys)))
List-cases [] = inl refl
List-cases (x ∷ xs) = inr (x, xs, refl)
