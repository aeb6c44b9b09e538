-- ===== src/Inputs/LightList/Store/Buckets.antt =====
-- The buckets of the tiles: what a search by number finds in them.
use signalk_activecaptain_re.Base.{
  ℕ, suc, ◌+◌, ◌≤◌, ◌≡◌, refl, Option, none, some, List, [], ◌∷◌, ◌++◌, if◌then◌else◌, nat_beq,
  nat_beq_iff, arith, inl, inr, Option-cases,
}
use signalk_activecaptain_re.Base.Text.{text_eq}
use signalk_activecaptain_re.Base.Equality.{nat_eq}
use signalk_activecaptain_re.Base.JsMap
use signalk_activecaptain_re.Base.JsMap.{JsMap}
use signalk_activecaptain_re.Inputs.LightList.Store.{
  LightListRecord, bucket_at, drop_record, store_bucket, drop_from_tile,
}

abbrev pub or_else : {A : Type 0} → Option A → Option A → Option A
or_else none o = o
or_else (some a) o = some a

module _ {N : Type 0} where
  -- The first record of a list with the number, and how many it has.
  abbrev pub find : ℕ → List (LightListRecord N) → Option (LightListRecord N)
  find l [] = none
  find l (r ∷ rs) = if nat_beq r.llnr l then some r else find l rs

  abbrev pub count : ℕ → List (LightListRecord N) → ℕ
  count l [] = 0
  count l (r ∷ rs) = if nat_beq r.llnr l then suc (count l rs) else count l rs

  -- The last record of a page with the number.
  abbrev pub find_last : ℕ → List (LightListRecord N) → Option (LightListRecord N)
  find_last j [] = none
  find_last j (r ∷ rs) = or_else (find_last j rs) (if nat_beq r.llnr j then some r else none)

  pub find-append :
      (l : ℕ) (xs ys : List (LightListRecord N))
      → find l (xs ++ ys) ≡ or_else (find l xs) (find l ys)
  find-append l [] ys = refl
  find-append l (r ∷ xs) ys = ground (arith, find-append l xs ys)

  pub count-append :
      (l : ℕ) (xs ys : List (LightListRecord N)) → count l (xs ++ ys) ≡ count l xs + count l ys
  count-append l [] ys = ground arith
  count-append l (r ∷ xs) ys = ground (arith, count-append l xs ys)

  pub find-count : (l : ℕ) (xs : List (LightListRecord N)) → find l xs ≡ none → count l xs ≡ 0
  find-count l [] h = refl
  find-count l (r ∷ xs) h = ground (arith, find-count l xs)

  pub count-find : (l : ℕ) (xs : List (LightListRecord N)) → count l xs ≡ 0 → find l xs ≡ none
  count-find l [] h = refl
  count-find l (r ∷ xs) h = ground (arith, count-find l xs)

  pub find-drop_record :
      (l j : ℕ) (xs : List (LightListRecord N))
      → count l xs ≤ 1
      → find j (drop_record l xs) ≡ (if nat_beq l j then none else find j xs)
  unfolding drop_record
  find-drop_record l j [] h = ground arith
  find-drop_record l j (r ∷ xs) h = ground (arith, find-drop_record l j xs, count-find l xs)

  pub count-drop_record :
      (l j : ℕ) (xs : List (LightListRecord N)) → count j (drop_record l xs) ≤ count j xs
  unfolding drop_record
  count-drop_record l j [] = omega arith
  count-drop_record l j (r ∷ xs) = ground (arith, count-drop_record l j xs)

  bucket_at-store_bucket :
      (key k : ℕ) (b : List (LightListRecord N)) (tiles : JsMap ℕ (List (LightListRecord N)))
      → bucket_at k (store_bucket key b tiles) ≡ (if nat_beq key k then b else bucket_at k tiles)
  bucket_at-store_bucket key k [] tiles = ground (arith, JsMap.get-delete key k tiles)
  bucket_at-store_bucket key k (r ∷ rs) tiles = ground (arith, JsMap.get-set key k (r ∷ rs) tiles)

  pub bucket_at-drop_from_tile :
      (l key k : ℕ) (tiles : JsMap ℕ (List (LightListRecord N)))
      → bucket_at k (drop_from_tile l key (JsMap.get key tiles) tiles)
        ≡ (if nat_beq key k then drop_record l (bucket_at key tiles) else bucket_at k tiles)
  unfolding drop_record
  bucket_at-drop_from_tile l key k tiles = elim (Option-cases (JsMap.get key tiles)) [
    | inl e ↦ ground (arith, e, nat_beq_iff key k)
    | inr (b, e) ↦ rw e (bucket_at-store_bucket key k (drop_record l b) tiles)
  ]

  -- What a bucket holds under a number that has the tile `key`.
  abbrev pub held : ℕ → Option ℕ → Option (LightListRecord N) → Option (LightListRecord N)
  held k none r = none
  held k (some key) r = if nat_beq key k then r else none
