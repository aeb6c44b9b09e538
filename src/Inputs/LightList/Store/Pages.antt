-- ===== src/Inputs/LightList/Store/Pages.antt =====
-- What an upsert of a page does to the index.
use signalk_activecaptain_re.Base.{
  ℕ, ◌≡◌, refl, ap, ◌∙◌, none, some, List, [], ◌∷◌, map, any, length, if◌then◌else◌, nat_beq, arith,
  inl, inr, Bool-cases,
}
use signalk_activecaptain_re.Base.Text.{Text, text_eq, text_beq_iff}
use signalk_activecaptain_re.Base.Equality.{nat_eq}
use signalk_activecaptain_re.Base.Float.{Floats}
use signalk_activecaptain_re.Base.JsMap
use signalk_activecaptain_re.Base.JsMap.{JsMap}
use signalk_activecaptain_re.Inputs.LightList.Store.{
  LightListRecord, Store, remove_record_from_index, push_record, add_record_to_index, remove_all,
  add_all, upsert_page, previous_llnrs, DistrictHeaders, DistrictMeta,
}
use signalk_activecaptain_re.Inputs.LightList.Store.Buckets.{or_else, find_last}
use signalk_activecaptain_re.Inputs.LightList.Store.Index.{
  IsIndexed, get-remove_record, get-add_record, districts-remove_tile, remove_record-IsIndexed,
  add_record-IsIndexed,
}

module _ {N : Type 0} where
  get-remove_all :
      (ls : List ℕ) (j : ℕ) (s : Store N)
      → JsMap.get j (remove_all ls s).records
        ≡ (if any (λ l. nat_beq l j) ls then none else JsMap.get j s.records)
  unfolding remove_all
  get-remove_all [] j s = refl
  get-remove_all (l ∷ ls) j s =
      ground (arith, get-remove_all ls j (remove_record_from_index l s), get-remove_record l j s)

  districts-remove_all : (ls : List ℕ) (s : Store N) → (remove_all ls s).districts ≡ s.districts
  unfolding remove_all remove_record_from_index
  districts-remove_all [] s = refl
  districts-remove_all (l ∷ ls) s =
      districts-remove_all ls (remove_record_from_index l s)
      ∙ districts-remove_tile l (JsMap.get l s.record_tile)
          (record s { records = JsMap.delete l s.records })

module _ {N : Type 0} ⦃F : Floats N⦄ where
  get-add_all :
      (rs : List (LightListRecord N)) (j : ℕ) (s : Store N)
      → JsMap.get j (add_all rs s).records ≡ or_else (find_last j rs) (JsMap.get j s.records)
  unfolding add_all
  get-add_all [] j s = refl
  get-add_all (r ∷ rs) j s =
      ground (arith, get-add_all rs j (add_record_to_index r s), get-add_record r j s)

  remove_all-IsIndexed : (ls : List ℕ) (s : Store N) → IsIndexed s → IsIndexed (remove_all ls s)
  unfolding remove_all
  remove_all-IsIndexed [] s i = i
  remove_all-IsIndexed (l ∷ ls) s i =
      remove_all-IsIndexed ls (remove_record_from_index l s) (remove_record-IsIndexed l s i)

  districts-add_record :
      (r : LightListRecord N) (s : Store N) → (add_record_to_index r s).districts ≡ s.districts
  unfolding add_record_to_index push_record remove_record_from_index
  districts-add_record r s = elim (Bool-cases (JsMap.has r.llnr s.record_tile)) [
    | inl h ↦ rw h (
        districts-remove_tile r.llnr (JsMap.get r.llnr s.record_tile)
          (record s { records = JsMap.delete r.llnr s.records }))
    | inr h ↦ rw h refl
  ]

  pub districts-add_all :
      (rs : List (LightListRecord N)) (s : Store N) → (add_all rs s).districts ≡ s.districts
  unfolding add_all
  districts-add_all [] s = refl
  districts-add_all (r ∷ rs) s =
      districts-add_all rs (add_record_to_index r s) ∙ districts-add_record r s

  pub add_all-IsIndexed :
      (rs : List (LightListRecord N)) (s : Store N) → IsIndexed s → IsIndexed (add_all rs s)
  unfolding add_all
  add_all-IsIndexed [] s i = i
  add_all-IsIndexed (r ∷ rs) s i =
      add_all-IsIndexed rs (add_record_to_index r s) (add_record-IsIndexed r s i)

  -- An upsert of a page, whatever records it brings, leaves the tiles and the records in step.
  pub upsert_page-IsIndexed :
      (now key : Text) (rs : List (LightListRecord N)) (headers : DistrictHeaders) (s : Store N)
      → IsIndexed s
      → IsIndexed (upsert_page now key rs headers s)
  unfolding upsert_page
  upsert_page-IsIndexed now key rs headers s i =
      let ls = previous_llnrs (JsMap.get key s.districts) in
      let a = add_all-IsIndexed rs (remove_all ls s) (remove_all-IsIndexed ls s i) in
      record {
        keyed = a.keyed;
        placed = a.placed;
        tiled = record { bucket = a.tiled.bucket; once = a.tiled.once };
      }

  -- After an upsert of a page a number has the last record that the page brings for it; else none if
  -- the page had it before, whichever page brought it last; else the record that it had.
  pub get-upsert_page :
      (now key : Text) (rs : List (LightListRecord N)) (headers : DistrictHeaders) (s : Store N)
      (j : ℕ)
      → JsMap.get j (upsert_page now key rs headers s).records
        ≡ or_else (find_last j rs) (
            if any (λ l. nat_beq l j) (previous_llnrs (JsMap.get key s.districts))
            then none
            else JsMap.get j s.records)
  unfolding upsert_page
  get-upsert_page now key rs headers s j =
      let ls = previous_llnrs (JsMap.get key s.districts) in
      ground (arith, get-add_all rs j (remove_all ls s), get-remove_all ls j s)

  pub previous_llnrs-upsert_page :
      (now key : Text) (rs : List (LightListRecord N)) (headers : DistrictHeaders) (s : Store N)
      → previous_llnrs (JsMap.get key (upsert_page now key rs headers s).districts)
        ≡ map (λ r. r.llnr) rs
  unfolding upsert_page
  previous_llnrs-upsert_page now key rs headers s =
      let ls = previous_llnrs (JsMap.get key s.districts) in
      let stored = add_all rs (remove_all ls s) in
      let meta : DistrictMeta = record {
        headers = headers;
        record_count = length rs;
        fetched_at = now;
        llnrs = map (λ r. r.llnr) rs;
      } in
      let hit : (if text_eq.strict_equals key key
            then some meta
            else JsMap.get key stored.districts)
          ≡ some meta =
        ground (arith, text_beq_iff key key) in
      ap previous_llnrs (JsMap.get-set key key meta stored.districts ∙ hit)
