-- ===== src/Inputs/LightList/Files.antt =====
-- src/inputs/uscg-light-list/light-list-store.ts: what `load` makes of the files and what `flush`
-- writes. A file is the value that `JSON.parse` made of it, or nothing where it is missing, cannot be
-- read or is not JSON. The source takes the values that pass its checks as records and as metadata;
-- `as_record` and `as_meta` are that step, and `index_key` writes an index as an object's key.
pub mod Laws
pub mod Loading
use signalk_activecaptain_re.Base.{
  ℕ, Bool, true, false, ◌&&◌, ◌||◌, not, Option, none, some, List, [], ◌∷◌, map, length, is_some,
  nat_beq, if◌then◌else◌,
}
use signalk_activecaptain_re.Base.Text.{Text, txt, text_eq}
use signalk_activecaptain_re.Base.Equality.{nat_eq}
use signalk_activecaptain_re.Base.Float.{Floats}
use signalk_activecaptain_re.Base.JsMap
use signalk_activecaptain_re.Base.JsMap.{JsMap}
use signalk_activecaptain_re.Types.{Value, Items, nil, cons, null, num, arr, property_of}
use signalk_activecaptain_re.Inputs.ActiveCaptain.PoiStore.{is_object, object_entries}
use signalk_activecaptain_re.Inputs.LightList.Store.{
  LightListRecord, DistrictMeta, Store, add_all, previous_llnrs,
}

abbrev pub empty_index : {N : Type 0} → Text → Store N
empty_index now = record {
  generated = now;
  districts = [];
  records = [];
  tiles = [];
  record_tile = [];
  dirty_pages = [];
  metadata_dirty = false;
}

abbrev pub clear_headers : DistrictMeta → DistrictMeta
clear_headers meta = record meta { headers = record { last_modified = none; etag = none } }

-- The check of a page's record count, `n` of which were decoded.
unfoldable pub check_count : {N : Type 0} → Text → ℕ → Option DistrictMeta → Store N → Store N
check_count key n none s = s
check_count key n (some meta) s =
    if nat_beq n meta.record_count
    then s
    else if is_some meta.headers.last_modified || is_some meta.headers.etag
    then record s {
      districts = JsMap.set key (clear_headers meta) s.districts;
      metadata_dirty = true;
    }
    else s

module _ {N : Type 0} where
  unfoldable pub is_usable_metadata : Value N → Bool
  is_usable_metadata value = is_object value && is_object (property_of (txt "districts") value)

  abbrev is_number : Value N → Bool
  is_number (num x) = true
  is_number _ = false

  -- The test of a value in a page file.
  unfoldable pub is_page_record : Value N → Bool
  is_page_record value =
      is_object value
      && (is_number (property_of (txt "llnr") value)
          && is_object (property_of (txt "position") value))

  abbrev pub kept_records : {R : Type 0} → (Value N → R) → Items N → List R
  kept_records as_record nil = []
  kept_records as_record (cons v vs) =
      let rest = kept_records as_record vs in if is_page_record v then as_record v ∷ rest else rest

  abbrev pub records_of : {R : Type 0} → (Value N → R) → Option (Value N) → List R
  records_of as_record (some (arr values)) = kept_records as_record values
  records_of as_record _ = []

  -- The metadata of the pages. `none` is the error of an entry that is null, which the loop over the
  -- pages throws when it reads the entry's `recordCount`.
  unfoldable pub metadata_of :
      (Value N → DistrictMeta) → JsMap Text (Value N) → Option (JsMap Text DistrictMeta)
  metadata_of as_meta [] = some []
  metadata_of as_meta ((k, null) ∷ rest) = none
  metadata_of as_meta ((k, v) ∷ rest) = elim (metadata_of as_meta rest) [
    | none ↦ none
    | some metas ↦ some ((k, as_meta v) ∷ metas)
  ]

module _ {N : Type 0} ⦃F : Floats N⦄ (index_key : ℕ → Text) (as_meta : Value N → DistrictMeta)
    (as_record : Value N → LightListRecord N) (pages : Text → Option (Value N)) where
  abbrev pub read_page_file : Text → List (LightListRecord N)
  read_page_file key = records_of as_record (pages key)

  unfoldable pub hydrate_page : Text → Store N → Store N
  unfolding check_count
  hydrate_page key s =
      let records = read_page_file key in
      let added = add_all records s in
      check_count key (length records) (JsMap.get key added.districts) added

  unfoldable pub hydrate : List Text → Store N → Store N
  unfolding hydrate_page
  hydrate [] s = s
  hydrate (key ∷ rest) s = hydrate rest (hydrate_page key s)

  abbrev pub hydrated : Text → Option (JsMap Text DistrictMeta) → Option (Store N)
  hydrated now none = none
  hydrated now (some districts) =
      some (hydrate (JsMap.keys districts) (record (empty_index now) { districts = districts }))

  -- The metadata's `districts`, by key; nothing where the file is not usable.
  unfoldable pub district_entries : Option (Value N) → JsMap Text (Value N)
  unfolding is_usable_metadata
  district_entries none = []
  district_entries (some parsed) =
      if is_usable_metadata parsed
      then object_entries index_key (property_of (txt "districts") parsed)
      else []

  -- `none` is the error that `load` throws.
  unfoldable pub load : Text → Option (Value N) → Option (Store N)
  unfolding hydrate is_usable_metadata metadata_of
  load now none = some (empty_index now)
  load now (some parsed) =
      if is_usable_metadata parsed
      then hydrated now
          (metadata_of as_meta (object_entries index_key (property_of (txt "districts") parsed)))
      else some (empty_index now)

abbrev pub cons_some : {A : Type 0} → Option A → List A → List A
cons_some none xs = xs
cons_some (some a) xs = a ∷ xs

module _ {N : Type 0} where
  unfoldable pub look_up : (ℕ → Option (LightListRecord N)) → List ℕ → List (LightListRecord N)
  look_up f [] = []
  look_up f (llnr ∷ rest) = cons_some (f llnr) (look_up f rest)

  -- What `flush` writes to the file of one dirty page.
  unfoldable pub page_records : Text → Store N → List (LightListRecord N)
  unfolding look_up
  page_records key s =
      look_up (λ llnr. JsMap.get llnr s.records) (previous_llnrs (JsMap.get key s.districts))

  -- The page files that `flush` writes.
  unfoldable pub page_writes : Store N → List (Text × List (LightListRecord N))
  unfolding page_records
  page_writes s = map (λ key. (key, page_records key s)) s.dirty_pages

  -- The end of `flush`, behind the writes.
  unfoldable pub flushed : Store N → Store N
  flushed s = record s { dirty_pages = []; metadata_dirty = false }
