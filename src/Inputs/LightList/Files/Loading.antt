-- ===== src/Inputs/LightList/Files/Loading.antt =====
-- What a load leaves in the index.
use signalk_activecaptain_re.Base.{
  ℕ, ◌≡◌, refl, sym, ap, ◌∙◌, Bool, true, false, ◌||◌, Option, none, some, List, [], ◌∷◌, any,
  length, if◌then◌else◌, nat_beq, is_some, arith, inl, inr, Bool-cases, Option-cases,
}
use signalk_activecaptain_re.Base.Text.{Text, txt, text_eq, text_beq_iff}
use signalk_activecaptain_re.Base.Equality.{nat_eq, ◌==◌}
use signalk_activecaptain_re.Base.Float.{Floats}
use signalk_activecaptain_re.Base.JsMap
use signalk_activecaptain_re.Base.JsMap.{JsMap}
use signalk_activecaptain_re.Types.{Value, undefined, null, bool, num, str, arr, obj, property_of}
use signalk_activecaptain_re.Inputs.ActiveCaptain.PoiStore.{object_entries}
use signalk_activecaptain_re.Inputs.LightList.Store.{LightListRecord, DistrictMeta, Store, add_all}
use signalk_activecaptain_re.Inputs.LightList.Store.Index.{IsIndexed}
use signalk_activecaptain_re.Inputs.LightList.Store.Pages.{add_all-IsIndexed, districts-add_all}
use signalk_activecaptain_re.Inputs.LightList.Files.{
  empty_index, clear_headers, check_count, is_usable_metadata, metadata_of, read_page_file,
  hydrate_page, hydrate, hydrated, district_entries, load,
}

pub empty_index-IsIndexed :
    {N : Type 0} ⦃F : Floats N⦄ (now : Text) → IsIndexed {N = N} (empty_index now)
unfolding JsMap.get
empty_index-IsIndexed now = record {
  keyed = λ l. refl;
  placed = λ l. refl;
  tiled = record { bucket = λ k l. refl; once = λ k l. omega arith };
}

module _ {N : Type 0} ⦃F : Floats N⦄ where
  -- The index does not read the metadata.
  districts-IsIndexed :
      (s : Store N) (d : JsMap Text DistrictMeta) (b : Bool)
      → IsIndexed s
      → IsIndexed (record s { districts = d; metadata_dirty = b })
  districts-IsIndexed s d b i = record {
    keyed = i.keyed;
    placed = i.placed;
    tiled = record { bucket = i.tiled.bucket; once = i.tiled.once };
  }

  check_count-IsIndexed :
      (key : Text) (n : ℕ) (o : Option DistrictMeta) (s : Store N)
      → IsIndexed s
      → IsIndexed (check_count key n o s)
  unfolding check_count
  check_count-IsIndexed key n none s i = i
  check_count-IsIndexed key n (some meta) s i = elim (Bool-cases (nat_beq n meta.record_count)) [
    | inl e ↦ rw e i
    | inr e ↦ elim (Bool-cases (is_some meta.headers.last_modified || is_some meta.headers.etag)) [
      | inl h ↦
          rw (e, h) (districts-IsIndexed s (JsMap.set key (clear_headers meta) s.districts) true i)
      | inr h ↦ rw (e, h) i
    ]
  ]

-- A page's metadata after its file was read: without the headers of a conditional request where the
-- file holds another number of records than the metadata claims.
abbrev pub checked : ℕ → Option DistrictMeta → Option DistrictMeta
checked n none = none
checked n (some meta) = if nat_beq n meta.record_count then some meta else some (clear_headers meta)

no_options : {A : Type 0} (a : Option A) → is_some a ≡ false → a ≡ none
no_options none h = refl
no_options (some a) h = ground (arith, h)

no_headers :
    (meta : DistrictMeta)
    → (is_some meta.headers.last_modified || is_some meta.headers.etag) ≡ false
    → clear_headers meta ≡ meta
no_headers meta h =
    let first = no_options meta.headers.last_modified (ground (arith, h)) in
    let second = no_options meta.headers.etag (ground (arith, h)) in
    λ i. record meta { headers = record { last_modified = sym first i; etag = sym second i } }

checked-checked : (n : ℕ) (o : Option DistrictMeta) → checked n (checked n o) ≡ checked n o
checked-checked n none = refl
checked-checked n (some meta) = ground arith

module _ {N : Type 0} where
  abbrev is_null : Value N → Bool
  is_null null = true
  is_null _ = false

  abbrev pub has_null : JsMap Text (Value N) → Bool
  has_null entries = any (λ e. is_null e.1) entries

  module _ (as_meta : Value N → DistrictMeta) where
    abbrev pub meta_of : Option (Value N) → Option DistrictMeta
    meta_of none = none
    meta_of (some v) = some (as_meta v)

    abbrev IsMetadata : JsMap Text (Value N) → Option (JsMap Text DistrictMeta) → Type 0
    IsMetadata entries none = has_null entries ≡ true
    IsMetadata entries (some metas) =
        (has_null entries ≡ false)
        × ((j : Text) → JsMap.get j metas ≡ meta_of (JsMap.get j entries))

    with_entry :
        Text → Value N → Option (JsMap Text DistrictMeta) → Option (JsMap Text DistrictMeta)
    with_entry k v none = none
    with_entry k v (some metas) = some ((k, as_meta v) ∷ metas)

    cons-IsMetadata :
        (k : Text) (v : Value N) (rest : JsMap Text (Value N))
        (o : Option (JsMap Text DistrictMeta))
        → is_null v ≡ false
        → IsMetadata rest o
        → IsMetadata ((k, v) ∷ rest) (with_entry k v o)
    unfolding with_entry JsMap.get
    cons-IsMetadata k v rest none n h = ground (arith, h)
    cons-IsMetadata k v rest (some metas) n h = (ground (arith, h.0, n), λ j. ground (arith, h.1 j))

    metadata_of-entry :
        (k : Text) (v : Value N) (rest : JsMap Text (Value N))
        → is_null v ≡ false
        → metadata_of as_meta ((k, v) ∷ rest) ≡ with_entry k v (metadata_of as_meta rest)
    unfolding metadata_of with_entry
    metadata_of-entry k v rest n = ground (arith, n)

    metadata_of-IsMetadata :
        (entries : JsMap Text (Value N)) → IsMetadata entries (metadata_of as_meta entries)
    unfolding metadata_of JsMap.get
    metadata_of-IsMetadata [] = (refl, λ j. refl)
    metadata_of-IsMetadata ((k, v) ∷ rest) = elim (Bool-cases (is_null v)) [
      | inl e ↦ null_entry k v rest e
      | inr e ↦
          rw (metadata_of-entry k v rest e)
            (cons-IsMetadata k v rest (metadata_of as_meta rest) e (metadata_of-IsMetadata rest))
    ]
      where
        null_entry :
            (k : Text) (v : Value N) (rest : JsMap Text (Value N))
            → is_null v ≡ true
            → IsMetadata ((k, v) ∷ rest) (metadata_of as_meta ((k, v) ∷ rest))
        null_entry k null rest e = refl
        null_entry k undefined rest e = ground (arith, e)
        null_entry k (bool b) rest e = ground (arith, e)
        null_entry k (num x) rest e = ground (arith, e)
        null_entry k (str t) rest e = ground (arith, e)
        null_entry k (arr vs) rest e = ground (arith, e)
        null_entry k (obj fs) rest e = ground (arith, e)

module _ {N : Type 0} ⦃F : Floats N⦄ where
  districts-check_count :
      (key j : Text) (n : ℕ) (s : Store N)
      → JsMap.get j (check_count key n (JsMap.get key s.districts) s).districts
        ≡ (if key == j then checked n (JsMap.get j s.districts) else JsMap.get j s.districts)
  unfolding check_count
  districts-check_count key j n s = elim (Option-cases (JsMap.get key s.districts)) [
    | inl e ↦ ground (arith, e, text_beq_iff key j)
    | inr (meta, e) ↦ rw e (
        ground (
          arith,
          e,
          text_beq_iff key j,
          no_headers meta,
          JsMap.get-set key j (clear_headers meta) s.districts,
        ))
  ]

  module _ (index_key : ℕ → Text) (as_meta : Value N → DistrictMeta)
      (as_record : Value N → LightListRecord N) (pages : Text → Option (Value N)) where
    abbrev page : Text → List (LightListRecord N)
    page key = read_page_file index_key as_meta as_record pages key

    abbrev hydrated_with : List Text → Store N → Store N
    hydrated_with ks s = hydrate index_key as_meta as_record pages ks s

    abbrev with_page : Text → Store N → Store N
    with_page key s = hydrate_page index_key as_meta as_record pages key s

    hydrate-IsIndexed :
        (ks : List Text) (s : Store N) → IsIndexed s → IsIndexed (hydrated_with ks s)
    unfolding hydrate hydrate_page
    hydrate-IsIndexed [] s i = i
    hydrate-IsIndexed (k ∷ ks) s i =
        let added = add_all (page k) s in
        hydrate-IsIndexed ks (with_page k s) (
          check_count-IsIndexed k (length (page k)) (JsMap.get k added.districts) added
            (add_all-IsIndexed (page k) s i))

    districts-hydrate_page :
        (key j : Text) (s : Store N)
        → JsMap.get j (with_page key s).districts ≡ (
            if key == j
            then checked (length (page key)) (JsMap.get j s.districts)
            else JsMap.get j s.districts)
    unfolding hydrate_page
    districts-hydrate_page key j s =
        districts-check_count key j (length (page key)) (add_all (page key) s)
        ∙ rw (districts-add_all (page key) s) refl

    districts-hydrate :
        (ks : List Text) (j : Text) (s : Store N)
        → JsMap.get j (hydrated_with ks s).districts ≡ (
            if any (λ k. k == j) ks
            then checked (length (page j)) (JsMap.get j s.districts)
            else JsMap.get j s.districts)
    unfolding hydrate
    districts-hydrate [] j s = refl
    districts-hydrate (k ∷ ks) j s =
        districts-hydrate ks j (with_page k s)
        ∙ ground (
          arith,
          districts-hydrate_page k j s,
          text_beq_iff k j,
          checked-checked (length (page j)) (JsMap.get j s.districts),
        )

    -- What a load makes of the entries of the metadata file: an error where an entry is null, and
    -- otherwise an index in step with its tiles whose page metadata is the file's.
    abbrev pub IsLoaded : JsMap Text (Value N) → Option (Store N) → Type 0
    IsLoaded entries none = has_null entries ≡ true
    IsLoaded entries (some s) =
        (has_null entries ≡ false)
        × IsIndexed s
        × ((j : Text)
            → JsMap.get j s.districts
              ≡ checked (length (page j)) (meta_of as_meta (JsMap.get j entries)))

    start-IsLoaded :
        (now : Text) (entries : JsMap Text (Value N)) (o : Option (JsMap Text DistrictMeta))
        → IsMetadata as_meta entries o
        → IsLoaded entries (hydrated index_key as_meta as_record pages now o)
    start-IsLoaded now entries none h = h
    start-IsLoaded now entries (some districts) h =
        let start : Store N = record (empty_index now) { districts = districts } in
        (
          h.0,
          hydrate-IsIndexed (JsMap.keys districts) start
              (districts-IsIndexed (empty_index now) districts false (empty_index-IsIndexed now)),
          λ j.
              districts-hydrate (JsMap.keys districts) j start
              ∙ ground (arith, JsMap.has-keys j districts, Option-cases (JsMap.get j districts))
              ∙ ap (checked (length (page j))) (h.1 j),
        )

    -- Whatever JSON the files hold, or none: a load throws exactly where the metadata file is usable
    -- and has an entry that is null. Otherwise it leaves the tiles and the records in step; and the
    -- metadata of every page is the file's, without the headers of a conditional request where the
    -- file of the page holds another number of records than the metadata claims.
    pub load-IsLoaded :
        (now : Text) (file : Option (Value N))
        → IsLoaded
            (district_entries index_key as_meta as_record pages file)
            (load index_key as_meta as_record pages now file)
    unfolding load district_entries JsMap.get
    load-IsLoaded now none = start-IsLoaded now [] (some []) (refl, λ j. refl)
    load-IsLoaded now (some parsed) = elim (Bool-cases (is_usable_metadata parsed)) [
      | inl e ↦
          let entries = object_entries index_key (property_of (txt "districts") parsed) in
          rw e (
            start-IsLoaded now entries (metadata_of as_meta entries)
              (metadata_of-IsMetadata as_meta entries))
      | inr e ↦ rw e (start-IsLoaded now [] (some []) (refl, λ j. refl))
    ]
