-- ===== src/Inputs/LightList/Store/Index.antt =====
-- The tiles index exactly the records, after every removal and addition of a record.
use signalk_activecaptain_re.Base.{
  ℕ, ◌≤◌, ◌≡◌, refl, ap, ◌∙◌, Bool, true, Option, none, some, [], ◌∷◌, ◌++◌, if◌then◌else◌, nat_beq,
  nat_beq_iff, arith, inl, inr, Bool-cases,
}
use signalk_activecaptain_re.Base.Text.{text_eq}
use signalk_activecaptain_re.Base.Equality.{nat_eq}
use signalk_activecaptain_re.Base.Float.{Floats}
use signalk_activecaptain_re.Base.JsMap
use signalk_activecaptain_re.Base.JsMap.{JsMap}
use signalk_activecaptain_re.Inputs.LightList.Store.{
  LightListRecord, Store, tile_key, bucket_at, remove_tile, remove_record_from_index, push_record,
  add_record_to_index,
}
use signalk_activecaptain_re.Inputs.LightList.Store.Buckets.{
  find, count, find-append, count-append, find-count, find-drop_record, count-drop_record,
  bucket_at-drop_from_tile, held,
}

module _ {N : Type 0} where
  -- Of the parts of an index: each number is in the bucket of its tile, with its record, and in no
  -- other bucket, and it is in no bucket twice.
  pub record IsTiled (records : JsMap ℕ (LightListRecord N)) (s : Store N) : Type 0 where
    pub bucket :
        (k l : ℕ)
        → find l (bucket_at k s.tiles) ≡ held k (JsMap.get l s.record_tile) (JsMap.get l records)
    pub once : (k l : ℕ) → count l (bucket_at k s.tiles) ≤ 1

  drop-IsTiled :
      (l key : ℕ) (s : Store N)
      → IsTiled s.records s
      → JsMap.get l s.record_tile ≡ some key
      → IsTiled (JsMap.delete l s.records) (remove_tile l (some key) s)
  unfolding remove_tile
  drop-IsTiled l key s i e = record {
    bucket = λ k j. ground (
      arith,
      bucket_at-drop_from_tile l key k s.tiles,
      find-drop_record l j (bucket_at key s.tiles),
      i.once key l,
      i.bucket k j,
      i.bucket key j,
      JsMap.get-delete l j s.records,
      JsMap.get-delete l j s.record_tile,
      nat_beq_iff key k,
      nat_beq_iff l j,
      e,
    );
    once = λ k j. ground (
      arith,
      bucket_at-drop_from_tile l key k s.tiles,
      count-drop_record l j (bucket_at key s.tiles),
      i.once k j,
      i.once key j,
    );
  }

  records-remove_tile :
      (l : ℕ) (o : Option ℕ) (s : Store N) → (remove_tile l o s).records ≡ s.records
  unfolding remove_tile
  records-remove_tile l none s = refl
  records-remove_tile l (some key) s = refl

  pub districts-remove_tile :
      (l : ℕ) (o : Option ℕ) (s : Store N) → (remove_tile l o s).districts ≡ s.districts
  unfolding remove_tile
  districts-remove_tile l none s = refl
  districts-remove_tile l (some key) s = refl

  record_tile-remove_tile :
      (l j : ℕ) (o : Option ℕ) (s : Store N)
      → JsMap.get l s.record_tile ≡ o
      → JsMap.get j (remove_tile l o s).record_tile
        ≡ (if nat_beq l j then none else JsMap.get j s.record_tile)
  unfolding remove_tile
  record_tile-remove_tile l j none s e = ground (arith, e, nat_beq_iff l j)
  record_tile-remove_tile l j (some key) s e = JsMap.get-delete l j s.record_tile

  pub get-remove_record :
      (l j : ℕ) (s : Store N)
      → JsMap.get j (remove_record_from_index l s).records
        ≡ (if nat_beq l j then none else JsMap.get j s.records)
  unfolding remove_record_from_index
  get-remove_record l j s =
      ap (JsMap.get j) (
        records-remove_tile l (JsMap.get l s.record_tile)
          (record s { records = JsMap.delete l s.records }))
      ∙ JsMap.get-delete l j s.records

  record_tile-remove_record :
      (l j : ℕ) (s : Store N)
      → JsMap.get j (remove_record_from_index l s).record_tile
        ≡ (if nat_beq l j then none else JsMap.get j s.record_tile)
  unfolding remove_record_from_index
  record_tile-remove_record l j s =
      record_tile-remove_tile l j (JsMap.get l s.record_tile)
        (record s { records = JsMap.delete l s.records }) refl

module _ {N : Type 0} ⦃F : Floats N⦄ where
  abbrev pub tile_of : Option (LightListRecord N) → Option ℕ
  tile_of none = none
  tile_of (some r) = some (tile_key r.position)

  abbrev pub number_is : ℕ → Option (LightListRecord N) → Bool
  number_is l none = true
  number_is l (some r) = nat_beq r.llnr l

  -- The tiles and the table of the tiles index the records: each record stands under its own number,
  -- and in the one bucket of its position.
  pub record IsIndexed (s : Store N) : Type 0 where
    pub keyed : (l : ℕ) → number_is l (JsMap.get l s.records) ≡ true
    pub placed : (l : ℕ) → JsMap.get l s.record_tile ≡ tile_of (JsMap.get l s.records)
    pub tiled : IsTiled s.records s

  tile_of-none : (o : Option (LightListRecord N)) → tile_of o ≡ none → o ≡ none
  tile_of-none none h = refl
  tile_of-none (some r) h = ground (arith, h)

  remove_tile-IsTiled :
      (l : ℕ) (o : Option ℕ) (s : Store N)
      → IsIndexed s
      → JsMap.get l s.record_tile ≡ o
      → let gone = remove_tile l o (record s { records = JsMap.delete l s.records }) in
        IsTiled gone.records gone
  unfolding remove_tile
  remove_tile-IsTiled l (some key) s i e =
      let d = drop-IsTiled l key s i.tiled e in record { bucket = d.bucket; once = d.once }
  remove_tile-IsTiled l none s i e = record {
    bucket = λ k j.
        ground (arith, i.tiled.bucket k j, JsMap.get-delete l j s.records, nat_beq_iff l j, e);
    once = i.tiled.once;
  }

  pub remove_record-IsIndexed :
      (l : ℕ) (s : Store N) → IsIndexed s → IsIndexed (remove_record_from_index l s)
  unfolding remove_record_from_index
  remove_record-IsIndexed l s i = record {
    keyed = λ j. ground (arith, get-remove_record l j s, i.keyed j);
    placed =
        λ j. ground (arith, get-remove_record l j s, record_tile-remove_record l j s, i.placed j);
    tiled = remove_tile-IsTiled l (JsMap.get l s.record_tile) s i refl;
  }

  push_record-IsIndexed :
      (r : LightListRecord N) (s : Store N)
      → IsIndexed s
      → JsMap.get r.llnr s.record_tile ≡ none
      → IsIndexed (push_record r s)
  unfolding push_record
  push_record-IsIndexed r s i e =
      let key = tile_key r.position in
      record {
        keyed = λ j.
            ground (arith, JsMap.get-set r.llnr j r s.records, i.keyed j, nat_beq_iff r.llnr j);
        placed = λ j. ground (
          arith,
          JsMap.get-set r.llnr j r s.records,
          JsMap.get-set r.llnr j key s.record_tile,
          i.placed j,
        );
        tiled = record {
          bucket = λ k j. ground (
            arith,
            JsMap.get-set key k (bucket_at key s.tiles ++ (r ∷ [])) s.tiles,
            find-append j (bucket_at key s.tiles) (r ∷ []),
            i.tiled.bucket k j,
            i.tiled.bucket key j,
            JsMap.get-set r.llnr j r s.records,
            JsMap.get-set r.llnr j key s.record_tile,
            nat_beq_iff key k,
            nat_beq_iff r.llnr j,
            e,
          );
          once = λ k j. ground (
            arith,
            JsMap.get-set key k (bucket_at key s.tiles ++ (r ∷ [])) s.tiles,
            count-append j (bucket_at key s.tiles) (r ∷ []),
            i.tiled.once k j,
            i.tiled.once key j,
            i.tiled.bucket key j,
            find-count j (bucket_at key s.tiles),
            nat_beq_iff r.llnr j,
            e,
          );
        };
      }

  pub add_record-IsIndexed :
      (r : LightListRecord N) (s : Store N) → IsIndexed s → IsIndexed (add_record_to_index r s)
  unfolding add_record_to_index
  add_record-IsIndexed r s i = elim (Bool-cases (JsMap.has r.llnr s.record_tile)) [
    | inl h ↦ rw h (
        push_record-IsIndexed r (remove_record_from_index r.llnr s)
          (remove_record-IsIndexed r.llnr s i)
          (ground (arith, record_tile-remove_record r.llnr r.llnr s, nat_beq_iff r.llnr r.llnr)))
    | inr h ↦ rw h (push_record-IsIndexed r s i (ground (arith, h)))
  ]

  pub get-add_record :
      (r : LightListRecord N) (j : ℕ) (s : Store N)
      → JsMap.get j (add_record_to_index r s).records
        ≡ (if nat_beq r.llnr j then some r else JsMap.get j s.records)
  unfolding add_record_to_index push_record
  get-add_record r j s = elim (Bool-cases (JsMap.has r.llnr s.record_tile)) [
    | inl h ↦ rw h (
        ground (
          arith,
          JsMap.get-set r.llnr j r (remove_record_from_index r.llnr s).records,
          get-remove_record r.llnr j s,
        ))
    | inr h ↦ rw h (JsMap.get-set r.llnr j r s.records)
  ]
