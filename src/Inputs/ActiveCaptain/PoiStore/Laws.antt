-- ===== src/Inputs/ActiveCaptain/PoiStore/Laws.antt =====
-- What a later run loads of what an earlier one persisted.
use signalk_activecaptain_re.Base.{
  ℕ, ◌≡◌, refl, ap, ◌∙◌, Bool, true, ◌&&◌, not, Option, none, some, [], ◌∷◌, arith, if◌then◌else◌,
}
use signalk_activecaptain_re.Base.Text.{Text, text_eq, text_beq, text_beq_iff}
use signalk_activecaptain_re.Base.JsMap
use signalk_activecaptain_re.Base.JsMap.{JsMap}
use signalk_activecaptain_re.Base.Float.{Floats, lit}
use signalk_activecaptain_re.Types.{Value}
use signalk_activecaptain_re.Inputs.ActiveCaptain.PoiStore.{
  StoredPoi, PoiStore, is_poi_details, is_stored_poi, is_store_file, stored_value, entry_fields,
  file_of, flush, persist, pairs, keep_entry, keep_entries, parsed_entries, load, ms_per_minute,
}

module _ {N : Type 0} ⦃F : Floats N⦄ (index_key : ℕ → Text) where
  abbrev pub usable : N → Option (StoredPoi N) → Option (StoredPoi N)
  usable cutoff none = none
  usable cutoff (some e) =
      if is_poi_details e.details && not (F.lt e.timestamp cutoff) then some e else none

  abbrev or_else : Option (StoredPoi N) → Option (StoredPoi N) → Option (StoredPoi N)
  or_else (some e) o = some e
  or_else none o = o

  abbrev is_usable : N → StoredPoi N → Bool
  is_usable cutoff e = is_poi_details e.details && not (F.lt e.timestamp cutoff)

  keep_entry-stored :
      (cutoff : N) (id : Text) (e : StoredPoi N) (m : JsMap Text (StoredPoi N))
      → keep_entry index_key cutoff id (is_stored_poi (stored_value e)) m
        ≡ (if is_usable cutoff e then JsMap.set id e m else m)
  unfolding is_stored_poi text_beq
  keep_entry-stored cutoff id e m = ground arith

  later :
      (cutoff : N) (id k : Text) (e : StoredPoi N) (xs m : JsMap Text (StoredPoi N))
      → JsMap.distinct_keys ((k, e) ∷ xs) ≡ true
      → or_else
          (usable cutoff (JsMap.get id xs))
          (JsMap.get id (if is_usable cutoff e then JsMap.set k e m else m))
        ≡ or_else (usable cutoff (JsMap.get id ((k, e) ∷ xs))) (JsMap.get id m)
  unfolding JsMap.get
  later cutoff id k e xs m d = ground (arith, d, text_beq_iff k id, JsMap.get-set k id e m)

  get-keep_entries :
      (cutoff : N) (id : Text) (xs m : JsMap Text (StoredPoi N))
      → JsMap.distinct_keys xs ≡ true
      → JsMap.get id (keep_entries index_key cutoff (pairs index_key (entry_fields xs)) m)
        ≡ or_else (usable cutoff (JsMap.get id xs)) (JsMap.get id m)
  unfolding keep_entries JsMap.get
  get-keep_entries cutoff id [] m d = refl
  get-keep_entries cutoff id ((k, e) ∷ xs) m d =
      let m' : JsMap Text (StoredPoi N) = if is_usable cutoff e then JsMap.set k e m else m in
      ap
        (λ (r : JsMap Text (StoredPoi N)).
          JsMap.get id (keep_entries index_key cutoff (pairs index_key (entry_fields xs)) r))
        (keep_entry-stored cutoff k e m)
      ∙ (get-keep_entries cutoff id xs m' (ground (arith, d)) ∙ later cutoff id k e xs m d)

  or_else-none : (o : Option (StoredPoi N)) → or_else o none ≡ o
  or_else-none none = refl
  or_else-none (some e) = refl

  get-parsed_entries :
      (cutoff : N) (id : Text) (xs : JsMap Text (StoredPoi N))
      → JsMap.distinct_keys xs ≡ true
      → JsMap.get id (parsed_entries index_key cutoff (some (file_of xs)))
        ≡ usable cutoff (JsMap.get id xs)
  unfolding is_store_file JsMap.get text_beq
  get-parsed_entries cutoff id xs d =
      rw (F.same_refl (lit 1) (F.finite_literal 1 (omega arith)), is_store_file)
        (get-keep_entries cutoff id xs [] d ∙ or_else-none (usable cutoff (JsMap.get id xs)))

  -- Of a store whose ids are distinct, and whose file, after the entry is persisted, is a value that
  -- `JSON.parse` gets back from the text of `JSON.stringify`: after a flush that the file system
  -- takes, a later load has under an id what the mirror then had, the new entry under its own id,
  -- if its details have the fields that are used and it is not older than the time to live, and
  -- nothing otherwise.
  pub get-load :
      (stringify : Value N → Text) (parse : Text → Option (Value N)) (ttl_minutes now later : N)
      (id : Text) (details : Value N) (s : PoiStore N) (j : Text)
      → JsMap.distinct_keys s.entries ≡ true
      → parse (stringify (file_of (persist now id details s).entries))
        ≡ some (file_of (persist now id details s).entries)
      → JsMap.get j
          (load index_key parse ttl_minutes later
            (flush stringify true (persist now id details s))).entries
        ≡ usable (F.sub later (F.mul ttl_minutes ms_per_minute)) (
            if text_beq id j
            then some (record { timestamp = now; details = details })
            else JsMap.get j s.entries)
  unfolding load flush persist
  get-load stringify parse ttl_minutes now later id details s j d json =
      let new : StoredPoi N = record { timestamp = now; details = details } in
      let cutoff = F.sub later (F.mul ttl_minutes ms_per_minute) in
      ap (λ v. JsMap.get j (parsed_entries index_key cutoff v)) json
      ∙ get-parsed_entries cutoff j (JsMap.set id new s.entries)
          (JsMap.distinct_keys-set id new s.entries d)
      ∙ ap (usable cutoff) (JsMap.get-set id j new s.entries)
