-- ===== src/Inputs/ActiveCaptain/PoiStore.antt =====
-- src/inputs/active-captain/poi-store.ts, and the hydration of poi-cache.ts from it. `none` is a file
-- that is absent or cannot be read. `JSON.stringify` and `JSON.parse` of the language are parameters:
-- `stringify` and `parse`, which gives nothing for a text that is not JSON. The timer's delay is not
-- modelled: a write is pending or not, and `flush` is its callback.
pub mod Laws
use signalk_activecaptain_re.Base.{
  ℕ, suc, Bool, true, false, ◌&&◌, ◌||◌, not, Option, none, some, List, [], ◌∷◌, if◌then◌else◌,
}
use signalk_activecaptain_re.Base.Text.{Text, txt, text_eq}
use signalk_activecaptain_re.Base.JsMap
use signalk_activecaptain_re.Base.JsMap.{JsMap}
use signalk_activecaptain_re.Base.Float.{Floats, lit}
use signalk_activecaptain_re.Types.{
  Value, Items, nil, cons, undefined, num, str, arr, obj, Fields, field, end, property_of,
}

-- The details are a value of unknown shape, which `is_poi_details` has narrowed.
pub record StoredPoi (N : Type 0) : Type 0 where
  pub timestamp : N
  pub details : Value N

-- The closure's variables, and the store's file.
pub record PoiStore (N : Type 0) : Type 0 where
  pub entries : JsMap Text (StoredPoi N)
  pub write_pending : Bool
  pub file : Option Text

-- `typeof value === 'object' && value !== null`
abbrev pub is_object : {N : Type 0} → Value N → Bool
is_object (obj fields) = true
is_object (arr items) = true
is_object _ = false

abbrev is_text : {N : Type 0} → Value N → Bool
is_text (str t) = true
is_text _ = false

-- A check of a value that is not an object fails at once, since it has no properties.
unfoldable pub is_poi_details : {N : Type 0} → Value N → Bool
is_poi_details value =
    let poi = property_of (txt "pointOfInterest") value in
    is_object poi
    && (is_text (property_of (txt "poiType") poi)
        && (is_text (property_of (txt "name") poi)
            && is_object (property_of (txt "mapLocation") poi)))

module _ {N : Type 0} ⦃F : Floats N⦄ where
  abbrev ms_per_minute : N
  ms_per_minute = lit 60000

  -- The entry of a value that passes `isStoredPoi`.
  abbrev stored_with : Value N → Value N → Option (StoredPoi N)
  stored_with (num t) details =
      if is_poi_details details then some (record { timestamp = t; details = details }) else none
  stored_with _ details = none

  unfoldable pub is_stored_poi : Value N → Option (StoredPoi N)
  unfolding is_poi_details
  is_stored_poi value =
      stored_with (property_of (txt "timestamp") value) (property_of (txt "details") value)

  abbrev is_version : Value N → Bool
  is_version (num x) = F.same x (lit 1)
  is_version _ = false

  -- The entries of a value that passes `isStoreFile`.
  unfoldable pub is_store_file : Value N → Option (Value N)
  is_store_file value =
      if is_version (property_of (txt "version") value)
        && is_object (property_of (txt "entries") value)
      then some (property_of (txt "entries") value)
      else none

  -- What `writeFile` writes.
  abbrev pub stored_value : StoredPoi N → Value N
  stored_value e =
      obj (field (txt "timestamp") (num e.timestamp) (field (txt "details") e.details end))

  abbrev pub entry_fields : JsMap Text (StoredPoi N) → Fields N
  entry_fields [] = end
  entry_fields ((id, e) ∷ rest) = field id (stored_value e) (entry_fields rest)

  abbrev pub file_of : JsMap Text (StoredPoi N) → Value N
  file_of entries =
      obj (
        field (txt "version") (num (lit 1))
          (field (txt "entries") (obj (entry_fields entries)) end))

  -- `written` says whether the file system took the write; a failed one leaves the old file.
  unfoldable pub flush : (Value N → Text) → Bool → PoiStore N → PoiStore N
  flush stringify written s = if not s.write_pending then s else record s {
    write_pending = false;
    file = if written then some (stringify (file_of s.entries)) else s.file;
  }

  unfoldable pub persist : N → Text → Value N → PoiStore N → PoiStore N
  persist now id details s = record s {
    entries = JsMap.set id (record { timestamp = now; details = details }) s.entries;
    write_pending = true;
  }

  -- `removed` says whether the file could be removed.
  unfoldable pub clear : Bool → PoiStore N → PoiStore N
  clear removed s = record {
    entries = [];
    write_pending = false;
    file = if removed then none else s.file;
  }

  module _ (index_key : ℕ → Text) where
    -- `Object.entries`; an array has its indices as keys.
    abbrev indexed : ℕ → Items N → JsMap Text (Value N)
    indexed i nil = []
    indexed i (cons v vs) = (index_key i, v) ∷ indexed (suc i) vs

    abbrev pub pairs : Fields N → JsMap Text (Value N)
    pairs end = []
    pairs (field k v fs) = (k, v) ∷ pairs fs

    abbrev pub object_entries : Value N → JsMap Text (Value N)
    object_entries (obj fields) = pairs fields
    object_entries (arr items) = indexed 0 items
    object_entries _ = []

    -- The loop's `entries` and `result`, which hold the same.
    abbrev keep_entry :
        N → Text → Option (StoredPoi N) → JsMap Text (StoredPoi N) → JsMap Text (StoredPoi N)
    keep_entry cutoff id none m = m
    keep_entry cutoff id (some e) m = if F.lt e.timestamp cutoff then m else JsMap.set id e m

    unfoldable pub keep_entries :
        N → JsMap Text (Value N) → JsMap Text (StoredPoi N) → JsMap Text (StoredPoi N)
    unfolding is_stored_poi
    keep_entries cutoff [] m = m
    keep_entries cutoff ((id, v) ∷ rest) m =
        keep_entries cutoff rest (keep_entry cutoff id (is_stored_poi v) m)

    abbrev parsed_entries : N → Option (Value N) → JsMap Text (StoredPoi N)
    parsed_entries cutoff none = []
    parsed_entries cutoff (some value) = elim (is_store_file value) [
      | none ↦ []
      | some entries ↦ keep_entries cutoff (object_entries entries) []
    ]

    abbrev loaded_from : (Text → Option (Value N)) → N → Option Text → JsMap Text (StoredPoi N)
    loaded_from parse cutoff none = []
    loaded_from parse cutoff (some raw) = parsed_entries cutoff (parse raw)

    -- The map that `load` returns is the mirror that it leaves.
    unfoldable pub load : (Text → Option (Value N)) → N → N → PoiStore N → PoiStore N
    unfolding keep_entries is_store_file
    load parse ttl_minutes now s = record s {
      entries = loaded_from parse (F.sub now (F.mul ttl_minutes ms_per_minute)) s.file;
    }

  -- The entries that a new cache takes from the store, with the rest of their time.
  unfoldable pub hydrate : N → N → JsMap Text (StoredPoi N) → List (Text × Value N × N)
  hydrate ttl_ms now [] = []
  hydrate ttl_ms now ((id, e) ∷ rest) =
      let remaining = F.min ttl_ms (F.sub ttl_ms (F.sub now e.timestamp)) in
      let others = hydrate ttl_ms now rest in
      if F.lt (lit 0) remaining then (id, e.details, remaining) ∷ others else others
