-- ===== src/Outputs/RouteHazard/Alarms/Messages.antt =====
-- The message that a consumer sees for a point on the route is the one of the last pass.
use signalk_activecaptain_re.Base.{
  ◌≡◌, refl, ◌∙◌, Bool, true, false, Option, none, some, List, [], ◌∷◌, ◌++◌, if◌then◌else◌, any,
  all, arith, Bool-cases, Option-cases, inl, inr,
}
use signalk_activecaptain_re.Base.Text.{Text, text_eq, text_beq_iff, text_beq-append}
use signalk_activecaptain_re.Base.Equality.{◌==◌}
use signalk_activecaptain_re.Base.JsMap
use signalk_activecaptain_re.Base.JsMap.{JsMap}
use signalk_activecaptain_re.Base.Float.{Floats}
use signalk_activecaptain_re.Notification.Emitter.{Delta, sanitize_poi_id, emit_notification}
use signalk_activecaptain_re.Notification.Emitter.Laws.{sanitize-sanitize}
use signalk_activecaptain_re.Notification.Tracker
use signalk_activecaptain_re.Notification.Tracker.{Tracker, IsSynced}
use signalk_activecaptain_re.Alarms.{clear_absent}
use signalk_activecaptain_re.Outputs.RouteHazard.Corridor.{CorridorPoi}
use signalk_activecaptain_re.Outputs.RouteHazard.Corridor.Laws.{entry_keyed}
use signalk_activecaptain_re.Outputs.RouteHazard.Alarms.{
  RouteEntry, BridgeClearanceVerdict, config, warn, announce, message_of, refresh_entries, flag_all,
  evaluate,
}
use signalk_activecaptain_re.Outputs.RouteHazard.Alarms.Laws.{
  flag_all_keyed, refresh_entries-IsSynced,
}

-- The message of the last notification on a path.
abbrev pub message_on : Text → List Delta → Option Text
message_on path [] = none
message_on path (d ∷ ds) = if d.path == path then some d.value.message else message_on path ds

-- What is tracked of a point is the message that a consumer sees on its path.
abbrev pub IsShown : Tracker RouteEntry → Type 0
IsShown t =
    (k : Text) (entry : RouteEntry)
    → JsMap.get k t.active ≡ some entry
    → message_on (config.path_prefix ++ k) t.app.deltas ≡ some entry.message

message_on-warn :
    (id name message : Text) (t : Tracker RouteEntry) (k : Text)
    → message_on (config.path_prefix ++ k) (warn id name message t).app.deltas ≡ (
        if sanitize_poi_id id == k
        then some message
        else message_on (config.path_prefix ++ k) t.app.deltas)
unfolding warn emit_notification Tracker.set
message_on-warn id name message t k =
    ground (arith, text_beq-append config.path_prefix (sanitize_poi_id id) k)

warn-IsShown :
    (id name message : Text) (t : Tracker RouteEntry) → IsShown t → IsShown (warn id name message t)
unfolding warn Tracker.set
warn-IsShown id name message t s k entry h = ground (
  arith,
  h,
  s k entry,
  message_on-warn id name message t k,
  JsMap.get-set (sanitize_poi_id id) k (record { name = name; message = message }) t.active,
)

announce-IsShown :
    (id name message : Text) (o : Option RouteEntry) (t : Tracker RouteEntry)
    → IsShown t
    → IsShown (announce id name message o t)
unfolding announce
announce-IsShown id name message none t s = warn-IsShown id name message t s
announce-IsShown id name message (some x) t s = elim (Bool-cases (x.message == message)) [
  | inl e ↦ rw e s
  | inr e ↦ rw e (warn-IsShown id name message t s)
]

message_on-announce :
    (id name message : Text) (o : Option RouteEntry) (t : Tracker RouteEntry) (k : Text)
    → IsShown t
    → JsMap.get (sanitize_poi_id id) t.active ≡ o
    → message_on (config.path_prefix ++ k) (announce id name message o t).app.deltas ≡ (
        if sanitize_poi_id id == k
        then some message
        else message_on (config.path_prefix ++ k) t.app.deltas)
unfolding announce
message_on-announce id name message none t k s g = message_on-warn id name message t k
message_on-announce id name message (some x) t k s g = elim (Bool-cases (x.message == message)) [
  | inl e ↦ rw e (
      ground
        (arith, e, s k x, g, text_beq_iff x.message message, text_beq_iff (sanitize_poi_id id) k))
  | inr e ↦ rw e (message_on-warn id name message t k)
]

message_on-clear :
    (j k : Text) (t : Tracker RouteEntry)
    → (sanitize_poi_id j == k) ≡ false
    → message_on (config.path_prefix ++ k) (Tracker.clear config j t).app.deltas
      ≡ message_on (config.path_prefix ++ k) t.app.deltas
unfolding Tracker.clear emit_notification
message_on-clear j k t h = elim (Option-cases (JsMap.get (sanitize_poi_id j) t.active)) [
  | inl e ↦ rw (e, message_on) refl
  | inr (x, e) ↦
      rw (e, message_on)
        (ground (
          arith,
          h,
          text_beq-append config.path_prefix (sanitize_poi_id (sanitize_poi_id j)) k,
          sanitize-sanitize j,
          text_beq_iff (sanitize_poi_id j) k,
          text_beq_iff (sanitize_poi_id (sanitize_poi_id j)) k,
        ))
]

get-clear :
    (j k : Text) (t : Tracker RouteEntry)
    → JsMap.get k (Tracker.clear config j t).active
      ≡ (if sanitize_poi_id j == k then none else JsMap.get k t.active)
unfolding Tracker.clear
get-clear j k t = elim (Option-cases (JsMap.get (sanitize_poi_id j) t.active)) [
  | inl e ↦ rw (e, Tracker.clear) (ground (arith, e, text_beq_iff (sanitize_poi_id j) k))
  | inr (x, e) ↦ rw (e, Tracker.clear) (JsMap.get-delete (sanitize_poi_id j) k t.active)
]

clear-IsShown : (j : Text) (t : Tracker RouteEntry) → IsShown t → IsShown (Tracker.clear config j t)
clear-IsShown j t s k entry h = elim (Bool-cases (sanitize_poi_id j == k)) [
  | inl e ↦ absurd (ground (arith, h, get-clear j k t, e))
  | inr e ↦ message_on-clear j k t e ∙ s k entry (ground (arith, h, get-clear j k t, e))
]

either-IsShown :
    (b : Bool) (t u : Tracker RouteEntry) → IsShown t → IsShown u → IsShown (if b then t else u)
either-IsShown true t u s r = s
either-IsShown false t u s r = r

module _ {N : Type 0} ⦃F : Floats N⦄ where
  clear_absent-IsShown :
      (m : JsMap Text (CorridorPoi N)) (ks : List Text) (t : Tracker RouteEntry)
      → IsShown t
      → IsShown (clear_absent config m ks t)
  unfolding clear_absent
  clear_absent-IsShown m [] t s = s
  clear_absent-IsShown m (j ∷ ks) t s =
      clear_absent-IsShown m ks (if JsMap.has j m then t else Tracker.clear config j t)
        (either-IsShown (JsMap.has j m) t (Tracker.clear config j t) s (clear-IsShown j t s))

  -- The clear loop leaves the path of a point that is flagged alone.
  message_on-clear_absent :
      (m : JsMap Text (CorridorPoi N)) (ks : List Text) (k : Text) (t : Tracker RouteEntry)
      → ((j : Text) → any (λ i. i == j) ks ≡ true → sanitize_poi_id j ≡ j)
      → JsMap.has k m ≡ true
      → message_on (config.path_prefix ++ k) (clear_absent config m ks t).app.deltas
        ≡ message_on (config.path_prefix ++ k) t.app.deltas
  unfolding clear_absent
  message_on-clear_absent m [] k t safe h = refl
  message_on-clear_absent m (j ∷ ks) k t safe h = elim (Bool-cases (JsMap.has j m)) [
    | inl e ↦
        rw (e, message_on) (message_on-clear_absent m ks k t (λ i p. safe i (ground (arith, p))) h)
    | inr e ↦
        let other : (sanitize_poi_id j == k) ≡ false = ground (
          arith,
          e,
          h,
          safe j (ground (arith, text_beq_iff j j)),
          text_beq_iff (sanitize_poi_id j) k,
        ) in
        rw (e, message_on)
          (message_on-clear_absent m ks k (Tracker.clear config j t)
              (λ i p. safe i (ground (arith, p))) h
            ∙ message_on-clear j k t other)
  ]

  -- The last point that is listed under an id.
  abbrev newer : Option (CorridorPoi N) → Option (CorridorPoi N) → Option (CorridorPoi N)
  newer none o = o
  newer (some p) o = some p

  abbrev pub last_with : Text → List (CorridorPoi N) → Option (CorridorPoi N)
  last_with k [] = none
  last_with k (p ∷ ps) = newer (last_with k ps) (if p.id == k then some p else none)

  abbrev pub AllSafe : List (CorridorPoi N) → Type 0
  AllSafe pois = all (λ p. sanitize_poi_id p.id == p.id) pois ≡ true

  module _ (too_low : JsMap Text (BridgeClearanceVerdict N)) where
    get-flag_all :
        (pois : List (CorridorPoi N)) (m : JsMap Text (CorridorPoi N)) (k : Text)
        → JsMap.get k (flag_all too_low pois m) ≡ newer (last_with k pois) (JsMap.get k m)
    unfolding flag_all
    get-flag_all [] m k = refl
    get-flag_all (p ∷ ps) m k =
        ground (arith, get-flag_all ps (JsMap.set p.id p m) k, JsMap.get-set p.id k p m)

    flag_all_distinct :
        (pois : List (CorridorPoi N)) (m : JsMap Text (CorridorPoi N))
        → JsMap.distinct_keys m ≡ true
        → JsMap.distinct_keys (flag_all too_low pois m) ≡ true
    unfolding flag_all
    flag_all_distinct [] m h = h
    flag_all_distinct (p ∷ ps) m h =
        flag_all_distinct ps (JsMap.set p.id p m) (JsMap.distinct_keys-set p.id p m h)

    abbrev entry_safe : Text × CorridorPoi N → Bool
    entry_safe e = sanitize_poi_id e.1.id == e.1.id

    flag_all_safe :
        (pois : List (CorridorPoi N)) (m : JsMap Text (CorridorPoi N))
        → AllSafe pois
        → all entry_safe m ≡ true
        → all entry_safe (flag_all too_low pois m) ≡ true
    unfolding flag_all
    flag_all_safe [] m a h = h
    flag_all_safe (p ∷ ps) m a h =
        flag_all_safe ps (JsMap.set p.id p m) (ground (arith, a))
          (JsMap.all-set entry_safe p.id p m (ground (arith, a)) h)

    refresh_entries-IsShown :
        (m : JsMap Text (CorridorPoi N)) (t : Tracker RouteEntry)
        → IsShown t
        → IsShown (refresh_entries too_low m t)
    unfolding refresh_entries
    refresh_entries-IsShown [] t s = s
    refresh_entries-IsShown ((id, poi) ∷ m) t s =
        let message = message_of too_low poi in
        refresh_entries-IsShown m (announce poi.id poi.name message (Tracker.get poi.id t) t)
          (announce-IsShown poi.id poi.name message (Tracker.get poi.id t) t s)

    -- Entries that are safe and keyed by their ids write to no other key's path.
    message_on-untouched :
        (m : JsMap Text (CorridorPoi N)) (t : Tracker RouteEntry) (k : Text)
        → IsShown t
        → all entry_keyed m ≡ true
        → all entry_safe m ≡ true
        → JsMap.has k m ≡ false
        → message_on (config.path_prefix ++ k) (refresh_entries too_low m t).app.deltas
          ≡ message_on (config.path_prefix ++ k) t.app.deltas
    unfolding refresh_entries Tracker.get JsMap.get
    message_on-untouched [] t k s e a h = refl
    message_on-untouched ((id, poi) ∷ m) t k s e a h =
        let message = message_of too_low poi in
        let o = Tracker.get poi.id t in
        ground (
          arith,
          e,
          a,
          h,
          message_on-untouched m (announce poi.id poi.name message o t) k
              (announce-IsShown poi.id poi.name message o t s),
          message_on-announce poi.id poi.name message o t k s refl,
          text_beq_iff poi.id id,
          text_beq_iff id k,
          text_beq_iff (sanitize_poi_id poi.id) poi.id,
          text_beq_iff (sanitize_poi_id poi.id) k,
        )

    refresh_entries_shows :
        (m : JsMap Text (CorridorPoi N)) (t : Tracker RouteEntry) (k : Text) (p : CorridorPoi N)
        → IsShown t
        → JsMap.distinct_keys m ≡ true
        → all entry_keyed m ≡ true
        → all entry_safe m ≡ true
        → JsMap.get k m ≡ some p
        → message_on (config.path_prefix ++ k) (refresh_entries too_low m t).app.deltas
          ≡ some (message_of too_low p)
    unfolding refresh_entries Tracker.get JsMap.get
    refresh_entries_shows [] t k p s d e a h = ground (arith, h)
    refresh_entries_shows ((id, poi) ∷ m) t k p s d e a h =
        let message = message_of too_low poi in
        let o = Tracker.get poi.id t in
        let after = announce poi.id poi.name message o t in
        let shown = announce-IsShown poi.id poi.name message o t s in
        elim (Bool-cases (id == k)) [
          | inl hit ↦ ground (
            arith,
            d,
            e,
            a,
            hit,
            h,
            message_on-untouched m after k shown,
            message_on-announce poi.id poi.name message o t k s refl,
            text_beq_iff poi.id id,
            text_beq_iff id k,
            text_beq_iff (sanitize_poi_id poi.id) poi.id,
            text_beq_iff (sanitize_poi_id poi.id) k,
          )
          | inr miss ↦
              refresh_entries_shows m after k p shown (ground (arith, d)) (ground (arith, e))
                (ground (arith, a)) (rw miss at h)
        ]

    -- From a tracker in step, whose entries are what a consumer sees, where every listed id is
    -- path-safe: after a pass the entries are still what a consumer sees, and the last notification
    -- on the path of a listed point carries the message that the pass builds for the last point
    -- listed under the id, with the verdict of the pass on it.
    pub evaluate_shows :
        (pois : List (CorridorPoi N)) (t : Tracker RouteEntry) (k : Text) (p : CorridorPoi N)
        → IsSynced config t
        → IsShown t
        → AllSafe pois
        → last_with k pois ≡ some p
        → IsShown (evaluate too_low pois t)
          × (message_on (config.path_prefix ++ k) (evaluate too_low pois t).app.deltas
              ≡ some (message_of too_low p))
    unfolding evaluate JsMap.get
    evaluate_shows pois t k p y s a h =
        let flagged = flag_all too_low pois [] in
        let refreshed = refresh_entries too_low flagged t in
        let found : JsMap.get k flagged ≡ some p = ground (arith, get-flag_all pois [] k, h) in
        (
          clear_absent-IsShown flagged (JsMap.keys refreshed.active) refreshed
              (refresh_entries-IsShown flagged t s),
          message_on-clear_absent flagged (JsMap.keys refreshed.active) k refreshed
                (λ j i.
                  (refresh_entries-IsSynced too_low flagged t y).keyed j
                    (JsMap.has-keys j refreshed.active ∙ i))
                (ground (arith, found))
              ∙ refresh_entries_shows flagged t k p s (flag_all_distinct pois [] refl)
                  (flag_all_keyed too_low pois [] refl) (flag_all_safe pois [] a refl) found,
        )
