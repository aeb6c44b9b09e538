-- ===== src/Outputs/RouteHazard/Alarms/Laws.antt =====
-- Which points on the route are announced after a pass, and what a consumer sees.
use signalk_activecaptain_re.Base.{
  ◌≡◌, refl, ◌∙◌, true, ◌||◌, Option, none, some, List, [], ◌∷◌, if◌then◌else◌, any, all, arith,
  Bool-cases, Option-cases, inl, inr,
}
use signalk_activecaptain_re.Base.Text.{Text, text_eq, text_beq_iff}
use signalk_activecaptain_re.Base.Equality.{◌==◌}
use signalk_activecaptain_re.Base.JsMap
use signalk_activecaptain_re.Base.JsMap.{JsMap}
use signalk_activecaptain_re.Base.Float.{Floats}
use signalk_activecaptain_re.Notification.Emitter.{now_iso, sanitize_poi_id, emit_notification}
use signalk_activecaptain_re.Notification.Emitter.Laws.{sanitize-sanitize}
use signalk_activecaptain_re.Notification.Tracker
use signalk_activecaptain_re.Notification.Tracker.{Tracker, IsSynced, ClearsNormal}
use signalk_activecaptain_re.Notification.Tracker.Laws.{has_lem, has-set, raise-IsSynced}
use signalk_activecaptain_re.Alarms.Laws.{clear_absent-IsSynced, has-clear_absent-keys}
use signalk_activecaptain_re.Outputs.RouteHazard.Corridor.{CorridorPoi}
use signalk_activecaptain_re.Outputs.RouteHazard.Corridor.Laws.{entry_keyed}
use signalk_activecaptain_re.Outputs.RouteHazard.Alarms.{
  RouteEntry, BridgeClearanceVerdict, config, warn_value, warn, announce, message_of,
  refresh_entries, flag_all, evaluate,
}

pub config-ClearsNormal : ClearsNormal config
unfolding config
config-ClearsNormal entry now = refl

has-warn :
    (id name message : Text) (t : Tracker RouteEntry) (k : Text)
    → JsMap.has k (warn id name message t).active
      ≡ (if sanitize_poi_id id == k then true else JsMap.has k t.active)
unfolding warn
has-warn id name message t k =
    has-set id k (record { name = name; message = message })
      (record t {
        app =
            emit_notification t.app config.path_prefix id (warn_value message (now_iso t.app))
              config.source_suffix;
      })

warn-IsSynced :
    (id name message : Text) (t : Tracker RouteEntry)
    → IsSynced config t
    → IsSynced config (warn id name message t)
unfolding warn
warn-IsSynced id name message t s =
    raise-IsSynced config id (record { name = name; message = message })
      (warn_value message (now_iso t.app)) t (unfold warn_value in refl) s

has-announce :
    (id name message : Text) (t : Tracker RouteEntry) (k : Text)
    → JsMap.has k (announce id name message (Tracker.get id t) t).active
      ≡ (if sanitize_poi_id id == k then true else JsMap.has k t.active)
unfolding announce
has-announce id name message t k = elim (Option-cases (Tracker.get id t)) [
  | inl e ↦ rw e (has-warn id name message t k)
  | inr (x, e) ↦ rw e (
      ground
        (arith, e, has_lem id t, has-warn id name message t k, text_beq_iff (sanitize_poi_id id) k))
]

announce-IsSynced :
    (id name message : Text) (o : Option RouteEntry) (t : Tracker RouteEntry)
    → IsSynced config t
    → IsSynced config (announce id name message o t)
unfolding announce
announce-IsSynced id name message none t s = warn-IsSynced id name message t s
announce-IsSynced id name message (some x) t s = elim (Bool-cases (x.message == message)) [
  | inl e ↦ rw e s
  | inr e ↦ rw e (warn-IsSynced id name message t s)
]

module _ {N : Type 0} ⦃F : Floats N⦄ (too_low : JsMap Text (BridgeClearanceVerdict N)) where
  has-refresh_entries :
      (m : JsMap Text (CorridorPoi N)) (t : Tracker RouteEntry) (k : Text)
      → JsMap.has k (refresh_entries too_low m t).active
        ≡ (JsMap.has k t.active || any (λ p. sanitize_poi_id p.1.id == k) m)
  unfolding refresh_entries
  has-refresh_entries [] t k = ground arith
  has-refresh_entries ((id, poi) ∷ m) t k =
      let message = message_of too_low poi in
      ground (
        arith,
        has-refresh_entries m (announce poi.id poi.name message (Tracker.get poi.id t) t) k,
        has-announce poi.id poi.name message t k,
      )

  pub refresh_entries-IsSynced :
      (m : JsMap Text (CorridorPoi N)) (t : Tracker RouteEntry)
      → IsSynced config t
      → IsSynced config (refresh_entries too_low m t)
  unfolding refresh_entries
  refresh_entries-IsSynced [] t s = s
  refresh_entries-IsSynced ((id, poi) ∷ m) t s =
      let message = message_of too_low poi in
      refresh_entries-IsSynced m (announce poi.id poi.name message (Tracker.get poi.id t) t)
        (announce-IsSynced poi.id poi.name message (Tracker.get poi.id t) t s)

  has-flag_all :
      (pois : List (CorridorPoi N)) (m : JsMap Text (CorridorPoi N)) (k : Text)
      → JsMap.has k (flag_all too_low pois m) ≡ (JsMap.has k m || any (λ p. p.id == k) pois)
  unfolding flag_all
  has-flag_all [] m k = ground arith
  has-flag_all (p ∷ ps) m k =
      ground (
        arith,
        has-flag_all ps (JsMap.set p.id p m) k,
        JsMap.get-set p.id k p m,
        text_beq_iff p.id k,
      )

  pub flag_all_keyed :
      (pois : List (CorridorPoi N)) (m : JsMap Text (CorridorPoi N))
      → all entry_keyed m ≡ true
      → all entry_keyed (flag_all too_low pois m) ≡ true
  unfolding flag_all
  flag_all_keyed [] m h = h
  flag_all_keyed (p ∷ ps) m h =
      flag_all_keyed ps (JsMap.set p.id p m)
        (JsMap.all-set entry_keyed p.id p m (ground (arith, text_beq_iff p.id p.id)) h)

  any_announced :
      (m : JsMap Text (CorridorPoi N)) (k : Text)
      → sanitize_poi_id k ≡ k
      → all entry_keyed m ≡ true
      → JsMap.has k m ≡ true
      → any (λ p. sanitize_poi_id p.1.id == k) m ≡ true
  unfolding JsMap.get
  any_announced [] k e h g = g
  any_announced ((id, poi) ∷ m) k e h g = ground (
    arith,
    text_beq_iff id k,
    text_beq_iff poi.id id,
    text_beq_iff (sanitize_poi_id poi.id) k,
    any_announced m k e,
  )

  -- A pass keeps a tracker in step with what a consumer of the notifications sees.
  pub evaluate-IsSynced :
      (pois : List (CorridorPoi N)) (t : Tracker RouteEntry)
      → IsSynced config t
      → IsSynced config (evaluate too_low pois t)
  unfolding evaluate
  evaluate-IsSynced pois t s =
      let flagged = flag_all too_low pois [] in
      let refreshed = refresh_entries too_low flagged t in
      clear_absent-IsSynced config flagged (JsMap.keys refreshed.active) refreshed
        config-ClearsNormal (refresh_entries-IsSynced flagged t s)

  -- From a tracker in step: after a pass an id is tracked exactly when a point of the pass is listed
  -- under its sanitized form.
  pub has-evaluate :
      (pois : List (CorridorPoi N)) (t : Tracker RouteEntry) (id : Text)
      → IsSynced config t
      → Tracker.has id (evaluate too_low pois t) ≡ any (λ p. p.id == sanitize_poi_id id) pois
  unfolding evaluate JsMap.get
  has-evaluate pois t id s =
      let k = sanitize_poi_id id in
      let flagged = flag_all too_low pois [] in
      let refreshed = refresh_entries too_low flagged t in
      has_lem id (evaluate too_low pois t)
      ∙ has-clear_absent-keys config flagged k refreshed (refresh_entries-IsSynced flagged t s)
          (sanitize-sanitize id)
          (λ h. ground (
            arith,
            has-refresh_entries flagged t k,
            any_announced flagged k (sanitize-sanitize id) (flag_all_keyed pois [] refl) h,
          ))
      ∙ has-flag_all pois [] k
