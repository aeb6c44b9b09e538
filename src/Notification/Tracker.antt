-- ===== src/Notification/Tracker.antt =====
-- src/shared/notification-tracker.ts: the alarming points of interest of one output, by sanitized id.
-- The closure's variables and the app that it writes to are one record.
pub mod Laws
use signalk_activecaptain_re.Base.{
  ◌≡◌, Bool, true, false, Option, none, some, List, [], ◌∷◌, ◌++◌, is_some,
}
use signalk_activecaptain_re.Base.Text.{Text, text_eq}
use signalk_activecaptain_re.Base.JsMap
use signalk_activecaptain_re.Base.JsMap.{JsMap}
use signalk_activecaptain_re.Notification.Emitter.{
  App, NotificationValue, State, now_iso, sanitize_poi_id, emit_notification, alarming_on,
}

pub record TrackerConfig (T : Type 0) : Type 0 where
  pub path_prefix : Text
  pub source_suffix : Option Text
  -- the text is the reading of the clock
  pub build_clear_value : T → Text → NotificationValue

pub record Tracker (T : Type 0) : Type 0 where
  pub app : App
  pub active : JsMap Text T

module _ {T : Type 0} where
  unfoldable pub get : Text → Tracker T → Option T
  get id t = JsMap.get (sanitize_poi_id id) t.active

  abbrev pub has : Text → Tracker T → Bool
  has id t = is_some (get id t)

  unfoldable pub set : Text → T → Tracker T → Tracker T
  set id entry t = record t { active = JsMap.set (sanitize_poi_id id) entry t.active }

  -- The clear of an entry that was found.
  abbrev pub clear_entry : TrackerConfig T → Text → T → Tracker T → Tracker T
  clear_entry cfg safe_id entry t = record {
    app =
        emit_notification t.app cfg.path_prefix safe_id
          (cfg.build_clear_value entry (now_iso t.app)) cfg.source_suffix;
    active = JsMap.delete safe_id t.active;
  }

  unfoldable pub clear : TrackerConfig T → Text → Tracker T → Tracker T
  clear cfg id t = elim (JsMap.get (sanitize_poi_id id) t.active) [
    | none ↦ t
    | some entry ↦ clear_entry cfg (sanitize_poi_id id) entry t
  ]

  -- The loop of `clearAll` over the snapshot of the keys.
  unfoldable pub clear_each : TrackerConfig T → List Text → Tracker T → Tracker T
  clear_each cfg [] t = t
  clear_each cfg (k ∷ ks) t = clear_each cfg ks (clear cfg k t)

  unfoldable pub clear_all : TrackerConfig T → Tracker T → Tracker T
  unfolding clear_each
  clear_all cfg t = clear_each cfg (JsMap.keys t.active) t

-- The invariant of a tracker: its keys are sanitized ids, and a consumer of the notifications sees
-- an alarm on the path of an id exactly when the id is tracked.
pub record IsSynced {T : Type 0} (cfg : TrackerConfig T) (t : Tracker T) : Type 0 where
  pub keyed : (k : Text) → JsMap.has k t.active ≡ true → sanitize_poi_id k ≡ k
  pub wire : (k : Text) → alarming_on (cfg.path_prefix ++ k) t.app.deltas ≡ JsMap.has k t.active

-- What the tracker is told of the notification that clears an entry: it is a `normal` one.
abbrev pub ClearsNormal : {T : Type 0} → TrackerConfig T → Type 0
ClearsNormal {T} cfg =
    (entry : T) (now : Text) → (cfg.build_clear_value entry now).state ≡ State.normal
