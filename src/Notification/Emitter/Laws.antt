-- ===== src/Notification/Emitter/Laws.antt =====
-- What the path of a notification guarantees.
use signalk_activecaptain_re.Base.{
  ℕ, ◌≡◌, refl, true, ◌≢◌, Option, [], ◌∷◌, ◌++◌, map, if◌then◌else◌, arith, all,
}
use signalk_activecaptain_re.Base.Text.{Text, text_eq, text_beq-append}
use signalk_activecaptain_re.Base.Equality.{◌==◌}
use signalk_activecaptain_re.Notification.Emitter.{
  App, NotificationValue, is_path_safe, safe_unit, sanitize_poi_id, emit_notification, alarming_on,
  is_raised,
}

safe_unit-is_path_safe : (c : ℕ) → is_path_safe (safe_unit c) ≡ true
unfolding safe_unit is_path_safe
safe_unit-is_path_safe c = ground arith

map_safe : (s : Text) → all is_path_safe (map safe_unit s) ≡ true
map_safe [] = refl
map_safe (c ∷ s) = ground (arith, safe_unit-is_path_safe c, map_safe s)

safe_unit-fixed : (c : ℕ) → is_path_safe c ≡ true → safe_unit c ≡ c
unfolding safe_unit
safe_unit-fixed c h = ground arith

map_fixed : (s : Text) → all is_path_safe s ≡ true → map safe_unit s ≡ s
map_fixed [] h = refl
map_fixed (c ∷ s) h = ground (arith, safe_unit-fixed c, map_fixed s)

-- A sanitized id is a non-empty text of path-safe units, whatever the id.
pub sanitize_is_segment :
    (id : Text) → (all is_path_safe (sanitize_poi_id id) ≡ true) × (sanitize_poi_id id ≢ [])
unfolding sanitize_poi_id is_path_safe
sanitize_is_segment [] = (refl, λ e. ground arith)
sanitize_is_segment (c ∷ s) = (map_safe (c ∷ s), λ e. ground arith)

-- A non-empty path-safe id is left as it is.
pub sanitize-fixed : (id : Text) → all is_path_safe id ≡ true → id ≢ [] → sanitize_poi_id id ≡ id
unfolding sanitize_poi_id
sanitize-fixed [] h n = absurd (n refl)
sanitize-fixed (c ∷ s) h n = map_fixed (c ∷ s) h

pub sanitize-sanitize : (id : Text) → sanitize_poi_id (sanitize_poi_id id) ≡ sanitize_poi_id id
sanitize-sanitize id =
    sanitize-fixed (sanitize_poi_id id) (sanitize_is_segment id).0 (sanitize_is_segment id).1

-- A delta on the path of one id changes what a consumer sees on that path, and on no other.
pub alarming_on-emit :
    (app : App) (prefix id j : Text) (value : NotificationValue) (suffix : Option Text)
    → alarming_on (prefix ++ j) (emit_notification app prefix id value suffix).deltas ≡ (
        if sanitize_poi_id id == j
        then is_raised value.state
        else alarming_on (prefix ++ j) app.deltas)
unfolding emit_notification alarming_on
alarming_on-emit app prefix id j value suffix = rw (text_beq-append prefix (sanitize_poi_id id) j)
