-- ===== src/Notification/Emitter.antt =====
-- src/shared/notification-path.ts, and the part of the SignalK app that it writes to.
pub mod Laws
use signalk_activecaptain_re.Base.{
  ℕ, ◌≡◌, refl, Bool, true, false, ◌&&◌, ◌||◌, not, Option, none, some, List, [], ◌∷◌, ◌++◌, map,
  leb, nat_beq, if◌then◌else◌, length,
}
use signalk_activecaptain_re.Base.Text.{Text, txt, text_eq}
use signalk_activecaptain_re.Base.Equality.{◌==◌}

pub data State : Type 0 where
  alarm warn normal : State

pub data Method : Type 0 where
  visual sound : Method

pub record NotificationValue : Type 0 where
  pub state : State
  pub method : List Method
  pub message : Text
  pub created_at : Text

-- One delta of one update with one value, as `emitNotification` builds it.
pub record Delta : Type 0 where
  pub source : Text
  pub timestamp : Text
  pub path : Text
  pub value : NotificationValue

-- What the alarms see of the SignalK app: the deltas that it was handed, the latest first, and the
-- clock. `clock i` is what `new Date().toISOString()` reads after the first `i` deltas.
pub record App : Type 0 where
  pub clock : ℕ → Text
  pub deltas : List Delta

abbrev pub now_iso : App → Text
now_iso app = app.clock (length app.deltas)

abbrev pub handle_message : App → Delta → App
handle_message app d = record app { deltas = d ∷ app.deltas }

unfoldable pub plugin_id : Text
plugin_id = txt "signalk-crows-nest"

-- `[A-Za-z0-9_-]`
unfoldable pub is_path_safe : ℕ → Bool
is_path_safe c =
    leb b'A' c && leb c b'Z'
    || (leb b'a' c && leb c b'z'
        || (leb b'0' c && leb c b'9' || (nat_beq c b'_' || nat_beq c b'-')))

unfoldable pub safe_unit : ℕ → ℕ
safe_unit c = if is_path_safe c then c else b'_'

abbrev pub or_underscore : Text → Text
or_underscore [] = b'_' ∷ []
or_underscore (c ∷ s) = c ∷ s

unfoldable pub sanitize_poi_id : Text → Text
sanitize_poi_id id = or_underscore (map safe_unit id)

-- The `$source`: an absent or empty suffix leaves the plugin's id as it is.
unfoldable pub source_ref : Option Text → Text
source_ref none = plugin_id
source_ref (some []) = plugin_id
source_ref (some (c ∷ s)) = plugin_id ++ (b'.' ∷ c ∷ s)

unfoldable pub emit_notification : App → Text → Text → NotificationValue → Option Text → App
emit_notification app path_prefix poi_id value source_suffix = handle_message app (record {
  source = source_ref source_suffix;
  timestamp = value.created_at;
  path = path_prefix ++ sanitize_poi_id poi_id;
  value = value;
})

-- Whether a consumer that follows `path` sees an alarm: the state of the last delta on it.
abbrev pub is_raised : State → Bool
is_raised State.normal = false
is_raised _ = true

unfoldable pub alarming_on : Text → List Delta → Bool
alarming_on path [] = false
alarming_on path (d ∷ ds) = if d.path == path then is_raised d.value.state else alarming_on path ds
