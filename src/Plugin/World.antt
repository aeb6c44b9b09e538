-- ===== src/Plugin/World.antt =====
-- What the server and the parts see of the plugin of src/plugin/plugin.ts: the events, latest first.
-- The calls of the parts' code that may throw are numbered, and `fails i` is the text of what call
-- `i` throws, if it does.
use signalk_activecaptain_re.Base.{ℕ, suc, Option, none, some, List, ◌∷◌, ◌++◌}
use signalk_activecaptain_re.Base.Text.{Text, txt}

-- An output's handle or a monitor is known by its number, and a source by its number among the
-- sources. `released` and `closed` say that `stop` or `close` was called, whether it threw or not.
pub data Event : Type 0 where
  acquired : ℕ → Event
  released : ℕ → Event
  opened : ℕ → Event
  closed : ℕ → Event
  logged_error : Text → Event
  plugin_error : Text → Event
  plugin_status : Text → Event

pub record World : Type 0 where
  pub calls : ℕ
  pub created : ℕ
  pub sources : ℕ
  pub events : List Event

abbrev pub say : Event → World → World
say e w = record w { events = e ∷ w.events }

-- A call that threw, or that gave nothing to hold.
abbrev pub called : World → World
called w = record w { calls = suc w.calls }

-- A call that gave a new handle or monitor, whose number is `w.created`.
abbrev pub acquire : World → World
acquire w = record w {
  calls = suc w.calls;
  created = suc w.created;
  events = acquired w.created ∷ w.events;
}

-- A call that gave a new source, whose number is `w.sources`.
abbrev pub open_source : World → World
open_source w = record w {
  calls = suc w.calls;
  sources = suc w.sources;
  events = opened w.sources ∷ w.events;
}

-- `app.error` of a `catch` block.
abbrev pub log_failure : Text → Text → World → World
log_failure what reason w = say (logged_error (what ++ (txt ": " ++ reason))) w

abbrev pub failure_logged : Text → Option Text → World → World
failure_logged what none w = w
failure_logged what (some reason) w = log_failure what reason w

-- A `stop` in a `try` block of its own.
unfoldable pub release : (ℕ → Option Text) → Text → ℕ → World → World
release fails what n w = failure_logged what (fails w.calls) (say (released n) (called w))
