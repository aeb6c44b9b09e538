-- ===== src/Lib.antt =====
-- Crow's Nest (signalk-activecaptain-resources): a SignalK plugin that lists points of interest
-- from several sources, raises alarms for hazards and low bridges near the vessel, and follows the
-- active route.
--
-- The parts and their files (paths are from the repository's root):
-- - Base: Boolean tests, UTF-16 texts (lists of code units), JavaScript maps (association lists in
--   insertion order), the number type (a record of operations with the documented laws of the
--   comparisons) and the LRU cache of the package lru-cache (a record with its documented laws).
-- - Types, Shared: src/shared/types.ts, numbers.ts, bridge-clearance.ts, namespaced-id.ts and
--   poi-type-selection.ts.
-- - Geo: src/geo/position-utilities.ts.
-- - Notification.Emitter, Notification.Tracker: src/shared/notification-path.ts and
--   notification-tracker.ts. The app is the list of the deltas that it was handed, with a clock.
-- - Alarms: the two loops that proximity-alarms.ts and bridge-clearance-alarms.ts have in common,
--   raising what is not tracked and clearing what no longer alarms.
-- - Outputs.ProximityAlarm: src/outputs/proximity-alarm/proximity-alarms.ts.
-- - Outputs.BridgeAirDraft: src/outputs/bridge-air-draft/bridge-clearance-resolver.ts and
--   bridge-clearance-alarms.ts.
-- - Outputs.RouteHazard.CourseReader: src/outputs/route-hazard/course-reader.ts.
-- - Monitoring: src/monitoring/position-monitor.ts, which drives the alarms.
-- - Status: src/status/plugin-status.ts, which the registry writes to.
-- - Inputs.Registry: src/inputs/input-registry.ts up to the merge of the lists; Inputs.Dedupe:
--   src/inputs/dedupe-pois.ts; Inputs.Aggregate: the two composed as the registry composes them.
-- - Inputs.Http: src/inputs/http-client.ts; Inputs.UsWaters: src/shared/us-waters.ts.
-- - Inputs.LightList: src/inputs/uscg-light-list/light-list-store.ts, its index (Store) and its
--   files (Files).
-- - Inputs.ActiveCaptain: poi-store.ts, rating-filter.ts, bridge-clearance.ts and, in part,
--   active-captain-source.ts and poi-cache.ts of src/inputs/active-captain.
-- - Inputs.NoaaEnc: the ids, the summaries and the list request of
--   src/inputs/noaa-enc/noaa-enc-source.ts, with the dates of s57-mapping.ts.
-- - Shared.BboxDebounce, Shared.YearFilter, Shared.HtmlEscape: src/shared/bbox-debounce.ts,
--   year-filter.ts and html-escape.ts.
-- - Outputs.RouteHazard.Corridor, Alarms and Output: src/outputs/route-hazard/route-corridor.ts,
--   route-hazard-alarms.ts and route-hazard-output.ts, which drives the course reader, the corridor
--   and the resolver of clearances on every tick.
-- - Outputs.NotesResource: src/outputs/notes-resource, which answers the chart plotters.
-- - Plugin: src/plugin/plugin.ts (Lifecycle), plugin-config.ts (Schema) and
--   src/outputs/output-registry.ts (OutputRegistry). World is the log of what is acquired, released
--   and reported, with one oracle that says which calls of the outputs and of the monitor throw, and
--   one for the calls of the sources, whose creation and close are the loops of
--   src/inputs/input-registry.ts.
-- - Panel: src/panel/normalize-config.ts, with the group ids of src/shared/seamark-groups.ts.
-- - Tests: runs at concrete values.
--
-- State is passed explicitly: a closure's variables are a record, and each inner function is a
-- function on it. A promise is an event: one function is the code up to the `await`, another the
-- code behind it, and the theorems hold for every order of the events. A clock reading is an
-- argument or a numbered reading of a clock. Functions of the language that read texts as numbers or
-- dates, or that read and write JSON, and the files of a store, are parameters or values of the state.
--
-- Fuel: a tick of the monitor that makes no request starts another in its `finally`; two are
-- enough where a vessel that has not moved has moved less than the threshold. The retry loop has
-- `max_retries + 1` attempts as its fuel, which is always enough.
--
-- Not modelled: debug logging; the transport, the wire formats and the HTML of the inputs' detail
-- views; the OpenSeaMap input and the scheduler of the Light List input; the modules that hand the
-- configuration to the proximity and air-draft alarms; the reducer and the components of the web
-- panel; and the rounding of floating-point arithmetic, of which nothing is assumed.
pub mod Base
pub mod Types
pub mod Shared
pub mod Geo
pub mod Notification
pub mod Alarms
pub mod Outputs
pub mod Monitoring
pub mod Status
pub mod Inputs
pub mod Plugin
pub mod Panel
pub mod Tests
