-- ===== src/Notification.antt =====
-- The notification deltas of the alarm outputs (src/shared/notification-path.ts) and the tracker of
-- the alarming points of interest (src/shared/notification-tracker.ts).
pub mod Emitter
pub mod Tracker
