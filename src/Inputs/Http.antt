-- ===== src/Inputs/Http.antt =====
-- src/inputs/http-client.ts: the request queue and the retries.
pub mod Queue
pub mod Retry
