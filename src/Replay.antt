-- ===== src/Replay.antt =====
-- apps/api-nest/src/failed-job-replay.service.ts: a terminally failed job is put back on its
-- queue. BullMQ and the clock are parameters; the connection and the queues that the service
-- keeps are its state, and the jobs and audit entries that it writes are part of the result.
pub mod Tests
pub mod Redact
pub mod Accept
pub mod Job
pub mod Service
