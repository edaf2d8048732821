-- ===== src/Jobs.antt =====
-- internal/jobs: operations run off the request path. `Job` holds the record, `Store` the in-memory
-- store, `Manager` the scheduler; the other modules prove laws of them.
pub mod Job
pub mod Store
pub mod Manager
pub mod Recovery
pub mod Submission
pub mod Goroutines
pub mod Lifecycle
