-- ===== src/Evidence.antt =====
-- control/guardx_control/evidence and control/guardx_control/api/evidence.py: the events, the
-- hash chain of each (tenant, app), ingestion, verification, anchors and queries.
pub mod Event
pub mod Timestamp
pub mod Minimizer
pub mod Chain
pub mod Store
pub mod Ingest
pub mod Verify
pub mod Chained
pub mod Consistent
pub mod Buckets
pub mod Preserve
pub mod Detect
pub mod Anchor
pub mod Contents
pub mod Added
pub mod Query
pub mod Paging
