-- ===== src/Bundles.antt =====
-- control/guardx_control/bundle_builder/builder.py, api/bundles.py and api/detectors.py: the catalog
-- of detectors, and the signed bundles of approved policies.
pub mod Catalog
pub mod Builder
pub mod Scope
pub mod Sequence
