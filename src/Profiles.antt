-- ===== src/Profiles.antt =====
-- control/guardx_control/profiles/inheritance.py: the merge of a policy document into its parent.
pub mod Merge
pub mod Keys
pub mod Guards
pub mod Chain
pub mod Lineage
pub mod Total
pub mod Compile
pub mod Compiled
