-- ===== src/Policy.antt =====
-- control/guardx_control/api/policies.py and models/policy.py: the policy registry, the life of a
-- policy version from draft to revoked, and the proposals of the automation plane.
pub mod Registry
pub mod Insert
pub mod Lifecycle
pub mod Rows
pub mod Lawful
pub mod Moves
pub mod Creation
pub mod Review
pub mod Proposal
