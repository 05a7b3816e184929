-- ===== src/Auth.antt =====
-- control/guardx_control/api/auth.py and oidc.py: who calls, and what the caller may do.
pub mod Role
pub mod Claims
pub mod Principal
pub mod Sound
