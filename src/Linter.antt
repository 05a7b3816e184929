-- ===== src/Linter.antt =====
-- control/guardx_control/linter/linter.py: the static checks of a policy document.
pub mod Document
pub mod Rules
pub mod Sound
