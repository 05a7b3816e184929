-- ===== src/Auth/Role.antt =====
-- api/auth.py: the roles, the principal, and the guard `require_role` of every route.
use guard_x.Common.{String, Bool, true, false, ◌&&◌, not, List, any}
use guard_x.Common.Result.{Result, ok, http, raise_if, ◌>>◌}

-- `Role`
pub data Role : Type 0 where
  viewer author reviewer approver admin service : Role

-- `Principal`
pub record Principal : Type 0 where
  pub subject : String
  pub role : Role

-- `a is b`
abbrev pub is_role : Role → Role → Bool
is_role Role.viewer Role.viewer = true
is_role Role.author Role.author = true
is_role Role.reviewer Role.reviewer = true
is_role Role.approver Role.approver = true
is_role Role.admin Role.admin = true
is_role Role.service Role.service = true
is_role _ _ = false

-- `role in allowed`
abbrev pub is_allowed : List Role → Role → Bool
is_allowed allowed r = any (is_role r) allowed

unfoldable pub require_role : List Role → Principal → Result Principal
require_role allowed p =
    raise_if (not (is_allowed allowed p.role) && not (is_role p.role Role.admin)) (http 403) >> ok p
