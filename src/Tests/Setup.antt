-- ===== src/Tests/Setup.antt =====
-- A platform and the callers that the tests use. Its hash tells a text that has "block" in it from
-- one that has not, and its only timestamp is the epoch.
use guard_x.Common.{none, some, [], str_eq, if◌then◌else◌}
use guard_x.Common.Int.{pos}
use guard_x.Common.Text.{contains}
use guard_x.Common.Result.{Result, ok, err}
use guard_x.Platform.{Platform}
use guard_x.Auth.Role.{Role, Principal}

abbrev pub py : Platform
py = record {
  sha256_hex = λ s. if contains "block" s then "b1" else "a1";
  float_repr = λ x. "0.5";
  fromisoformat = λ s. if str_eq s "1970-01-01T00:00:00+00:00" then some (pos 0) else none;
  isoformat_utc = λ t. "1970-01-01T00:00:00+00:00";
  sign = λ s. s;
  key_id = "k1";
  repr = λ v. "[]";
  schema_errors = λ v. [];
  commit_in_place = λ old new. old;
  int_of_text = λ s. none;
}

abbrev pub value_or {ℓ} : {A : Type ℓ} → A → Result A → A
value_or d (ok x) = x
value_or d (err e) = d

abbrev pub service : Principal
service = record { subject = "svc@automation"; role = Role.service }

abbrev pub alice : Principal
alice = record { subject = "alice"; role = Role.author }

abbrev pub bob : Principal
bob = record { subject = "bob"; role = Role.approver }
