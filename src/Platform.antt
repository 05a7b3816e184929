-- ===== src/Platform.antt =====
-- What the components take of code outside the repository: SHA-256, the text of a float, the
-- parsing and printing of timestamps, a signing key, the `repr` of values, and the errors that
-- the JSON Schema validator finds. A point in time is the number of microseconds since the epoch.
use guard_x.Common.{String, Option, List}
use guard_x.Common.Json.{Json}
use guard_x.Common.Int.{ℤ}
use guard_x.Common.Float.{Float}

pub record Platform : Type 0 where
  -- `hashlib.sha256(data).hexdigest()`
  pub sha256_hex : String → String
  -- `float.__repr__`
  pub float_repr : Float → String
  -- `datetime.fromisoformat`; none where it raises ValueError
  pub fromisoformat : String → Option ℤ
  -- `t.astimezone(timezone.utc).isoformat()`
  pub isoformat_utc : ℤ → String
  -- `Ed25519PrivateKey.sign`
  pub sign : String → String
  pub key_id : String
  -- `repr` of a value
  pub repr : Json → String
  -- the paths at which `Draft202012Validator(schema).iter_errors(document)` finds an error
  pub schema_errors : Json → List String
  -- What a commit leaves in a JSON column of a loaded row whose value was changed in place, given
  -- the stored and the changed value (SQLAlchemy's `JSONB` is not `MutableDict`)
  pub commit_in_place : Json → Json → Json
  -- `int(text)`; none where it raises ValueError
  pub int_of_text : String → Option ℤ
