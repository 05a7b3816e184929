-- ===== src/Evidence/Event.antt =====
-- The request shapes of api/evidence.py, and the payload that ingestion makes of an event.
use guard_x.Common.{ℕ, String, Bool, Option, none, some, List, [], ◌∷◌, map}
use guard_x.Common.Int.{ℤ}
use guard_x.Common.Float.{Float}
use guard_x.Common.Json.{Json, null, int, float, str, arr, obj, of_list, of_entries}

-- `SpanIn`
pub record Span : Type 0 where
  pub start : ℤ
  pub stop : ℤ
  pub label : String
  pub confidence : Float

-- The fields of `EventIn` but for its timestamp, which the table stores in another form.
pub record EventBody : Type 0 where
  pub event_id : String
  pub tenant : String
  pub app : String
  pub env : String
  pub request_id : String
  pub policy : String
  pub bundle_seq : ℤ
  pub guard_id : Option String
  pub scenario : Option String
  pub detector : Option String
  pub direction : Option String
  pub verdict : String
  pub score : Option Float
  pub action_taken : Option String
  pub latency_ms : Option ℤ
  pub evidence_mode : String
  pub spans : Option (List Span)
  pub text_hash : Option String
  pub is_shadow : Bool

-- `EventIn`
pub record EventIn : Type 0 where
  pub ts : String
  pub body : EventBody
  pub open body use *

-- The dict that ingestion builds from `model_dump()`, and that `_row_to_event` builds from a row:
-- the event with its place in the chain. `payload_ref` is no field of an incoming event.
pub record Event : Type 0 where
  pub ts : String
  pub body : EventBody
  pub open body use *
  pub chain_seq : ℕ
  pub prev_event_hash : Option String
  pub payload_ref : Option String

abbrev pub opt_str : Option String → Json
opt_str none = null
opt_str (some s) = str s

abbrev pub opt_int : Option ℤ → Json
opt_int none = null
opt_int (some n) = int n

abbrev pub opt_float : Option Float → Json
opt_float none = null
opt_float (some x) = float x

-- A span as `model_dump()` gives it.
abbrev pub span_json : Span → Json
span_json s = obj (
    of_entries (
      ("start", int s.start)
      ∷ ("end", int s.stop)
      ∷ ("label", str s.label)
      ∷ ("confidence", float s.confidence)
      ∷ []))

abbrev pub opt_spans : Option (List Span) → Json
opt_spans none = null
opt_spans (some l) = arr (of_list (map span_json l))
