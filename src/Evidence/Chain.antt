-- ===== src/Evidence/Chain.antt =====
-- control/guardx_control/evidence/chain.py: the canonical subset of an event, and its hash.
use guard_x.Common.{String, [], ◌∷◌}
use guard_x.Common.Int.{pos}
use guard_x.Common.Text.{◌<>◌}
use guard_x.Common.Json.{Json, int, str, obj, of_entries}
use guard_x.Common.Result.{Result, ok, ◌>>=◌}
use guard_x.Platform.{Platform}
use guard_x.Signing.Canonical.{canonical_json}
use guard_x.Evidence.Event.{Event, opt_str, opt_int, opt_float, opt_spans}

-- `{k: event.get(k) for k in CHAIN_FIELDS}`
abbrev pub chain_fields : Event → Json
chain_fields e = obj (
    of_entries (
      ("event_id", str e.event_id)
      ∷ ("ts", str e.ts)
      ∷ ("tenant", str e.tenant)
      ∷ ("app", str e.app)
      ∷ ("env", str e.env)
      ∷ ("chain_seq", int (pos e.chain_seq))
      ∷ ("request_id", str e.request_id)
      ∷ ("policy", str e.policy)
      ∷ ("bundle_seq", int e.bundle_seq)
      ∷ ("guard_id", opt_str e.guard_id)
      ∷ ("scenario", opt_str e.scenario)
      ∷ ("detector", opt_str e.detector)
      ∷ ("direction", opt_str e.direction)
      ∷ ("verdict", str e.verdict)
      ∷ ("score", opt_float e.score)
      ∷ ("action_taken", opt_str e.action_taken)
      ∷ ("latency_ms", opt_int e.latency_ms)
      ∷ ("evidence_mode", str e.evidence_mode)
      ∷ ("spans", opt_spans e.spans)
      ∷ ("text_hash", opt_str e.text_hash)
      ∷ ("prev_event_hash", opt_str e.prev_event_hash)
      ∷ []))

module _ (py : Platform) where
  unfoldable pub canonical_event_bytes : Event → Result String
  canonical_event_bytes e = canonical_json py.float_repr (chain_fields e)

  unfoldable pub compute_event_hash : Event → Result String
  unfolding canonical_event_bytes
  compute_event_hash e = canonical_event_bytes e >>= λ bytes. ok ("sha256:" <> py.sha256_hex bytes)
