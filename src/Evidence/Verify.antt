-- ===== src/Evidence/Verify.antt =====
-- api/evidence.py: `_row_to_event`, `_verify_chain_impl` and `list_events`.
use guard_x.Common.{
  ℕ, ◌+◌, ◌-◌, ◌≡◌, refl, String, Bool, true, false, Option, none, some, List, [], ◌∷◌, length,
  str_eq, ◌==◌, not, if◌then◌else◌,
}
use guard_x.Common.Result.{Result, ok, ◌>>=◌}
use guard_x.Platform.{Platform}
use guard_x.Evidence.Event.{Event}
use guard_x.Evidence.Timestamp.{print_ts}
use guard_x.Evidence.Chain.{compute_event_hash}
use guard_x.Evidence.Store.{GuardDecision, Db, select_chain}

-- The reasons that a report gives.
pub data Reason : Type 0 where
  seq_gap prev_hash_mismatch event_hash_mismatch : Reason

-- `ChainVerifyReport`, but for the tenant and the app, which it repeats.
pub record ChainVerifyReport : Type 0 where
  pub checked : ℕ
  pub is_ok : Bool
  pub first_bad_seq : Option ℕ
  pub reason : Option Reason
  pub head : Option (ℕ × Option String)

-- `a == b` on texts that may be None.
abbrev pub opt_eq : Option String → Option String → Bool
opt_eq none none = true
opt_eq (some s) (some t) = str_eq s t
opt_eq _ _ = false

abbrev pub bad : ℕ → GuardDecision → Reason → ChainVerifyReport
bad expected r why = record {
  checked = expected - 1;
  is_ok = false;
  first_bad_seq = some r.chain_seq;
  reason = some why;
  head = none;
}

module _ (py : Platform) where
  unfoldable pub row_to_event : GuardDecision → Event
  row_to_event r = record {
    ts = print_ts py r.at;
    body = r.body;
    chain_seq = r.chain_seq;
    prev_event_hash = r.prev_event_hash;
    payload_ref = none;
  }

  -- `compute_event_hash(_row_to_event(r))`
  unfoldable pub recomputed_hash : GuardDecision → Result String
  unfolding row_to_event compute_event_hash
  recomputed_hash r = compute_event_hash py (row_to_event r)

  pub recomputed_hash_lem :
      (r : GuardDecision) → recomputed_hash r ≡ compute_event_hash py (row_to_event r)
  unfolding recomputed_hash
  recomputed_hash_lem r = refl

  -- The loop over the rows, and the report behind it; `total` is `len(rows)`.
  unfoldable pub verify_rows : ℕ → ℕ → Option String → List GuardDecision → Result ChainVerifyReport
  verify_rows total expected prev [] = ok (record {
    checked = total;
    is_ok = true;
    first_bad_seq = none;
    reason = none;
    head = some (total, prev);
  })
  verify_rows total expected prev (r ∷ rs) =
      let rest = verify_rows total (expected + 1) (some r.event_hash) rs in
      if not (r.chain_seq == expected)
      then ok (bad expected r Reason.seq_gap)
      else if not (opt_eq r.prev_event_hash prev)
      then ok (bad expected r Reason.prev_hash_mismatch)
      else recomputed_hash r >>= λ recomputed.
          if not (str_eq recomputed r.event_hash)
          then ok (bad expected r Reason.event_hash_mismatch)
          else rest

  unfoldable pub verify_chain : String → String → Db → Result ChainVerifyReport
  unfolding verify_rows select_chain
  verify_chain t a db = let rows = select_chain t a db in verify_rows (length rows) 1 none rows
