-- ===== src/Evidence/Query.antt =====
-- api/evidence.py: the routes `list_events` and `export_bundle`, which only read.
use guard_x.Common.{
  ℕ, zero, suc, String, Bool, true, not, ◌&&◌, ◌||◌, Option, none, some, List, [], ◌∷◌, map, filter,
  ltb, str_eq, if◌then◌else◌,
}
use guard_x.Common.Int.{ℤ, ltb_ℤ}
use guard_x.Common.Sort.{sort_by}
use guard_x.Common.Result.{Result, ok, http, raise_if, ◌>>=◌, ◌>>◌}
use guard_x.Platform.{Platform}
use guard_x.Auth.Role.{Role, Principal, require_role}
use guard_x.Evidence.Event.{Event}
use guard_x.Evidence.Timestamp.{parse_ts}
use guard_x.Evidence.Store.{GuardDecision, ChainAnchor, Db, in_chain, seq_lt}
use guard_x.Evidence.Verify.{ChainVerifyReport, row_to_event, verify_chain}
use guard_x.Evidence.Anchor.{anchors_of}

-- `limit(n)`
unfoldable pub limit : ℕ → List GuardDecision → List GuardDecision
limit zero rs = []
limit (suc n) [] = []
limit (suc n) (r ∷ rs) = r ∷ limit n rs

-- The columns `ts >= a` and `ts <= b`, where the bound is given and not empty.
abbrev pub is_from : Option ℤ → GuardDecision → Bool
is_from none r = true
is_from (some a) r = not (ltb_ℤ r.at a)

abbrev pub is_to : Option ℤ → GuardDecision → Bool
is_to none r = true
is_to (some b) r = not (ltb_ℤ b r.at)

abbrev pub anchored_before : ChainAnchor → ChainAnchor → Bool
anchored_before v w = ltb_ℤ v.anchor_at w.anchor_at

-- `EventOut`: the event of a row, and its hash.
abbrev pub EventOut : Type 0
EventOut = Event × String

-- `ExportBundle`, but for the arguments, which it repeats.
pub record ExportBundle : Type 0 where
  pub events : List EventOut
  pub anchors : List ChainAnchor
  pub verification : ChainVerifyReport

module _ (py : Platform) where
  abbrev pub event_out : GuardDecision → EventOut
  event_out r = (row_to_event py r, r.event_hash)

  -- `list_events`, behind the checks of its parameters.
  unfoldable pub list_events : String → String → ℕ → ℕ → Db → Result (List EventOut)
  unfolding limit
  list_events t a since_seq n db = do
    raise_if (ltb n 1 || ltb 5000 n) (http 422)
    let rows =
        sort_by seq_lt (filter (λ r. in_chain t a r && ltb since_seq r.chain_seq) db.decisions)
    ok (map event_out (limit n rows))

  -- A bound of the window.
  unfoldable pub bound : Option String → Result (Option ℤ)
  bound none = ok none
  bound (some s) = if str_eq s "" then ok none else (parse_ts py s >>= λ t. ok (some t))

  -- `export_bundle`
  unfoldable pub export_bundle :
      Principal → String → String → Option String → Option String → Db → Result ExportBundle
  unfolding require_role bound verify_chain
  export_bundle p t a from_ts to_ts db = do
    caller ← require_role (Role.approver ∷ Role.admin ∷ []) p
    lower_bound ← bound from_ts
    upper_bound ← bound to_ts
    let rows =
        sort_by seq_lt (
          filter (λ r. in_chain t a r && is_from lower_bound r && is_to upper_bound r) db.decisions)
    verification ← verify_chain py t a db
    ok (record {
      events = map event_out rows;
      anchors = sort_by anchored_before (anchors_of t a db.anchors);
      verification = verification;
    })
