-- ===== src/Evidence/Store.antt =====
-- control/guardx_control/models/evidence.py: the tables of the evidence store, and the queries
-- on them. A table is the list of its rows in the order of insertion.
use guard_x.Common.{
  ℕ, String, Bool, ◌&&◌, Option, none, some, List, [], ◌∷◌, filter, str_eq, ltb, if◌then◌else◌,
}
use guard_x.Common.Int.{ℤ}
use guard_x.Common.Sort.{sort_by}
use guard_x.Evidence.Event.{EventBody}

-- `GuardDecision`: `at` is its column `ts`, a point in time; the text of the event's timestamp is
-- not stored, and `payload_ref` is never written.
pub record GuardDecision : Type 0 where
  pub body : EventBody
  pub open body use *
  pub at : ℤ
  pub chain_seq : ℕ
  pub prev_event_hash : Option String
  pub event_hash : String

-- `GuardDecisionHead`
pub record Head : Type 0 where
  pub tenant : String
  pub app : String
  pub chain_seq : ℕ
  pub event_hash : Option String
  pub updated_at : ℤ

-- `ChainAnchor`
pub record ChainAnchor : Type 0 where
  pub tenant : String
  pub app : String
  pub anchor_at : ℤ
  pub start_seq : ℕ
  pub end_seq : ℕ
  pub head_hash : Option String
  pub signature : String
  pub signing_key_id : String

pub record Db : Type 0 where
  pub decisions : List GuardDecision
  pub heads : List Head
  pub anchors : List ChainAnchor

-- `tenant == t AND app == a`
abbrev pub in_chain : String → String → GuardDecision → Bool
in_chain t a r = str_eq r.tenant t && str_eq r.app a

abbrev pub rows_of : String → String → List GuardDecision → List GuardDecision
rows_of t a rows = filter (in_chain t a) rows

abbrev pub seq_lt : GuardDecision → GuardDecision → Bool
seq_lt r s = ltb r.chain_seq s.chain_seq

-- `select(GuardDecision).where(tenant == t, app == a).order_by(chain_seq)`
unfoldable pub select_chain : String → String → Db → List GuardDecision
unfolding sort_by
select_chain t a db = sort_by seq_lt (rows_of t a db.decisions)

abbrev pub is_head_of : String → String → Head → Bool
is_head_of t a h = str_eq h.tenant t && str_eq h.app a

-- `select(GuardDecisionHead).where(tenant == t, app == a)`
unfoldable pub find_head : String → String → List Head → Option Head
find_head t a [] = none
find_head t a (h ∷ hs) = if is_head_of t a h then some h else find_head t a hs

-- The row of that primary key is updated, or a new one is inserted.
unfoldable pub put_head : Head → List Head → List Head
put_head h [] = h ∷ []
put_head h (g ∷ hs) = if is_head_of h.tenant h.app g then h ∷ hs else g ∷ put_head h hs
