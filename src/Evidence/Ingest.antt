-- ===== src/Evidence/Ingest.antt =====
-- api/evidence.py: `POST /v1/evidence/events`. The commit checks the primary key `event_id` and
-- the CHECK on `evidence_mode`; an exception rolls the transaction back, so a call that raises
-- leaves the database as it was.
use guard_x.Common.{
  ℕ, ◌+◌, String, Bool, ◌&&◌, ◌||◌, not, Option, none, some, List, [], ◌∷◌, ◌++◌, map, length, elem,
  all, insert, str_eq, ltb, if◌then◌else◌,
}
use guard_x.Common.Int.{ℤ, ltb_ℤ}
use guard_x.Common.Text.{◌<>◌}
use guard_x.Common.Sort.{sort_by}
use guard_x.Common.Result.{Result, ok, http, integrity_error, raise_if, ◌>>=◌, ◌>>◌}
use guard_x.Platform.{Platform}
use guard_x.Auth.Role.{Role, Principal, require_role}
use guard_x.Evidence.Event.{EventIn, Event}
use guard_x.Evidence.Timestamp.{parse_ts}
use guard_x.Evidence.Minimizer.{minimize_event}
use guard_x.Evidence.Chain.{compute_event_hash}
use guard_x.Evidence.Store.{GuardDecision, Head, Db, find_head, put_head}

-- The events of one (tenant, app), in the order of the batch.
pub record Bucket : Type 0 where
  pub tenant : String
  pub app : String
  pub events : List EventIn

-- `IngestResult`
pub record IngestResult : Type 0 where
  pub accepted : ℕ
  pub chain_head : List (String × (ℕ × Option String))

-- `grouped.setdefault((e.tenant, e.app), []).append(e)`
unfoldable pub add_to_bucket : EventIn → List Bucket → List Bucket
add_to_bucket e [] = record { tenant = e.tenant; app = e.app; events = e ∷ [] } ∷ []
add_to_bucket e (b ∷ bs) =
    if str_eq e.tenant b.tenant && str_eq e.app b.app
    then record b { events = b.events ++ e ∷ [] } ∷ bs
    else b ∷ add_to_bucket e bs

unfoldable pub group_from : List EventIn → List Bucket → List Bucket
group_from [] bs = bs
group_from (e ∷ es) bs = group_from es (add_to_bucket e bs)

unfoldable pub group : List EventIn → List Bucket
unfolding group_from add_to_bucket
group es = group_from es []

abbrev pub earlier : ℤ × EventIn → ℤ × EventIn → Bool
earlier a b = ltb_ℤ a.0 b.0

-- The head row that a new chain begins with.
abbrev pub fresh_head : String → String → Head
fresh_head t a = record {
  tenant = t;
  app = a;
  chain_seq = 0;
  event_hash = none;
  updated_at = ℤ.pos 0;
}

abbrev pub or_fresh : String → String → Option Head → Head
or_fresh t a none = fresh_head t a
or_fresh t a (some h) = h

-- The payload before its hash is known.
abbrev pub payload : Head → EventIn → Event
payload h e = minimize_event (record {
  ts = e.ts;
  body = e.body;
  chain_seq = h.chain_seq + 1;
  prev_event_hash = h.event_hash;
  payload_ref = none;
})

abbrev pub row_of : ℤ → Event → String → GuardDecision
row_of t p hash = record {
  body = p.body;
  at = t;
  chain_seq = p.chain_seq;
  prev_event_hash = p.prev_event_hash;
  event_hash = hash;
}

abbrev pub advance : Head → String → Head
advance h hash = record h { chain_seq = h.chain_seq + 1; event_hash = some hash }

abbrev pub event_ids : List GuardDecision → List String
event_ids rows = map (λ r. r.event_id) rows

abbrev pub has_no_duplicate : List String → Bool
has_no_duplicate [] = Bool.true
has_no_duplicate (k ∷ ks) = not (elem k ks) && has_no_duplicate ks

abbrev pub mode_is_known : GuardDecision → Bool
mode_is_known r =
    str_eq r.evidence_mode "none"
    || str_eq r.evidence_mode "spans"
    || str_eq r.evidence_mode "full_text"

-- The constraints of the table `guard_decisions`.
unfoldable pub constraints_hold : Db → Bool
constraints_hold db = has_no_duplicate (event_ids db.decisions) && all mode_is_known db.decisions

module _ (py : Platform) where
  -- The sort keys, each event with its parsed timestamp.
  unfoldable pub with_keys : List EventIn → Result (List (ℤ × EventIn))
  with_keys [] = ok []
  with_keys (e ∷ es) = parse_ts py e.ts >>= λ t. with_keys es >>= λ rest. ok ((t, e) ∷ rest)

  -- The loop over the events of a bucket: the advanced head, and the new rows.
  unfoldable pub append_events : Head → List (ℤ × EventIn) → Result (Head × List GuardDecision)
  append_events h [] = ok (h, [])
  append_events h ((t, e) ∷ es) = compute_event_hash py (payload h e) >>= λ hash.
      append_events (advance h hash) es >>= λ (h', rows).
      ok (h', row_of t (payload h e) hash ∷ rows)

  -- One round of the loop over the buckets.
  unfoldable pub ingest_bucket :
      ℤ
      → Bucket
      → Db × List (String × (ℕ × Option String))
      → Result (Db × List (String × (ℕ × Option String)))
  unfolding with_keys append_events sort_by find_head put_head
  ingest_bucket now b (db, out) = with_keys b.events >>= λ keyed.
      append_events (or_fresh b.tenant b.app (find_head b.tenant b.app db.heads))
        (sort_by earlier keyed)
      >>= λ (h, rows). ok (
        record db {
          decisions = db.decisions ++ rows;
          heads = put_head (record h { updated_at = now }) db.heads;
        },
        insert (b.tenant <> "/" <> b.app) (h.chain_seq, h.event_hash) out,
      )

  unfoldable pub ingest_buckets :
      ℤ
      → List Bucket
      → Db × List (String × (ℕ × Option String))
      → Result (Db × List (String × (ℕ × Option String)))
  unfolding ingest_bucket
  ingest_buckets now [] s = ok s
  ingest_buckets now (b ∷ bs) s = ingest_bucket now b s >>= λ s'. ingest_buckets now bs s'

  unfoldable pub ingest : Principal → ℤ → List EventIn → Db → Result (Db × IngestResult)
  unfolding require_role group ingest_buckets constraints_hold
  ingest p now events db = do
    caller ← require_role (Role.service ∷ Role.admin ∷ []) p
    raise_if (ltb (length events) 1 || ltb 500 (length events)) (http 422)
    s ← ingest_buckets now (group events) (db, [])
    raise_if (not (constraints_hold s.0)) integrity_error
    ok (s.0, record { accepted = length events; chain_head = s.1 })
