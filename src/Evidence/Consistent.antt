-- ===== src/Evidence/Consistent.antt =====
-- The invariant of the evidence store, and that the loop over the events of a bucket extends the
-- chain of that bucket.
use guard_x.Common.{◌+◌, ◌≡◌, refl, sym, ap, ◌∙◌, String, none, List, [], ◌∷◌, arith, All}
use guard_x.Common.Int.{ℤ}
use guard_x.Common.Result.{ok, >>=-eq-ok, subst_ok}
use guard_x.Platform.{Platform}
use guard_x.Evidence.Event.{EventIn, Event}
use guard_x.Evidence.Timestamp.{parse_ts, print_ts}
use guard_x.Evidence.Minimizer.{minimize_event}
use guard_x.Evidence.Chain.{compute_event_hash}
use guard_x.Evidence.Store.{GuardDecision, Head, Db, rows_of, find_head}
use guard_x.Evidence.Ingest.{or_fresh, payload, row_of, advance, append_events}
use guard_x.Evidence.Verify.{row_to_event, recomputed_hash, recomputed_hash_lem}
use guard_x.Evidence.Chained.{IsChained}

-- What minimization leaves alone.
pub record Kept (e f : Event) : Type 0 where
  pub ts : f.ts ≡ e.ts
  pub tenant : f.tenant ≡ e.tenant
  pub app : f.app ≡ e.app
  pub chain_seq : f.chain_seq ≡ e.chain_seq
  pub prev_event_hash : f.prev_event_hash ≡ e.prev_event_hash

pub minimize_event-Kept : (e : Event) → Kept e (minimize_event e)
unfolding minimize_event
minimize_event-Kept e = ground arith

minimize_event-payload_ref :
    (e : Event) → e.payload_ref ≡ none → (minimize_event e).payload_ref ≡ none
unfolding minimize_event
minimize_event-payload_ref e h = ground arith

module _ (py : Platform) where
  -- Every chain is whole, and ends at its head row.
  abbrev pub IsConsistent : Db → Type 0
  IsConsistent db =
      (t a : String)
      → let h = or_fresh t a (find_head t a db.heads) in
        IsChained py 0 none (rows_of t a db.decisions) h.chain_seq h.event_hash

  -- The stored time of an event prints as the event's own timestamp.
  abbrev pub IsCanonicalTs : EventIn → Type 0
  IsCanonicalTs e = (t : ℤ) → parse_ts py e.ts ≡ ok t → print_ts py t ≡ e.ts

  abbrev pub IsExactKey : ℤ × EventIn → Type 0
  IsExactKey k = print_ts py k.0 ≡ k.1.ts

  row_to_event-row_of :
      (t : ℤ) (p : Event) (hash : String)
      → print_ts py t ≡ p.ts
      → p.payload_ref ≡ none
      → row_to_event py (row_of t p hash) ≡ p
  unfolding row_to_event
  row_to_event-row_of t p hash e f = ground arith

  abbrev pub fresh_payload : Head → EventIn → Event
  fresh_payload h e = record {
    ts = e.ts;
    body = e.body;
    chain_seq = h.chain_seq + 1;
    prev_event_hash = h.event_hash;
    payload_ref = none;
  }

  pub payload-Kept : (h : Head) (e : EventIn) → Kept (fresh_payload h e) (payload h e)
  payload-Kept h e = minimize_event-Kept (fresh_payload h e)

  -- The verifier recomputes the hash that ingestion stored.
  recomputed_hash-row_of :
      (h : Head) (t : ℤ) (e : EventIn) (hash : String)
      → print_ts py t ≡ e.ts
      → recomputed_hash py (row_of t (payload h e) hash) ≡ compute_event_hash py (payload h e)
  recomputed_hash-row_of h t e hash c =
      recomputed_hash_lem py (row_of t (payload h e) hash)
      ∙ ap (compute_event_hash py) (
          row_to_event-row_of t (payload h e) hash (c ∙ sym (payload-Kept h e).ts)
            (minimize_event-payload_ref (fresh_payload h e) refl))

  pub append_events-IsChained :
      (h : Head) (ks : List (ℤ × EventIn)) (h' : Head) (rows : List GuardDecision)
      → append_events py h ks ≡ ok (h', rows)
      → All IsExactKey ks
      → IsChained py h.chain_seq h.event_hash rows h'.chain_seq h'.event_hash
  unfolding append_events
  append_events-IsChained h [] h' rows e c =
      subst_ok (λ p. IsChained py h.chain_seq h.event_hash p.1 p.0.chain_seq p.0.event_hash) e
        (refl, refl)
  append_events-IsChained h ((t, ev) ∷ ks) h' rows e c =
      let (hash, eh, e1) = >>=-eq-ok (compute_event_hash py (payload h ev)) _ e in
      let (s, es, e2) = >>=-eq-ok (append_events py (advance h hash) ks) _ e1 in
      subst_ok (λ p. IsChained py h.chain_seq h.event_hash p.1 p.0.chain_seq p.0.event_hash) e2
        (
          (payload-Kept h ev).chain_seq,
          (payload-Kept h ev).prev_event_hash,
          recomputed_hash-row_of h t ev hash c.0 ∙ eh,
          append_events-IsChained (advance h hash) ks s.0 s.1 es c.1,
        )
