-- ===== src/Evidence/Preserve.antt =====
-- Ingestion keeps every chain whole, and the verifier then accepts every chain.
use mathlib.Core.Path.{subst₂}
use guard_x.Common.{
  ℕ, ◌+◌, ◌≤◌, ◌≡◌, ap, ◌∙◌, String, false, ◌&&◌, ◌||◌, not, Option, none, some, List, [], ◌∷◌,
  ◌++◌, arith, All, filter-append, append-nil, str_eq, eq_iff, Bool-cases, inl, inr, ltb, length,
}
use guard_x.Common.Int.{ℤ}
use guard_x.Common.Sort.{sort_by, All-sort_by, IsSorted, sort_by-of_IsSorted}
use guard_x.Common.Result.{ok, >>=-eq-ok, subst_ok, raise_if-eq-ok, http, integrity_error}
use guard_x.Platform.{Platform}
use guard_x.Auth.Role.{Principal, Role, require_role}
use guard_x.Evidence.Event.{EventIn}
use guard_x.Evidence.Store.{
  GuardDecision, Head, Db, rows_of, in_chain, seq_lt, select_chain, find_head, put_head,
}
use guard_x.Evidence.Ingest.{
  Bucket, IngestResult, group, earlier, or_fresh, with_keys, append_events, ingest_bucket,
  ingest_buckets, constraints_hold, ingest,
}
use guard_x.Evidence.Verify.{verify_chain}
use guard_x.Evidence.Chained.{
  IsChained, IsChained-append, IsChained-length, good, verify_rows-of_IsChained,
}
use guard_x.Evidence.Consistent.{IsConsistent, IsCanonicalTs, IsExactKey, append_events-IsChained}
use guard_x.Evidence.Buckets.{
  InChain, RowInChain, IsBucket, group-IsBucket, with_keys-All, append_events-InChain, rows_of_self,
  rows_of_other, find_head-put_head, find_head_key,
}

module _ (py : Platform) where
  abbrev Outcome : Type 0
  Outcome = Db × List (String × (ℕ × Option String))

  abbrev IsKeyed : String → String → ℤ × EventIn → Type 0
  IsKeyed t a k = InChain t a k.1 × IsExactKey py k

  split_keys :
      (t a : String) (ks : List (ℤ × EventIn))
      → All (IsKeyed t a) ks
      → All (λ k. InChain t a k.1) ks × All (IsExactKey py) ks
  split_keys t a [] h = (tt, tt)
  split_keys t a (k ∷ ks) h = let (x, y) = split_keys t a ks h.1 in ((h.0.0, x), (h.0.1, y))

  module _ (now : ℤ) (b : Bucket) (db : Db) (h : Head) (rows : List GuardDecision) where
    abbrev extended : Db
    extended = record db {
      decisions = db.decisions ++ rows;
      heads = put_head (record h { updated_at = now }) db.heads;
    }

    module _ (ks : List (ℤ × EventIn))
        (e : append_events py (or_fresh b.tenant b.app (find_head b.tenant b.app db.heads)) ks
          ≡ ok (h, rows))
        (k : All (IsKeyed b.tenant b.app) ks) (c : IsConsistent py db) where
      abbrev facts : All (RowInChain b.tenant b.app) rows × (h.tenant ≡ b.tenant) × (h.app ≡ b.app)
      facts =
          let old = or_fresh b.tenant b.app (find_head b.tenant b.app db.heads) in
          let (own, et, ea) =
            append_events-InChain py b.tenant b.app old ks h rows e
              (split_keys b.tenant b.app ks k).0 in
          let (ot, oa) = find_head_key b.tenant b.app db.heads in (own, et ∙ ot, ea ∙ oa)

      own_head :
          or_fresh b.tenant b.app (find_head b.tenant b.app extended.heads)
          ≡ record h { updated_at = now }
      own_head = rw (
        find_head-put_head b.tenant b.app (record h { updated_at = now }) db.heads,
        (eq_iff h.tenant b.tenant).1 facts.1,
        (eq_iff h.app b.app).1 facts.2,
      )

      extended-own :
          let g = or_fresh b.tenant b.app (find_head b.tenant b.app extended.heads) in
          IsChained py 0 none (rows_of b.tenant b.app extended.decisions) g.chain_seq g.event_hash
      extended-own =
          let old = or_fresh b.tenant b.app (find_head b.tenant b.app db.heads) in
          rw
            (
              own_head,
              filter-append (in_chain b.tenant b.app) db.decisions rows,
              rows_of_self b.tenant b.app rows facts.0,
            )
            (IsChained-append py 0 none (rows_of b.tenant b.app db.decisions) old.chain_seq
              old.event_hash rows h.chain_seq h.event_hash (c b.tenant b.app)
              (append_events-IsChained py old ks h rows e (split_keys b.tenant b.app ks k).1))

      extended_other :
          (t a : String)
          → (str_eq b.tenant t && str_eq b.app a) ≡ false
          → let g = or_fresh t a (find_head t a extended.heads) in
            IsChained py 0 none (rows_of t a extended.decisions) g.chain_seq g.event_hash
      extended_other t a n =
          rw
            (
              find_head-put_head t a (record h { updated_at = now }) db.heads,
              facts.1,
              facts.2,
              n,
              filter-append (in_chain t a) db.decisions rows,
              rows_of_other b.tenant b.app t a rows n facts.0,
              append-nil (rows_of t a db.decisions),
            )
            (c t a)

      -- The chain of the bucket grows by its rows; every other chain keeps its rows and its head.
      extended-IsConsistent : IsConsistent py extended
      extended-IsConsistent t a = elim (Bool-cases (str_eq b.tenant t && str_eq b.app a)) [
        | inl same ↦
            subst₂
              (λ t' a'.
                let g = or_fresh t' a' (find_head t' a' extended.heads) in
                IsChained py 0 none (rows_of t' a' extended.decisions) g.chain_seq g.event_hash)
              (ground (arith, eq_iff b.tenant t)) (ground (arith, eq_iff b.app a)) extended-own
        | inr other ↦ extended_other t a other
      ]

  module _ (now : ℤ) where
    -- The events of a bucket belong to its chain and print as they were sent.
    abbrev IsGood : Bucket → Type 0
    IsGood = IsBucket (IsCanonicalTs py)

    ingest_bucket-IsConsistent :
        (b : Bucket) (s s' : Outcome)
        → ingest_bucket py now b s ≡ ok s'
        → IsGood b
        → IsConsistent py s.0
        → IsConsistent py s'.0
    unfolding ingest_bucket
    ingest_bucket-IsConsistent b (db, out) s' e g c =
        let old = or_fresh b.tenant b.app (find_head b.tenant b.app db.heads) in
        let (keyed, ek, e1) = >>=-eq-ok (with_keys py b.events) _ e in
        let (r, er, e2) = >>=-eq-ok (append_events py old (sort_by earlier keyed)) _ e1 in
        let all_keyed : All (IsKeyed b.tenant b.app) (sort_by earlier keyed) =
          All-sort_by earlier (IsKeyed b.tenant b.app) keyed (
            with_keys-All py (λ x. InChain b.tenant b.app x × IsCanonicalTs py x)
              (IsKeyed b.tenant b.app) (λ x t p q. (p.0, p.1 t q)) b.events keyed ek g) in
        subst_ok (λ p. IsConsistent py p.0) e2
          (extended-IsConsistent now b db r.0 r.1 (sort_by earlier keyed) er all_keyed c)

    ingest_buckets-IsConsistent :
        (bs : List Bucket) (s s' : Outcome)
        → ingest_buckets py now bs s ≡ ok s'
        → All IsGood bs
        → IsConsistent py s.0
        → IsConsistent py s'.0
    unfolding ingest_buckets
    ingest_buckets-IsConsistent [] s s' e g c = subst_ok (λ p. IsConsistent py p.0) e c
    ingest_buckets-IsConsistent (b ∷ bs) s s' e g c =
        let (m, em, e1) = >>=-eq-ok (ingest_bucket py now b s) _ e in
        ingest_buckets-IsConsistent bs m s' e1 g.1 (ingest_bucket-IsConsistent b s m em g.0 c)

    -- If every chain of the database is whole and ends at its head row, and the timestamp of each
    -- event of the batch prints as it was sent, then after an ingestion that returns every chain
    -- is whole and ends at its head row.
    pub ingest-IsConsistent :
        (p : Principal) (events : List EventIn) (db : Db) (out : Db × IngestResult)
        → ingest py p now events db ≡ ok out
        → All (IsCanonicalTs py) events
        → IsConsistent py db
        → IsConsistent py out.0
    unfolding ingest
    ingest-IsConsistent p events db out e g c =
        let (caller, _, e1) = >>=-eq-ok (require_role (Role.service ∷ Role.admin ∷ []) p) _ e in
        let (_, e2) =
          raise_if-eq-ok (ltb (length events) 1 || ltb 500 (length events)) (http 422) _ e1 in
        let (s, es, e3) = >>=-eq-ok (ingest_buckets py now (group events) (db, [])) _ e2 in
        let (_, e4) = raise_if-eq-ok (not (constraints_hold s.0)) integrity_error _ e3 in
        subst_ok (λ q. IsConsistent py q.0) e4
          (ingest_buckets-IsConsistent (group events) (db, []) s es
            (group-IsBucket (IsCanonicalTs py) events g) c)

  -- The rows of a whole chain are stored in the order of their numbers.
  IsChained-above :
      (n : ℕ) (h : Option String) (rs : List GuardDecision) (m : ℕ) (k : Option String) (low : ℕ)
      → low ≤ n
      → IsChained py n h rs m k
      → All (λ r. ltb r.chain_seq low ≡ false) rs
  IsChained-above n h [] m k low p c = tt
  IsChained-above n h (r ∷ rs) m k low p c = (
    ground (arith, c.0),
    IsChained-above (n + 1) (some r.event_hash) rs m k low (omega arith) c.3,
  )

  IsChained-IsSorted :
      (n : ℕ) (h : Option String) (rs : List GuardDecision) (m : ℕ) (k : Option String)
      → IsChained py n h rs m k
      → IsSorted seq_lt rs
  IsChained-IsSorted n h [] m k c = tt
  IsChained-IsSorted n h (r ∷ rs) m k c = (
    rw c.0 (IsChained-above (n + 1) (some r.event_hash) rs m k (n + 1) (omega arith) c.3),
    IsChained-IsSorted (n + 1) (some r.event_hash) rs m k c.3,
  )

  -- Over a database whose chains are whole and end at their head rows, the verifier reports
  -- success for every tenant and app, and its head is that of the head row.
  pub verify_chain-of_IsConsistent :
      (t a : String) (db : Db)
      → IsConsistent py db
      → let h = or_fresh t a (find_head t a db.heads) in
        verify_chain py t a db ≡ ok (good h.chain_seq h.event_hash)
  unfolding verify_chain select_chain
  verify_chain-of_IsConsistent t a db c =
      let h = or_fresh t a (find_head t a db.heads) in
      let rows = rows_of t a db.decisions in
      rw
        (sort_by-of_IsSorted seq_lt rows
          (IsChained-IsSorted 0 none rows h.chain_seq h.event_hash (c t a)))
        (verify_rows-of_IsChained py (length rows) 0 none rows h.chain_seq h.event_hash (c t a)
          ∙ ap (λ n. ok (good n h.event_hash))
              (omega (arith, IsChained-length py 0 none rows h.chain_seq h.event_hash (c t a))))
