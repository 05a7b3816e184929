-- ===== src/Evidence/Detect.antt =====
-- What the verifier detects, and what it cannot.
use mathlib.Core.Path.{subst}
use guard_x.Common.{
  ℕ, ◌+◌, ◌≡◌, ◌≢◌, refl, ◌∙◌, String, Bool, true, Option, none, some, List, [], ◌∷◌, ◌++◌, arith,
  length, eq_iff, eq_refl, map,
}
use guard_x.Common.Result.{ok}
use guard_x.Platform.{Platform}
use guard_x.Evidence.Store.{GuardDecision, Db, select_chain}
use guard_x.Evidence.Verify.{
  ChainVerifyReport, Reason, bad, recomputed_hash, verify_rows, verify_chain,
}
use guard_x.Evidence.Chained.{
  IsChained, IsChained-of_verify_rows, verify_rows-of_IsChained, good, opt_eq_refl, opt_eq_sound,
}

module _ (py : Platform) where
  -- If the verifier reports success, the rows in the order of their numbers are numbered 1, 2, …,
  -- each names the stored hash of the one before it, and each stores the hash of what it holds.
  pub verify_chain_sound :
      (t a : String) (db : Db) (rep : ChainVerifyReport)
      → verify_chain py t a db ≡ ok rep
      → rep.is_ok ≡ true
      → (k : Option String) × IsChained py 0 none
          (select_chain t a db)
          (length (select_chain t a db))
          k
        × (rep ≡ good (length (select_chain t a db)) k)
  unfolding verify_chain
  verify_chain_sound t a db rep e g =
      let rows = select_chain t a db in
      let (k, c, q) = IsChained-of_verify_rows py (length rows) 0 none rows rep e g in
      (k, subst (λ n. IsChained py 0 none rows n k) (omega arith) c, q)

  -- Behind a prefix that passes, the loop goes on with the rest of the rows.
  verify_rows_prefix :
      (total n : ℕ) (h : Option String) (rs : List GuardDecision) (m : ℕ) (k : Option String)
      (ss : List GuardDecision)
      → IsChained py n h rs m k
      → verify_rows py total (n + 1) h (rs ++ ss) ≡ verify_rows py total (m + 1) k ss
  unfolding verify_rows
  verify_rows_prefix total n h [] m k ss c = rw (c.0, c.1)
  verify_rows_prefix total n h (r ∷ rs) m k ss c = ground (
    arith,
    eq_refl r.event_hash,
    opt_eq_refl h,
    verify_rows_prefix total (n + 1) (some r.event_hash) rs m k ss c.3,
  )

  -- If the rows before it are a whole chain, and a row has the right number and the right previous
  -- hash, but its contents hash to something else than the hash that it stores, the verifier
  -- reports that row: its number, the reason, and as checked the rows before it.
  pub verify_chain_edited :
      (t a : String) (db : Db) (rs : List GuardDecision) (m : ℕ) (k : Option String)
      (r : GuardDecision) (ss : List GuardDecision) (hash : String)
      → select_chain t a db ≡ rs ++ (r ∷ ss)
      → IsChained py 0 none rs m k
      → r.chain_seq ≡ m + 1
      → r.prev_event_hash ≡ k
      → recomputed_hash py r ≡ ok hash
      → hash ≢ r.event_hash
      → verify_chain py t a db ≡ ok (bad (m + 1) r Reason.event_hash_mismatch)
  unfolding verify_chain verify_rows
  verify_chain_edited t a db rs m k r ss hash e c seq prev h ne = rw e (
      verify_rows_prefix (length (rs ++ (r ∷ ss))) 0 none rs m k (r ∷ ss) c
      ∙ ground (arith, opt_eq_refl k, eq_iff hash r.event_hash))

  -- If a row behind a whole chain names another previous hash, as after a deletion followed by a
  -- renumbering, the verifier reports that row.
  pub verify_chain_relinked :
      (t a : String) (db : Db) (rs : List GuardDecision) (m : ℕ) (k : Option String)
      (r : GuardDecision) (ss : List GuardDecision)
      → select_chain t a db ≡ rs ++ (r ∷ ss)
      → IsChained py 0 none rs m k
      → r.chain_seq ≡ m + 1
      → r.prev_event_hash ≢ k
      → verify_chain py t a db ≡ ok (bad (m + 1) r Reason.prev_hash_mismatch)
  unfolding verify_chain verify_rows
  verify_chain_relinked t a db rs m k r ss e c seq ne = rw e (
      verify_rows_prefix (length (rs ++ (r ∷ ss))) 0 none rs m k (r ∷ ss) c
      ∙ ground (arith, opt_eq_sound r.prev_event_hash k))

  -- If a row behind a whole chain has another number than the next one, the verifier reports a
  -- gap at that row.
  pub verify_chain_gap :
      (t a : String) (db : Db) (rs : List GuardDecision) (m : ℕ) (k : Option String)
      (r : GuardDecision) (ss : List GuardDecision)
      → select_chain t a db ≡ rs ++ (r ∷ ss)
      → IsChained py 0 none rs m k
      → r.chain_seq ≢ m + 1
      → verify_chain py t a db ≡ ok (bad (m + 1) r Reason.seq_gap)
  unfolding verify_chain verify_rows
  verify_chain_gap t a db rs m k r ss e c ne =
      rw e (verify_rows_prefix (length (rs ++ (r ∷ ss))) 0 none rs m k (r ∷ ss) c ∙ ground arith)

  IsChained-prefix :
      (n : ℕ) (h : Option String) (rs ss : List GuardDecision) (m : ℕ) (k : Option String)
      → IsChained py n h (rs ++ ss) m k
      → (j : Option String) × IsChained py n h rs (n + length rs) j
  IsChained-prefix n h [] ss m k c = (h, (omega arith, refl))
  IsChained-prefix n h (r ∷ rs) ss m k c =
      let (j, d) = IsChained-prefix (n + 1) (some r.event_hash) rs ss m k c.3 in
      (
        j,
        (
          c.0,
          c.1,
          c.2,
          subst (λ x. IsChained py (n + 1) (some r.event_hash) rs x j) (omega arith) d,
        ),
      )

  -- If the verifier reports success and the newest rows of that chain are then deleted, it still
  -- reports success, over the rows that are left.
  pub verify_chain_truncated :
      (t a : String) (db db' : Db) (lost : List GuardDecision) (rep : ChainVerifyReport)
      → verify_chain py t a db ≡ ok rep
      → rep.is_ok ≡ true
      → select_chain t a db ≡ select_chain t a db' ++ lost
      → (j : Option String) × (verify_chain py t a db'
          ≡ ok (good (length (select_chain t a db')) j))
  unfolding verify_chain
  verify_chain_truncated t a db db' lost rep e g s =
      let (k, c, _) = verify_chain_sound t a db rep e g in
      let rows = select_chain t a db' in
      let (j, d) =
        IsChained-prefix 0 none rows lost (length (select_chain t a db)) k
          (subst (λ l. IsChained py 0 none l (length (select_chain t a db)) k) s c) in
      (j, verify_rows-of_IsChained py (length rows) 0 none rows (0 + length rows) j d)

  -- The shadow flag of a row, set anew.
  abbrev pub set_shadow : Bool → GuardDecision → GuardDecision
  set_shadow b r = record r { body = record r.body { is_shadow = b } }

  recomputed_hash-set_shadow :
      (b : Bool) (r : GuardDecision) → recomputed_hash py (set_shadow b r) ≡ recomputed_hash py r
  unfolding recomputed_hash
  recomputed_hash-set_shadow b r = refl

  -- Whatever shadow flags the rows are given, the verdict of the loop over them is the same.
  pub verify_rows-set_shadow :
      (b : Bool) (total expected : ℕ) (prev : Option String) (rs : List GuardDecision)
      → verify_rows py total expected prev (map (set_shadow b) rs)
        ≡ verify_rows py total expected prev rs
  unfolding verify_rows
  verify_rows-set_shadow b total expected prev [] = refl
  verify_rows-set_shadow b total expected prev (r ∷ rs) = rw (
    recomputed_hash-set_shadow b r,
    verify_rows-set_shadow b total (expected + 1) (some r.event_hash) rs,
  )
