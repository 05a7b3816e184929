-- ===== src/Evidence/Chained.antt =====
-- The hash chain as a predicate on rows, and what the verifier says of such rows.
use mathlib.Core.Path.{subst}
use guard_x.Common.{
  ℕ, ◌+◌, ◌≡◌, refl, inl, inr, String, true, Option, none, some, List, [], ◌∷◌, ◌++◌, arith, length,
  eq_iff, eq_refl,
}
use guard_x.Common.Result.{ok, Result-cases}
use guard_x.Platform.{Platform}
use guard_x.Evidence.Store.{GuardDecision}
use guard_x.Evidence.Verify.{ChainVerifyReport, recomputed_hash, verify_rows, opt_eq}

module _ (py : Platform) where
  -- The rows follow a head `(n, h)` and lead to a head `(m, k)`: consecutive numbers, each row
  -- names the hash of the one before it, and stores the hash of its own canonical bytes.
  abbrev pub IsChained : ℕ → Option String → List GuardDecision → ℕ → Option String → Type 0
  IsChained n h [] m k = (n ≡ m) × (h ≡ k)
  IsChained n h (r ∷ rs) m k =
      (r.chain_seq ≡ n + 1)
      × (r.prev_event_hash ≡ h)
      × (recomputed_hash py r ≡ ok r.event_hash)
      × IsChained (n + 1) (some r.event_hash) rs m k

  pub IsChained-append :
      (n : ℕ) (h : Option String) (rs : List GuardDecision) (m : ℕ) (k : Option String)
      (ss : List GuardDecision) (l : ℕ) (j : Option String)
      → IsChained n h rs m k
      → IsChained m k ss l j
      → IsChained n h (rs ++ ss) l j
  IsChained-append n h [] m k ss l j c d = rw (c.0, c.1) d
  IsChained-append n h (r ∷ rs) m k ss l j c d =
      (c.0, c.1, c.2, IsChained-append (n + 1) (some r.event_hash) rs m k ss l j c.3 d)

  pub IsChained-length :
      (n : ℕ) (h : Option String) (rs : List GuardDecision) (m : ℕ) (k : Option String)
      → IsChained n h rs m k
      → n + length rs ≡ m
  IsChained-length n h [] m k c = omega arith
  IsChained-length n h (r ∷ rs) m k c =
      omega (arith, IsChained-length (n + 1) (some r.event_hash) rs m k c.3)

pub opt_eq_refl : (o : Option String) → opt_eq o o ≡ true
opt_eq_refl none = refl
opt_eq_refl (some s) = eq_refl s

pub opt_eq_sound : (o p : Option String) → opt_eq o p ≡ true → o ≡ p
opt_eq_sound none none h = refl
opt_eq_sound none (some t) h = cc
opt_eq_sound (some s) none h = cc
opt_eq_sound (some s) (some t) h = ground (arith, eq_iff s t)

abbrev pub good : ℕ → Option String → ChainVerifyReport
good total k = record {
  checked = total;
  is_ok = true;
  first_bad_seq = none;
  reason = none;
  head = some (total, k);
}

module _ (py : Platform) where
  pub verify_rows-of_IsChained :
      (total n : ℕ) (h : Option String) (rs : List GuardDecision) (m : ℕ) (k : Option String)
      → IsChained py n h rs m k
      → verify_rows py total (n + 1) h rs ≡ ok (good total k)
  unfolding verify_rows
  verify_rows-of_IsChained total n h [] m k c = rw c.1
  verify_rows-of_IsChained total n h (r ∷ rs) m k c = ground (
    arith,
    eq_refl r.event_hash,
    opt_eq_refl h,
    verify_rows-of_IsChained total (n + 1) (some r.event_hash) rs m k c.3,
  )

  -- A round after which the report is a success has passed the three tests.
  verify_rows-step :
      (total n : ℕ) (h : Option String) (r : GuardDecision) (rs : List GuardDecision)
      (rep : ChainVerifyReport)
      → verify_rows py total (n + 1) h (r ∷ rs) ≡ ok rep
      → rep.is_ok ≡ true
      → (r.chain_seq ≡ n + 1)
        × (r.prev_event_hash ≡ h)
        × (recomputed_hash py r ≡ ok r.event_hash)
        × (verify_rows py total (n + 1 + 1) (some r.event_hash) rs ≡ ok rep)
  unfolding verify_rows
  verify_rows-step total n h r rs rep e g = elim (Result-cases (recomputed_hash py r)) [
    | inl (c, f) ↦ ground (arith, opt_eq_sound r.prev_event_hash h, eq_iff c r.event_hash)
    | inr (x, f) ↦ ground (arith, opt_eq_sound r.prev_event_hash h)
  ]

  -- A loop that reports success has checked every row.
  pub IsChained-of_verify_rows :
      (total n : ℕ) (h : Option String) (rs : List GuardDecision) (rep : ChainVerifyReport)
      → verify_rows py total (n + 1) h rs ≡ ok rep
      → rep.is_ok ≡ true
      → (k : Option String) × IsChained py n h rs (n + length rs) k × (rep ≡ good total k)
  unfolding verify_rows
  IsChained-of_verify_rows total n h [] rep e g = (h, (omega arith, refl), cc)
  IsChained-of_verify_rows total n h (r ∷ rs) rep e g =
      let (a, b, c, d) = verify_rows-step total n h r rs rep e g in
      let (k, ch, q) = IsChained-of_verify_rows total (n + 1) (some r.event_hash) rs rep d g in
      (
        k,
        (a, b, c, subst (λ x. IsChained py (n + 1) (some r.event_hash) rs x k) (omega arith) ch),
        q,
      )
