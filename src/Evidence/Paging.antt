-- ===== src/Evidence/Paging.antt =====
-- api/evidence.py: what a page of `list_events` holds.
use mathlib.Core.Path.{subst}
use guard_x.Common.{
  ℕ, ◌+◌, ◌≤◌, ◌≡◌, refl, sym, ap, ◌∙◌, ◌⊎◌, zero, suc, String, Bool, true, ◌&&◌, ◌||◌, Option,
  none, some, List, [], ◌∷◌, ◌++◌, arith, All, Bool-cases, inl, inr, map, filter, length, ltb,
}
use guard_x.Common.Sort.{sort_by, filter-sort_by}
use guard_x.Common.Result.{ok, http, raise_if-eq-ok, subst_ok}
use guard_x.Platform.{Platform}
use guard_x.Evidence.Timestamp.{print_ts}
use guard_x.Evidence.Store.{GuardDecision, Db, in_chain, seq_lt, rows_of, select_chain}
use guard_x.Evidence.Verify.{ChainVerifyReport, row_to_event, verify_chain}
use guard_x.Evidence.Chained.{IsChained}
use guard_x.Evidence.Detect.{verify_chain_sound}
use guard_x.Evidence.Query.{limit, EventOut, event_out, list_events}

-- The rows have the numbers that follow `n`.
abbrev pub Follows : ℕ → List GuardDecision → Type 0
Follows n [] = Unit
Follows n (r ∷ rs) = (r.chain_seq ≡ n + 1) × Follows (n + 1) rs

abbrev is_after : ℕ → GuardDecision → Bool
is_after since r = ltb since r.chain_seq

filter_and :
    (p q : GuardDecision → Bool) (rs : List GuardDecision)
    → filter (λ r. p r && q r) rs ≡ filter q (filter p rs)
filter_and p q [] = refl
filter_and p q (r ∷ rs) = elim (Bool-cases (p r)) [
  | inl hit ↦ rw (hit, filter_and p q rs)
  | inr miss ↦ rw (miss, filter_and p q rs)
]

filter_all :
    (since n : ℕ) (rs : List GuardDecision)
    → since ≤ n
    → Follows n rs
    → filter (is_after since) rs ≡ rs
filter_all since n [] l h = refl
filter_all since n (r ∷ rs) l h =
    let after : ltb since r.chain_seq ≡ true = ground (arith, h.0) in
    rw (after, filter_all since (n + 1) rs (omega arith) h.1)

-- The rows up to a number, and those above it, which follow it.
abbrev IsSplit : ℕ → List GuardDecision → Type 0
IsSplit since rs =
    (before : List GuardDecision) × (rs ≡ before ++ filter (is_after since) rs)
    × All (λ r. r.chain_seq ≤ since) before
    × Follows since (filter (is_after since) rs)

Follows-IsSplit :
    (since n : ℕ) (rs : List GuardDecision) → n ≤ since → Follows n rs → IsSplit since rs
Follows-IsSplit since n [] l h = ([], refl, tt, tt)
Follows-IsSplit since n (r ∷ rs) l h = elim (Bool-cases (ltb since r.chain_seq)) [
  | inl after ↦
      let same : since ≡ n = ground (arith, h.0) in
      rw (after, filter_all since (n + 1) rs (omega arith) h.1)
        ([], refl, tt, (omega (arith, h.0), rw same h.1))
  | inr upto ↦
      let (before, e, a, f) = Follows-IsSplit since (n + 1) rs (ground (arith, h.0)) h.1 in
      rw upto (r ∷ before, ap (λ l. r ∷ l) e, (ground arith, a), f)
]

module _ (py : Platform) where
  -- The event of a row: what is stored of it, and its hash.
  abbrev pub IsEventOf : GuardDecision → EventOut → Type 0
  IsEventOf r (e, hash) =
      (e.ts ≡ print_ts py r.at)
      × (e.body ≡ r.body)
      × (e.chain_seq ≡ r.chain_seq)
      × (e.prev_event_hash ≡ r.prev_event_hash)
      × (e.payload_ref ≡ none)
      × (hash ≡ r.event_hash)

  abbrev pub AreEventsOf : List GuardDecision → List EventOut → Type 0
  AreEventsOf [] [] = Unit
  AreEventsOf (r ∷ rs) (o ∷ os) = IsEventOf r o × AreEventsOf rs os
  AreEventsOf _ _ = ⊥

  event_out-AreEventsOf : (rs : List GuardDecision) → AreEventsOf rs (map (event_out py) rs)
  unfolding row_to_event
  event_out-AreEventsOf [] = tt
  event_out-AreEventsOf (r ∷ rs) = ((refl, refl, refl, refl, refl, refl), event_out-AreEventsOf rs)

  -- A page of at most `n` events that follow number `since` in a chain. The chain consists of the rows
  -- up to that number, the rows of the page and the rest; the numbers of the page and the rest
  -- follow `since` without a gap, and there is a rest only behind a full page.
  abbrev pub IsPage : ℕ → ℕ → List GuardDecision → List EventOut → Type 0
  IsPage since n chain out =
      (before : List GuardDecision) × (picked : List GuardDecision) × (rest : List GuardDecision)
      × (chain ≡ before ++ (picked ++ rest))
      × All (λ r. r.chain_seq ≤ since) before
      × Follows since (picked ++ rest)
      × AreEventsOf picked out
      × (length out ≤ n)
      × ((length out ≡ n) ⊎ (rest ≡ []))

  IsChained-Follows :
      (n : ℕ) (h : Option String) (rs : List GuardDecision) (m : ℕ) (k : Option String)
      → IsChained py n h rs m k
      → Follows n rs
  IsChained-Follows n h [] m k c = tt
  IsChained-Follows n h (r ∷ rs) m k c =
      (c.0, IsChained-Follows (n + 1) (some r.event_hash) rs m k c.3)

  -- The first rows, and the rest: either all places are taken, or nothing is left.
  limit-rest :
      (n : ℕ) (rs : List GuardDecision)
      → (rest : List GuardDecision) × (rs ≡ limit n rs ++ rest)
        × (length (map (event_out py) (limit n rs)) ≤ n)
        × ((length (map (event_out py) (limit n rs)) ≡ n) ⊎ (rest ≡ []))
  unfolding limit
  limit-rest zero rs = (rs, refl, omega arith, inl refl)
  limit-rest (suc n) [] = ([], refl, omega arith, inr refl)
  limit-rest (suc n) (r ∷ rs) =
      let (rest, e, l, f) = limit-rest n rs in
      (rest, ap (λ l. r ∷ l) e, omega (arith, l), ground (arith, f))

  limit-IsPage :
      (since n : ℕ) (chain : List GuardDecision)
      → Follows 0 chain
      → IsPage since n chain (map (event_out py) (limit n (filter (is_after since) chain)))
  limit-IsPage since n chain h =
      let later = filter (is_after since) chain in
      let (before, e, a, f) = Follows-IsSplit since 0 chain (omega arith) h in
      let (rest, e', l, full) = limit-rest n later in
      (
        before,
        limit n later,
        rest,
        e ∙ ap (λ l. before ++ l) e',
        a,
        subst (Follows since) e' f,
        event_out-AreEventsOf (limit n later),
        l,
        full,
      )

  -- The rows that the query selects are those of the chain above the number.
  selected :
      (t a : String) (since : ℕ) (db : Db)
      → sort_by seq_lt (filter (λ r. in_chain t a r && is_after since r) db.decisions)
        ≡ filter (is_after since) (select_chain t a db)
  unfolding select_chain
  selected t a since db =
      ap (sort_by seq_lt) (filter_and (in_chain t a) (is_after since) db.decisions)
      ∙ sym (
          filter-sort_by seq_lt (λ r s h. ground arith) (λ r s u h k. ground arith) (is_after since)
            (rows_of t a db.decisions))

  -- If the verifier reports success on a chain, then a listing of it that returns is a page of it: the
  -- events, with all their contents, of the rows whose numbers follow `since`, in order and without a
  -- gap, for at most `n` rows, of 1 to 5000 that may be asked for, and either `n` of them or all up to
  -- the end of the chain. The rows may be stored in any order.
  pub list_events-IsPage :
      (t a : String) (since n : ℕ) (db : Db) (rep : ChainVerifyReport) (out : List EventOut)
      → list_events py t a since n db ≡ ok out
      → verify_chain py t a db ≡ ok rep
      → rep.is_ok ≡ true
      → (1 ≤ n) × (n ≤ 5000) × IsPage since n (select_chain t a db) out
  unfolding list_events
  list_events-IsPage t a since n db rep out e v g =
      let (l, e1) = raise_if-eq-ok (ltb n 1 || ltb 5000 n) (http 422) _ e in
      let (k, c, _) = verify_chain_sound py t a db rep v g in
      let chain = select_chain t a db in
      let run = IsChained-Follows 0 none chain (length chain) k c in
      (
        ground arith,
        ground arith,
        subst_ok (IsPage since n chain) e1 (
            subst (λ l. IsPage since n chain (map (event_out py) (limit n l)))
              (sym (selected t a since db)) (limit-IsPage since n chain run)),
      )
