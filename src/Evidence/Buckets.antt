-- ===== src/Evidence/Buckets.antt =====
-- Which events and rows belong to which chain: the buckets of a batch, the rows that a bucket
-- adds, and the head rows.
use guard_x.Common.{
  ◌≡◌, refl, ◌∙◌, String, false, ◌&&◌, some, List, [], ◌∷◌, ◌++◌, arith, All, eq_iff, str_eq,
  Bool-cases, inl, inr, if◌then◌else◌,
}
use guard_x.Common.Int.{ℤ}
use guard_x.Common.Result.{ok, >>=-eq-ok, subst_ok}
use guard_x.Platform.{Platform}
use guard_x.Evidence.Event.{EventIn}
use guard_x.Evidence.Timestamp.{parse_ts}
use guard_x.Evidence.Chain.{compute_event_hash}
use guard_x.Evidence.Store.{GuardDecision, Head, rows_of, find_head, put_head, is_head_of}
use guard_x.Evidence.Ingest.{
  Bucket, add_to_bucket, group_from, group, or_fresh, payload, advance, with_keys, append_events,
}
use guard_x.Evidence.Consistent.{payload-Kept}

abbrev pub InChain : String → String → EventIn → Type 0
InChain t a e = (e.tenant ≡ t) × (e.app ≡ a)

abbrev pub RowInChain : String → String → GuardDecision → Type 0
RowInChain t a r = (r.tenant ≡ t) × (r.app ≡ a)

pub All-append {ℓ} :
    {A : Type 0} (P : A → Type ℓ) (xs ys : List A) → All P xs → All P ys → All P (xs ++ ys)
All-append P [] ys h k = k
All-append P (x ∷ xs) ys h k = (h.0, All-append P xs ys h.1 k)

-- Every bucket holds events of its own chain only, and only events of the batch.
module _ (P : EventIn → Type 0) where
  abbrev pub IsBucket : Bucket → Type 0
  IsBucket b = All (λ e. InChain b.tenant b.app e × P e) b.events

  add_to_bucket-IsBucket :
      (e : EventIn) (bs : List Bucket) → P e → All IsBucket bs → All IsBucket (add_to_bucket e bs)
  unfolding add_to_bucket
  add_to_bucket-IsBucket e [] p h = ((((refl, refl), p), tt), tt)
  add_to_bucket-IsBucket e (b ∷ bs) p h =
      elim (Bool-cases (str_eq e.tenant b.tenant && str_eq e.app b.app)) [
        | inl same ↦ rw same (
          All-append (λ x. InChain b.tenant b.app x × P x) b.events (e ∷ []) h.0
              (
                ((ground (arith, eq_iff e.tenant b.tenant), ground (arith, eq_iff e.app b.app)), p),
                tt,
              ),
          h.1,
        )
        | inr other ↦ rw other (h.0, add_to_bucket-IsBucket e bs p h.1)
      ]

  group_from-IsBucket :
      (es : List EventIn) (bs : List Bucket)
      → All P es
      → All IsBucket bs
      → All IsBucket (group_from es bs)
  unfolding group_from
  group_from-IsBucket [] bs h k = k
  group_from-IsBucket (e ∷ es) bs h k =
      group_from-IsBucket es (add_to_bucket e bs) h.1 (add_to_bucket-IsBucket e bs h.0 k)

  pub group-IsBucket : (es : List EventIn) → All P es → All IsBucket (group es)
  unfolding group
  group-IsBucket es h = group_from-IsBucket es [] h tt

module _ (py : Platform) where
  -- A fact of each event, and of its parsed timestamp, holds of the keyed list.
  pub with_keys-All :
      (P : EventIn → Type 0) (Q : ℤ × EventIn → Type 0)
      → ((e : EventIn) (t : ℤ) → P e → parse_ts py e.ts ≡ ok t → Q (t, e))
      → (es : List EventIn) (ks : List (ℤ × EventIn)) → with_keys py es ≡ ok ks
      → All P es
      → All Q ks
  unfolding with_keys
  with_keys-All P Q f [] ks e h = subst_ok (All Q) e tt
  with_keys-All P Q f (x ∷ es) ks e h =
      let (t, et, e1) = >>=-eq-ok (parse_ts py x.ts) _ e in
      let (rest, er, e2) = >>=-eq-ok (with_keys py es) _ e1 in
      subst_ok (All Q) e2 (f x t h.0 et, with_keys-All P Q f es rest er h.1)

  -- The rows that a bucket adds belong to its chain, and the head keeps its key.
  pub append_events-InChain :
      (t a : String) (h : Head) (ks : List (ℤ × EventIn)) (h' : Head) (rows : List GuardDecision)
      → append_events py h ks ≡ ok (h', rows)
      → All (λ k. InChain t a k.1) ks
      → All (RowInChain t a) rows × (h'.tenant ≡ h.tenant) × (h'.app ≡ h.app)
  unfolding append_events
  append_events-InChain t a h [] h' rows e c =
      subst_ok (λ p. All (RowInChain t a) p.1 × (p.0.tenant ≡ h.tenant) × (p.0.app ≡ h.app)) e
        (tt, refl, refl)
  append_events-InChain t a h ((at, ev) ∷ ks) h' rows e c =
      let (hash, eh, e1) = >>=-eq-ok (compute_event_hash py (payload h ev)) _ e in
      let (s, es, e2) = >>=-eq-ok (append_events py (advance h hash) ks) _ e1 in
      let (all_rows, et, ea) = append_events-InChain t a (advance h hash) ks s.0 s.1 es c.1 in
      subst_ok (λ p. All (RowInChain t a) p.1 × (p.0.tenant ≡ h.tenant) × (p.0.app ≡ h.app)) e2
        (
          (((payload-Kept py h ev).tenant ∙ c.0.0, (payload-Kept py h ev).app ∙ c.0.1), all_rows),
          et,
          ea,
        )

pub rows_of_self :
    (t a : String) (rows : List GuardDecision) → All (RowInChain t a) rows → rows_of t a rows ≡ rows
rows_of_self t a [] h = refl
rows_of_self t a (r ∷ rows) h =
    ground (arith, eq_iff r.tenant t, eq_iff r.app a, rows_of_self t a rows h.1)

pub rows_of_other :
    (t a t' a' : String) (rows : List GuardDecision)
    → (str_eq t t' && str_eq a a') ≡ false
    → All (RowInChain t a) rows
    → rows_of t' a' rows ≡ []
rows_of_other t a t' a' [] n h = refl
rows_of_other t a t' a' (r ∷ rows) n h = rw (h.0.0, h.0.1, n) (rows_of_other t a t' a' rows n h.1)

pub find_head-put_head :
    (t a : String) (h : Head) (hs : List Head)
    → find_head t a (put_head h hs) ≡ (if is_head_of t a h then some h else find_head t a hs)
unfolding find_head put_head
find_head-put_head t a h [] = refl
find_head-put_head t a h (g ∷ hs) = ground (
  arith,
  eq_iff h.tenant t,
  eq_iff h.app a,
  eq_iff g.tenant t,
  eq_iff g.app a,
  eq_iff g.tenant h.tenant,
  eq_iff g.app h.app,
  find_head-put_head t a h hs,
)

pub find_head_key :
    (t a : String) (hs : List Head)
    → let h = or_fresh t a (find_head t a hs) in (h.tenant ≡ t) × (h.app ≡ a)
unfolding find_head
find_head_key t a [] = (refl, refl)
find_head_key t a (g ∷ hs) = elim (Bool-cases (is_head_of t a g)) [
  | inl same ↦ rw same (ground (arith, eq_iff g.tenant t), ground (arith, eq_iff g.app a))
  | inr other ↦ rw other (find_head_key t a hs)
]
