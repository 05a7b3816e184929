-- ===== src/Evidence/Added.antt =====
-- What ingestion adds: one row for each event of the batch, with its contents.
use mathlib.Core.List.{Perm, perm_middle, map-append}
use mathlib.Core.List.Perm
use mathlib.Core.Path.{subst}
use guard_x.Common.{
  ℕ, ◌≤◌, ◌≡◌, refl, sym, ap, ◌∙◌, String, ◌||◌, not, Option, none, List, [], ◌∷◌, ◌++◌, arith,
  length, ltb, map, append_assoc, append-nil, str_eq, ◌&&◌, Bool-cases, inl, inr, eq_iff,
  if◌then◌else◌,
}
use guard_x.Common.Int.{ℤ}
use guard_x.Common.Sort.{sort_by, sort_by-perm}
use guard_x.Common.Result.{Result, ok, >>=-eq-ok, subst_ok, raise_if-eq-ok, http, integrity_error}
use guard_x.Platform.{Platform}
use guard_x.Auth.Role.{Principal, Role, require_role}
use guard_x.Evidence.Event.{EventBody, EventIn}
use guard_x.Evidence.Timestamp.{parse_ts}
use guard_x.Evidence.Minimizer.{minimize_event, effective_mode}
use guard_x.Evidence.Chain.{compute_event_hash}
use guard_x.Evidence.Store.{GuardDecision, Head, Db, find_head}
use guard_x.Evidence.Ingest.{
  Bucket, IngestResult, add_to_bucket, group_from, group, earlier, or_fresh, payload, advance,
  with_keys, append_events, ingest_bucket, ingest_buckets, constraints_hold, ingest,
}

-- What is stored of an event: all of it, but no spans where its evidence mode is "none".
abbrev pub stored_body : EventIn → EventBody
stored_body e = if str_eq e.evidence_mode "none" then record e.body { spans = none } else e.body

mode_is_none : (m : String) → str_eq (effective_mode m) "none" ≡ str_eq m "none"
mode_is_none m = elim (Bool-cases (str_eq m "")) [
  | inl empty ↦ let none_given : m ≡ "" = ground (arith, eq_iff m "") in rw none_given
  | inr given ↦ rw given
]

perm_snoc : (e : EventIn) (es : List EventIn) → Perm (es ++ e ∷ []) (e ∷ es)
perm_snoc e es = subst (λ l. Perm (es ++ e ∷ []) (e ∷ l)) (append-nil es) (perm_middle es [])

payload-body : (h : Head) (e : EventIn) → (payload h e).body ≡ stored_body e
unfolding minimize_event
payload-body h e = ground (arith, mode_is_none e.evidence_mode)

-- What is stored, and the time of the row.
abbrev pub Content : Type 0
Content = EventBody × Result ℤ

abbrev pub row_content : GuardDecision → Content
row_content r = (r.body, ok r.at)

abbrev key_content : ℤ × EventIn → Content
key_content k = (stored_body k.1, ok k.0)

-- The events of all buckets.
unfoldable pooled : List Bucket → List EventIn
pooled [] = []
pooled (b ∷ bs) = b.events ++ pooled bs

add_to_bucket-perm :
    (e : EventIn) (bs : List Bucket) → Perm (pooled (add_to_bucket e bs)) (pooled bs ++ e ∷ [])
unfolding pooled add_to_bucket
add_to_bucket-perm e [] = Perm.refl (e ∷ [])
add_to_bucket-perm e (b ∷ bs) = elim (Bool-cases (str_eq e.tenant b.tenant && str_eq e.app b.app)) [
  | inl same ↦ rw same (
      subst (λ l. Perm l ((b.events ++ pooled bs) ++ e ∷ []))
        (sym (append_assoc b.events (e ∷ []) (pooled bs)))
        (subst (λ l. Perm (b.events ++ (e ∷ pooled bs)) l)
          (sym (append_assoc b.events (pooled bs) (e ∷ [])))
          (Perm.append_left b.events (Perm.symm (perm_snoc e (pooled bs))))))
  | inr other ↦ rw other (
      subst (λ l. Perm (b.events ++ pooled (add_to_bucket e bs)) l)
        (sym (append_assoc b.events (pooled bs) (e ∷ [])))
        (Perm.append_left b.events (add_to_bucket-perm e bs)))
]

group_from-perm :
    (es : List EventIn) (bs : List Bucket) → Perm (pooled (group_from es bs)) (pooled bs ++ es)
unfolding group_from
group_from-perm [] bs =
    subst (λ l. Perm (pooled bs) l) (sym (append-nil (pooled bs))) (Perm.refl (pooled bs))
group_from-perm (e ∷ es) bs = Perm.trans (group_from-perm es (add_to_bucket e bs)) (
    subst (λ l. Perm (pooled (add_to_bucket e bs) ++ es) l) (append_assoc (pooled bs) (e ∷ []) es)
      (Perm.append_right es (add_to_bucket-perm e bs)))

module _ (py : Platform) where
  -- What is stored of an event, and its parsed timestamp.
  abbrev pub event_content : EventIn → Content
  event_content e = (stored_body e, parse_ts py e.ts)

  with_keys-content :
      (es : List EventIn) (ks : List (ℤ × EventIn))
      → with_keys py es ≡ ok ks
      → map key_content ks ≡ map event_content es
  unfolding with_keys
  with_keys-content [] ks e = subst_ok (λ l. map key_content l ≡ []) e refl
  with_keys-content (x ∷ es) ks e =
      let (t, et, e1) = >>=-eq-ok (parse_ts py x.ts) _ e in
      let (rest, er, e2) = >>=-eq-ok (with_keys py es) _ e1 in
      subst_ok (λ l. map key_content l ≡ event_content x ∷ map event_content es) e2
        (rw et (ap (λ l. (stored_body x, ok t) ∷ l) (with_keys-content es rest er)))

  append_events-content :
      (h : Head) (ks : List (ℤ × EventIn)) (out : Head × List GuardDecision)
      → append_events py h ks ≡ ok out
      → map row_content out.1 ≡ map key_content ks
  unfolding append_events
  append_events-content h [] out e = subst_ok (λ p. map row_content p.1 ≡ []) e refl
  append_events-content h ((t, ev) ∷ ks) out e =
      let (hash, _, e1) = >>=-eq-ok (compute_event_hash py (payload h ev)) _ e in
      let (s, es, e2) = >>=-eq-ok (append_events py (advance h hash) ks) _ e1 in
      subst_ok (λ p. map row_content p.1 ≡ key_content (t, ev) ∷ map key_content ks) e2
        (λ i. (payload-body h ev i, ok t) ∷ append_events-content (advance h hash) ks s es i)

  abbrev Outcome : Type 0
  Outcome = Db × List (String × (ℕ × Option String))

  -- Behind the rows of `db` there are new ones, whose contents are those of the events, each as often
  -- as it is given.
  abbrev pub Adds : Db → List EventIn → Db → Type 0
  Adds db events db' =
      (added : List GuardDecision) × (db'.decisions ≡ db.decisions ++ added)
      × Perm (map row_content added) (map event_content events)

  ingest_bucket-Adds :
      (now : ℤ) (b : Bucket) (s s' : Outcome)
      → ingest_bucket py now b s ≡ ok s'
      → Adds s.0 b.events s'.0
  unfolding ingest_bucket
  ingest_bucket-Adds now b (db, out) s' e =
      let old = or_fresh b.tenant b.app (find_head b.tenant b.app db.heads) in
      let (keyed, ek, e1) = >>=-eq-ok (with_keys py b.events) _ e in
      let (r, er, e2) = >>=-eq-ok (append_events py old (sort_by earlier keyed)) _ e1 in
      subst_ok (λ p. Adds db b.events p.0) e2
        (
          r.1,
          refl,
          subst (λ l. Perm l (map event_content b.events))
              (sym (append_events-content old (sort_by earlier keyed) r er))
              (subst (λ l. Perm (map key_content (sort_by earlier keyed)) l)
                (with_keys-content b.events keyed ek)
                (Perm.map key_content (sort_by-perm earlier keyed))),
        )

  Adds-append :
      (db db' db'' : Db) (es fs : List EventIn)
      → Adds db es db'
      → Adds db' fs db''
      → Adds db (es ++ fs) db''
  Adds-append db db' db'' es fs (xs, e, p) (ys, f, q) = (
    xs ++ ys,
    f ∙ ap (λ l. l ++ ys) e ∙ append_assoc db.decisions xs ys,
    subst (λ l. Perm l (map event_content (es ++ fs))) (sym (map-append row_content xs ys))
        (subst (λ l. Perm (map row_content xs ++ map row_content ys) l)
          (sym (map-append event_content es fs)) (Perm.append p q)),
  )

  ingest_buckets-Adds :
      (now : ℤ) (bs : List Bucket) (s s' : Outcome)
      → ingest_buckets py now bs s ≡ ok s'
      → Adds s.0 (pooled bs) s'.0
  unfolding ingest_buckets pooled
  ingest_buckets-Adds now [] s s' e =
      subst_ok (λ p. Adds s.0 [] p.0) e ([], sym (append-nil s.0.decisions), Perm.refl [])
  ingest_buckets-Adds now (b ∷ bs) s s' e =
      let (m, em, e1) = >>=-eq-ok (ingest_bucket py now b s) _ e in
      Adds-append s.0 m.0 s'.0 b.events (pooled bs) (ingest_bucket-Adds now b s m em)
        (ingest_buckets-Adds now bs m s' e1)

  group-Adds : (db db' : Db) (es : List EventIn) → Adds db (pooled (group es)) db' → Adds db es db'
  unfolding group pooled
  group-Adds db db' es (added, e, p) =
      (added, e, Perm.trans p (Perm.map event_content (group_from-perm es [])))

  -- An ingestion that returns has kept all rows and put new ones behind them, one for each event of the
  -- batch, in some order. Each new row has all that the event holds, but no spans where its evidence
  -- mode is "none", and the time that the event's timestamp is parsed to. The batch has 1 to 500
  -- events, and their number is reported.
  pub ingest-Adds :
      (p : Principal) (now : ℤ) (events : List EventIn) (db : Db) (out : Db × IngestResult)
      → ingest py p now events db ≡ ok out
      → Adds db events out.0
        × (out.1.accepted ≡ length events)
        × (1 ≤ length events)
        × (length events ≤ 500)
  unfolding ingest
  ingest-Adds p now events db out e =
      let (caller, _, e1) = >>=-eq-ok (require_role (Role.service ∷ Role.admin ∷ []) p) _ e in
      let (l, e2) =
        raise_if-eq-ok (ltb (length events) 1 || ltb 500 (length events)) (http 422) _ e1 in
      let (s, es, e3) = >>=-eq-ok (ingest_buckets py now (group events) (db, [])) _ e2 in
      let (_, e4) = raise_if-eq-ok (not (constraints_hold s.0)) integrity_error _ e3 in
      subst_ok
        (λ q.
          Adds db events q.0
          × (q.1.accepted ≡ length events)
          × (1 ≤ length events)
          × (length events ≤ 500))
        e4
        (
          group-Adds db s.0 events (ingest_buckets-Adds now (group events) (db, []) s es),
          refl,
          ground arith,
          ground arith,
        )
