-- ===== src/Evidence/Anchor.antt =====
-- api/evidence.py: `POST /v1/evidence/anchor`, the signed head over a window of a chain.
use guard_x.Common.{
  ℕ, ◌+◌, ◌≤◌, ◌<◌, ◌≡◌, refl, ap, String, Bool, false, ◌&&◌, Option, none, some, List, [], ◌∷◌,
  ◌++◌, arith, filter, filter-append, any, str_eq, eq_refl, ltb, ◌==◌, if◌then◌else◌, Bool-cases,
  inl, inr,
}
use guard_x.Common.Int.{ℤ, pos, eqb_ℤ}
use guard_x.Common.Json.{Json, str, int, obj, of_entries}
use guard_x.Common.Result.{
  Result, ok, err, http, integrity_error, raise_if, ◌>>=◌, ◌>>◌, >>=-eq-ok, subst_ok,
  raise_if-eq-ok, ok-injective,
}
use guard_x.Platform.{Platform}
use guard_x.Auth.Role.{Principal, Role, require_role}
use guard_x.Signing.Canonical.{canonical_json}
use guard_x.Evidence.Event.{opt_str}
use guard_x.Evidence.Store.{Head, ChainAnchor, Db, find_head}

abbrev pub is_anchor_of : String → String → ChainAnchor → Bool
is_anchor_of t a w = str_eq w.tenant t && str_eq w.app a

abbrev pub anchors_of : String → String → List ChainAnchor → List ChainAnchor
anchors_of t a ws = filter (is_anchor_of t a) ws

abbrev later_of : ChainAnchor → Option ChainAnchor → ChainAnchor
later_of w none = w
later_of w (some v) = if ltb v.end_seq w.end_seq then w else v

-- `order_by(end_seq.desc()).limit(1)`
unfoldable pub latest : List ChainAnchor → Option ChainAnchor
latest [] = none
latest (w ∷ ws) = some (later_of w (latest ws))

-- `(prev.end_seq + 1) if prev else 1`
abbrev pub next_start : ℕ → Option ChainAnchor → ℕ
next_start n none = n + 1
next_start n (some w) = w.end_seq + 1

-- The head row, unless it is absent or has no event yet.
abbrev pub live_head : Option Head → Result Head
live_head none = err (http 404)
live_head (some h) = if h.chain_seq == 0 then err (http 404) else ok h

abbrev pub anchor_payload : String → String → ℕ → Head → Json
anchor_payload t a start h = obj (
    of_entries (
      ("tenant", str t)
      ∷ ("app", str a)
      ∷ ("start_seq", int (pos start))
      ∷ ("end_seq", int (pos h.chain_seq))
      ∷ ("head_hash", opt_str h.event_hash)
      ∷ []))

module _ (py : Platform) where
  -- The anchor row of a signed payload.
  abbrev pub anchor_row : String → String → ℤ → ℕ → Head → String → ChainAnchor
  anchor_row t a now start h bytes = record {
    tenant = t;
    app = a;
    anchor_at = now;
    start_seq = start;
    end_seq = h.chain_seq;
    head_hash = h.event_hash;
    signature = py.sign bytes;
    signing_key_id = py.key_id;
  }

  -- The primary key is (tenant, app, anchor_at).
  unfoldable pub sign_anchor : Principal → String → String → ℤ → Db → Result (Db × ChainAnchor)
  unfolding require_role latest find_head
  sign_anchor p t a now db = do
    caller ← require_role (Role.approver ∷ Role.admin ∷ []) p
    h ← live_head (find_head t a db.heads)
    let start = next_start 0 (latest (anchors_of t a db.anchors))
    raise_if (ltb h.chain_seq start) (http 409)
    bytes ← canonical_json py.float_repr (anchor_payload t a start h)
    raise_if (any (λ w. eqb_ℤ w.anchor_at now) (anchors_of t a db.anchors)) integrity_error
    let w = anchor_row t a now start h bytes
    ok (record db { anchors = db.anchors ++ w ∷ [] }, w)

-- The windows follow one another without a gap or an overlap, from behind `n` up to `m`.
abbrev pub Tiles : ℕ → List ChainAnchor → ℕ → Type 0
Tiles n [] m = n ≡ m
Tiles n (w ∷ ws) m = (w.start_seq ≡ n + 1) × (w.start_seq ≤ w.end_seq) × Tiles w.end_seq ws m

Tiles-le : (n : ℕ) (ws : List ChainAnchor) (m : ℕ) → Tiles n ws m → n ≤ m
Tiles-le n [] m h = omega arith
Tiles-le n (w ∷ ws) m h = omega (arith, Tiles-le w.end_seq ws m h.2)

Tiles-append :
    (n : ℕ) (ws : List ChainAnchor) (m : ℕ) (w : ChainAnchor)
    → Tiles n ws m
    → w.start_seq ≡ m + 1
    → w.start_seq ≤ w.end_seq
    → Tiles n (ws ++ w ∷ []) w.end_seq
Tiles-append n [] m w h s l = (omega arith, l, refl)
Tiles-append n (v ∷ ws) m w h s l = (h.0, h.1, Tiles-append v.end_seq ws m w h.2 s l)

next_start-latest :
    (n : ℕ) (ws : List ChainAnchor) (m : ℕ) → Tiles n ws m → next_start n (latest ws) ≡ m + 1
unfolding latest
next_start-latest n [] m h = omega arith
next_start-latest n (w ∷ []) m h = omega arith
next_start-latest n (w ∷ v ∷ ws) m h =
    ground (arith, next_start-latest w.end_seq (v ∷ ws) m h.2, Tiles-le w.end_seq (v ∷ ws) m h.2)

live_head_sound : (o : Option Head) (h : Head) → live_head o ≡ ok h → o ≡ some h
live_head_sound none h e = cc
live_head_sound (some g) h e = elim (Bool-cases (g.chain_seq == 0)) [
  | inl empty ↦ cc (rw empty at e)
  | inr live ↦ ap some (ok-injective (rw live at e))
]

-- What a signed anchor has done to a chain whose windows reached up to `m`.
abbrev pub Extends : String → String → Db → ℕ → Db × ChainAnchor → Type 0
Extends t a db m (db', w) =
    Tiles 0 (anchors_of t a db'.anchors) w.end_seq
    × (w.start_seq ≡ m + 1)
    × (m < w.end_seq)
    × ((h : Head) × (find_head t a db.heads ≡ some h)
        × (w.end_seq ≡ h.chain_seq)
        × (w.head_hash ≡ h.event_hash))

module _ (py : Platform) where
  anchor_row-Extends :
      (t a : String) (now : ℤ) (db : Db) (m start : ℕ) (h : Head) (bytes : String)
      → Tiles 0 (anchors_of t a db.anchors) m
      → find_head t a db.heads ≡ some h
      → start ≡ m + 1
      → ltb h.chain_seq start ≡ false
      → let w = anchor_row py t a now start h bytes in
        Extends t a db m (record db { anchors = db.anchors ++ w ∷ [] }, w)
  anchor_row-Extends t a now db m start h bytes c f s l =
      let w = anchor_row py t a now start h bytes in
      (
        rw (filter-append (is_anchor_of t a) db.anchors (w ∷ []), eq_refl t, eq_refl a)
            (Tiles-append 0 (anchors_of t a db.anchors) m w c s (ground arith)),
        s,
        ground arith,
        (h, f, refl, refl),
      )

  -- If the windows of a chain's anchors follow one another without gap or overlap, from number 1
  -- up to `m`, then after an anchor that is signed they do so up to the head of the chain, and the
  -- new anchor covers exactly the numbers above `m` up to the head, at least one, and carries the
  -- head's hash.
  pub sign_anchor-Tiles :
      (p : Principal) (t a : String) (now : ℤ) (db : Db) (out : Db × ChainAnchor) (m : ℕ)
      → sign_anchor py p t a now db ≡ ok out
      → Tiles 0 (anchors_of t a db.anchors) m
      → Extends t a db m out
  unfolding sign_anchor
  sign_anchor-Tiles p t a now db out m e c =
      let start = next_start 0 (latest (anchors_of t a db.anchors)) in
      let (caller, _, e1) = >>=-eq-ok (require_role (Role.approver ∷ Role.admin ∷ []) p) _ e in
      let (h, eh, e2) = >>=-eq-ok (live_head (find_head t a db.heads)) _ e1 in
      let (l, e3) = raise_if-eq-ok (ltb h.chain_seq start) (http 409) _ e2 in
      let (bytes, _, e4) =
        >>=-eq-ok (canonical_json py.float_repr (anchor_payload t a start h)) _ e3 in
      let (_, e5) =
        raise_if-eq-ok (any (λ w. eqb_ℤ w.anchor_at now) (anchors_of t a db.anchors))
          integrity_error _ e4 in
      subst_ok (Extends t a db m) e5 (
        anchor_row-Extends t a now db m start h bytes c (live_head_sound _ h eh)
          (next_start-latest 0 (anchors_of t a db.anchors) m c) l)
