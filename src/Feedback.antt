-- ===== src/Feedback.antt =====
-- control/guardx_control/models/feedback.py and api/feedback.py: labelled dispositions of events.
pub mod Listing
use guard_x.Common.{
  All-snoc, ℕ, zero, suc, ◌≡◌, refl, ◌⊎◌, String, Bool, true, false, not, ◌&&◌, ◌||◌, Option, none,
  some, List, [], ◌∷◌, ◌++◌, All, arith, elem, filter, ltb, str_eq, eq_iff, if◌then◌else◌,
}
use guard_x.Common.Int.{ℤ, ltb_ℤ}
use guard_x.Common.Sort.{sort_by}
use guard_x.Common.Result.{
  Result, ok, http, integrity_error, raise_if, ◌>>=◌, ◌>>◌, raise_if-eq-ok, subst_ok,
}
use guard_x.Platform.{Platform}
use guard_x.Auth.Role.{Role, Principal, require_role}
use guard_x.Evidence.Timestamp.{parse_ts, print_ts}

-- `FeedbackIn`
pub record FeedbackIn : Type 0 where
  pub tenant : String
  pub app : String
  pub event_id : Option String
  pub guard_id : Option String
  pub policy : Option String
  pub source : String
  pub disposition : String
  pub note : Option String

-- `FeedbackEvent`
pub record FeedbackEvent : Type 0 where
  pub id : ℕ
  pub body : FeedbackIn
  pub open body use *
  pub submitted_by : String
  pub at : ℤ

-- `FeedbackOut`
pub record FeedbackOut : Type 0 where
  pub id : ℕ
  pub body : FeedbackIn
  pub submitted_by : String
  pub at : String

-- `_to_out`
abbrev pub to_out : Platform → FeedbackEvent → FeedbackOut
to_out py r = record {
  id = r.id;
  body = r.body;
  submitted_by = r.submitted_by;
  at = print_ts py r.at;
}

abbrev pub sources : List String
sources = "user_thumbs" ∷ "analyst" ∷ "appeal" ∷ "autolabel" ∷ []

abbrev pub dispositions : List String
dispositions = "true_positive" ∷ "false_positive" ∷ "true_negative" ∷ "false_negative" ∷ []

-- The CHECK constraints of the table.
abbrev pub is_labelled : FeedbackEvent → Bool
is_labelled r = elem r.source sources && elem r.disposition dispositions

-- `submit_feedback`; the database gives the id and the time.
unfoldable pub submit_feedback :
    Principal
    → ℕ
    → ℤ
    → FeedbackIn
    → List FeedbackEvent
    → Result (List FeedbackEvent × FeedbackEvent)
submit_feedback p id now body rows = do
  let row : FeedbackEvent = record { id = id; body = body; submitted_by = p.subject; at = now }
  raise_if (not (is_labelled row)) integrity_error
  ok (rows ++ row ∷ [], row)

-- A filter that is given and not empty.
abbrev pub matches : Option String → Option String → Bool
matches none v = true
matches (some s) none = str_eq s ""
matches (some s) (some t) = str_eq s "" || str_eq t s

abbrev pub is_since : Option ℤ → FeedbackEvent → Bool
is_since none r = true
is_since (some t) r = not (ltb_ℤ r.at t)

abbrev pub at_before : FeedbackEvent → FeedbackEvent → Bool
at_before r s = ltb_ℤ r.at s.at

-- `limit(n)`
unfoldable pub first_rows : ℕ → List FeedbackEvent → List FeedbackEvent
first_rows zero rs = []
first_rows (suc n) [] = []
first_rows (suc n) (r ∷ rs) = r ∷ first_rows n rs

abbrev pub is_asked : String → Option String → Option String → Option ℤ → FeedbackEvent → Bool
is_asked tenant app guard_id since r =
    str_eq r.tenant tenant
    && (matches app (some r.app) && (matches guard_id r.guard_id && is_since since r))

module _ (py : Platform) where
  unfoldable pub since_bound : Option String → Result (Option ℤ)
  since_bound none = ok none
  since_bound (some s) = if str_eq s "" then ok none else (parse_ts py s >>= λ t. ok (some t))

  -- `list_feedback`
  unfoldable pub list_feedback :
      Principal
      → String
      → Option String
      → Option String
      → Option String
      → ℕ
      → List FeedbackEvent
      → Result (List FeedbackEvent)
  unfolding require_role first_rows since_bound
  list_feedback p tenant app guard_id since n rows = do
    caller ← require_role (Role.reviewer ∷ Role.approver ∷ Role.service ∷ Role.admin ∷ []) p
    raise_if (ltb n 1 || ltb 5000 n) (http 422)
    t ← since_bound since
    ok (first_rows n (sort_by at_before (filter (is_asked tenant app guard_id t) rows)))

-- A label whose source and disposition are among those that the models document.
abbrev pub IsKnown : FeedbackIn → Type 0
IsKnown b =
    ((b.source ≡ "user_thumbs")
      ⊎ ((b.source ≡ "analyst") ⊎ ((b.source ≡ "appeal") ⊎ (b.source ≡ "autolabel"))))
    × ((b.disposition ≡ "true_positive")
        ⊎ ((b.disposition ≡ "false_positive")
            ⊎ ((b.disposition ≡ "true_negative") ⊎ (b.disposition ≡ "false_negative"))))

is_labelled-IsKnown : (r : FeedbackEvent) → not (is_labelled r) ≡ false → IsKnown r.body
is_labelled-IsKnown r h = (
  ground (
    arith,
    eq_iff r.source "user_thumbs",
    eq_iff r.source "analyst",
    eq_iff r.source "appeal",
    eq_iff r.source "autolabel",
  ),
  ground (
    arith,
    eq_iff r.disposition "true_positive",
    eq_iff r.disposition "false_positive",
    eq_iff r.disposition "true_negative",
    eq_iff r.disposition "false_negative",
  ),
)

-- A submission that returns has stored, behind the old labels, one label with the contents that were
-- sent, the caller as its author, and the id and the time of the database. If all stored labels have
-- one of the four sources and one of the four dispositions, so have all afterwards.
pub submit_feedback-IsKnown :
    (p : Principal) (id : ℕ) (now : ℤ) (body : FeedbackIn) (rows : List FeedbackEvent)
    (out : List FeedbackEvent × FeedbackEvent)
    → submit_feedback p id now body rows ≡ ok out
    → All (λ r. IsKnown r.body) rows
    → All (λ r. IsKnown r.body) out.0
      × (out.0 ≡ rows ++ out.1 ∷ [])
      × (out.1 ≡ record { id = id; body = body; submitted_by = p.subject; at = now })
unfolding submit_feedback
submit_feedback-IsKnown p id now body rows out e h =
    let row : FeedbackEvent = record { id = id; body = body; submitted_by = p.subject; at = now } in
    let (l, e1) = raise_if-eq-ok (not (is_labelled row)) integrity_error _ e in
    subst_ok
      (λ q.
        All (λ r. IsKnown r.body) q.0
        × (q.0 ≡ rows ++ q.1 ∷ [])
        × (q.1 ≡ record { id = id; body = body; submitted_by = p.subject; at = now }))
      e1 (All-snoc (λ r. IsKnown r.body) rows row h (is_labelled-IsKnown row l), refl, refl)
