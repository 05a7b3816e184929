-- ===== src/Tests/Feedback.antt =====
-- Labels that are stored and listed.
use guard_x.Common.{◌≤◌, ◌≡◌, refl, Option, none, some, [], ◌∷◌, ◌++◌, All}
use guard_x.Common.Int.{ℤ, pos}
use guard_x.Common.Sort.{sort_by}
use guard_x.Common.Result.{ok}
use guard_x.Feedback.{
  FeedbackIn, FeedbackEvent, IsKnown, since_bound, submit_feedback, list_feedback,
  submit_feedback-IsKnown,
}
use guard_x.Feedback.Listing.{IsListing, list_feedback-IsListing}
use guard_x.Tests.Setup.{py, bob}

abbrev label : FeedbackIn
label = record {
  tenant = "acme";
  app = "bot";
  event_id = none;
  guard_id = some "g1";
  policy = none;
  source = "analyst";
  disposition = "false_positive";
  note = none;
}

abbrev stored : FeedbackEvent
stored = record { id = 1; body = label; submitted_by = "bob"; at = pos 0 }

submitted : submit_feedback bob 1 (pos 0) label [] ≡ ok (stored ∷ [], stored)
unfolding submit_feedback
submitted = refl

submit_feedback-IsKnown_example :
    All (λ r. IsKnown r.body) (stored ∷ [])
    × (stored ∷ [] ≡ [] ++ stored ∷ [])
    × (stored ≡ record { id = 1; body = label; submitted_by = "bob"; at = pos 0 })
submit_feedback-IsKnown_example =
    submit_feedback-IsKnown bob 1 (pos 0) label [] (stored ∷ [], stored) submitted tt

-- A later label, and one of another app.
abbrev later : FeedbackEvent
later = record stored { id = 2; at = pos 5 }

abbrev foreign : FeedbackEvent
foreign = record stored { id = 3; body = record label { app = "web" } }

listed :
    list_feedback py bob "acme" (some "bot") none none 1 (later ∷ foreign ∷ stored ∷ [])
    ≡ ok (stored ∷ [])
unfolding list_feedback sort_by
listed = refl

list_feedback-IsListing_example :
    (t : Option ℤ) × (since_bound py none ≡ ok t)
    × (1 ≤ 1)
    × (1 ≤ 5000)
    × IsListing "acme" (some "bot") none t 1 (later ∷ foreign ∷ stored ∷ []) (stored ∷ [])
list_feedback-IsListing_example =
    list_feedback-IsListing py bob "acme" (some "bot") none none 1 (later ∷ foreign ∷ stored ∷ [])
      (stored ∷ []) listed
