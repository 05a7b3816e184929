-- ===== src/Evidence/Contents.antt =====
-- What ingestion stores of an event is no more than its evidence mode allows.
use guard_x.Common.{◌≡◌, ℕ, String, Option, none, List, All}
use guard_x.Platform.{Platform}
use guard_x.Auth.Role.{Role}
use guard_x.Evidence.Event.{Event}
use guard_x.Evidence.Minimizer.{effective_mode}
use guard_x.Evidence.Store.{GuardDecision, Db}

-- A row whose evidence mode is "none" stores no spans.
abbrev pub IsMinimized : GuardDecision → Type 0
IsMinimized r = effective_mode r.evidence_mode ≡ "none" → r.spans ≡ none

module _ (py : Platform) where
  abbrev Outcome : Type 0
  Outcome = Db × List (String × (ℕ × Option String))

  abbrev AllMinimized : Db → Type 0
  AllMinimized db = All IsMinimized db.decisions
