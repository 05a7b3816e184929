-- ===== src/Automation/Samples.antt =====
-- autotuner/tuner.py: the scores of the events that have a label. `float_of` is Python's `float`. A guard
-- id that is no text is an error here.
use guard_x.Common.{
  String, Bool, false, not, ◌||◌, Option, none, some, List, [], ◌∷◌, ◌++◌, str_eq, if◌then◌else◌,
}
use guard_x.Common.Float.{Float}
use guard_x.Common.Json.{Json, obj, get, or_json, truthy, is_null, is_str, eq_json}
use guard_x.Common.Result.{Result, ok, err, ◌>>=◌}
use guard_x.Linter.Document.{as_text, get_key}
use guard_x.Profiles.Merge.{check_hashable}
use guard_x.Automation.Threshold.{Sample}

-- `{e["event_id"]: e for e in events}`, as far as it can raise.
unfoldable pub check_events : List Json → Result (Unit {0})
check_events [] = ok tt
check_events (e ∷ es) = get_key "event_id" e >>= check_hashable >>= λ u. check_events es

abbrev has_event_id : Json → Json → Bool
has_event_id eid (obj fs) = elim (get "event_id" (obj fs)) [ err x ↦ false | ok v ↦ eq_json eid v ]
has_event_id eid _ = false

-- The event of that id: the last one wins.
unfoldable pub event_of : Json → List Json → Option Json
event_of eid [] = none
event_of eid (e ∷ es) = elim (event_of eid es) [
  | some f ↦ some f
  | none ↦ if has_event_id eid e then some e else none
]

-- `by_guard[gid].append(sample)`
unfoldable pub add_sample :
    String → Sample → List (String × List Sample) → List (String × List Sample)
add_sample gid s [] = (gid, s ∷ []) ∷ []
add_sample gid s ((g, samples) ∷ rest) =
    let others = add_sample gid s rest in
    if str_eq gid g then (g, samples ++ s ∷ []) ∷ rest else (g, samples) ∷ others

abbrev pub is_positive_label : Json → Bool
is_positive_label disp = is_str disp "true_positive" || is_str disp "false_negative"

module _ (float_of : Json → Result Float) where
  abbrev pub join_one :
      List Json → Json → List (String × List Sample) → Result (List (String × List Sample))
  join_one events fb groups = get "event_id" fb >>= λ eid.
      if not (truthy eid)
      then ok groups
      else (check_hashable eid >>= λ u. elim (event_of eid events) [
        | none ↦ ok groups
        | some e ↦ get "score" e >>= λ score. get "guard_id" fb >>= λ own.
            get "guard_id" e >>= λ other.
            let gid = or_json own other in
            if is_null score || not (truthy gid)
            then ok groups
            else (get_key "disposition" fb >>= λ disp. as_text gid >>= λ guard_id.
                float_of score >>= λ x. ok (add_sample guard_id (x, is_positive_label disp) groups))
      ])

  -- The loop of `_join_events_and_feedback`.
  unfoldable pub join_feedback :
      List Json → List Json → List (String × List Sample) → Result (List (String × List Sample))
  unfolding event_of add_sample
  join_feedback events [] groups = ok groups
  join_feedback events (fb ∷ fbs) groups =
      join_one events fb groups >>= λ joined. join_feedback events fbs joined

  -- `_join_events_and_feedback`
  unfoldable pub join_events_and_feedback :
      List Json → List Json → Result (List (String × List Sample))
  unfolding check_events join_feedback
  join_events_and_feedback events feedback =
      check_events events >>= λ u. join_feedback events feedback []
