-- ===== src/Automation/Tuner.antt =====
-- autotuner/tuner.py: the run of the tuner. The events and the labels are the control plane's answers, and
-- `submit` is its answer to a document with its origin and its note; `float_of` is Python's `float`.
-- A guard id that is no text is an error here.
use guard_x.Common.{
  ℕ, String, Bool, true, false, Option, none, some, List, [], ◌∷◌, map, length, ltb, lookup, insert,
  if◌then◌else◌,
}
use guard_x.Common.Int.{ℤ, pos}
use guard_x.Common.Float.{Float}
use guard_x.Common.Json.{
  Json, Fields, int, float, str, arr, obj, nil, end, field, get, put, of_list, or_json, is_str,
  numeric,
}
use guard_x.Common.Result.{Result, ok, err, ◌>>=◌}
use guard_x.Common.Sort.{sort_by}
use guard_x.Common.Text.{◌<>◌, dec, text_lt}
use guard_x.Platform.{Platform}
use guard_x.Linter.Document.{as_text, get_key, get_default, section, iterate}
use guard_x.Profiles.Merge.{check_hashable}
use guard_x.Automation.Ingestor.{
  bump_patch, first_approved, as_document, with_guards, draft_metadata,
}
use guard_x.Automation.Threshold.{FloatOps, Sample, ThresholdRecommendation, search_threshold}
use guard_x.Automation.Samples.{join_events_and_feedback}

-- `_current_thresholds`, for the guards from the given ones on.
unfoldable pub thresholds_of : List Json → List (String × Float) → Result (List (String × Float))
thresholds_of [] out = ok out
thresholds_of (g ∷ gs) out = get "threshold" g >>= λ thr. elim (numeric thr) [
  | none ↦ thresholds_of gs out
  | some t ↦ get_key "id" g >>= as_text >>= λ gid. thresholds_of gs (insert gid t out)
]

unfoldable pub guards_of : Json → Result (List Json)
guards_of document = section "spec" document >>= get_default "guards" (arr nil) >>= λ gs.
    iterate (or_json gs (arr nil))

unfoldable pub current_thresholds : Json → Result (List (String × Float))
unfolding thresholds_of guards_of
current_thresholds document = guards_of document >>= λ gs. thresholds_of gs []

-- The recommendation for a guard: the last one wins.
unfoldable pub recommended : Json → List ThresholdRecommendation → Option Float
recommended gid [] = none
recommended gid (r ∷ rs) = elim (recommended gid rs) [
  | some t ↦ some t
  | none ↦ if is_str gid r.guard_id then some r.proposed_threshold else none
]

abbrev pub set_threshold : Option Float → Json → Json
set_threshold (some t) (obj fs) = obj (put "threshold" (float t) fs)
set_threshold _ g = g

-- The loop of `_apply_thresholds`.
unfoldable pub apply_to_guards : List ThresholdRecommendation → List Json → Result (List Json)
unfolding recommended
apply_to_guards recs [] = ok []
apply_to_guards recs (g ∷ gs) = get "id" g >>= λ gid. check_hashable gid >>= λ u.
    apply_to_guards recs gs >>= λ rest. ok (set_threshold (recommended gid recs) g ∷ rest)

-- `_apply_thresholds`
unfoldable pub apply_thresholds : Fields → List ThresholdRecommendation → Result Fields
unfolding apply_to_guards guards_of
apply_thresholds doc recs = guards_of (obj doc) >>= apply_to_guards recs >>= with_guards doc

-- `AutotunerReport`
pub record AutotunerReport : Type 0 where
  pub tenant : String
  pub app : String
  pub considered_guards : List String
  pub recommendations : List ThresholdRecommendation
  pub proposal_submitted : Bool
  pub proposal : Option Json

abbrev pub pair_json : Float × Float → Json
pair_json (a, b) = arr (of_list (float a ∷ float b ∷ []))

-- A recommendation in the reference of the proposal.
abbrev pub recommendation_json : ThresholdRecommendation → Json
recommendation_json r =
    let fp_rate =
      field "before" (float r.fp_rate_before)
        (field "after" (float r.fp_rate_after) (field "ci_after" (pair_json r.fp_ci_after) end)) in
    let fn_rate =
      field "after" (float r.fn_rate_after) (field "ci_after" (pair_json r.fn_ci_after) end) in
    obj (
      field "guard_id" (str r.guard_id) (
        field "current" (float r.current_threshold) (
          field "proposed" (float r.proposed_threshold) (
            field "n" (int (pos r.n_labeled)) (
              field "fp_rate" (obj fp_rate)
                (field "fn_rate" (obj fn_rate) (field "reason" (str r.reason) end)))))))

module _ (py : Platform) (ops : FloatOps) (float_of : Json → Result Float) (turns : ℕ) where
  abbrev pub add_recommendation :
      String
      → Option (Option ThresholdRecommendation)
      → Option (List ThresholdRecommendation)
      → Option (List ThresholdRecommendation)
  add_recommendation gid none rest = none
  add_recommendation gid (some none) rest = rest
  add_recommendation gid (some (some r)) none = none
  add_recommendation gid (some (some r)) (some rs) = some (record r { guard_id = gid } ∷ rs)

  -- The loop over the guards with samples; None if a search runs out of turns.
  unfoldable pub recommend_all :
      ℕ
      → List (String × Float)
      → List (String × List Sample)
      → Option (List ThresholdRecommendation)
  unfolding search_threshold
  recommend_all min_labeled thresholds [] = some []
  recommend_all min_labeled thresholds ((gid, samples) ∷ joined) =
      let rest = recommend_all min_labeled thresholds joined in
      elim (lookup gid thresholds) [
        | none ↦ rest
        | some current ↦
            if ltb (length samples) min_labeled
            then rest
            else add_recommendation gid (search_threshold ops turns samples current) rest
      ]

  module _ (submit : Json → String → Json → String → Result Json) (tenant app : String)
      (days_lookback : ℕ) (now : ℤ) where
    abbrev pub tuner_report :
        List String → List ThresholdRecommendation → Option Json → AutotunerReport
    tuner_report considered recs none = record {
      tenant = tenant;
      app = app;
      considered_guards = considered;
      recommendations = recs;
      proposal_submitted = false;
      proposal = none;
    }
    tuner_report considered recs (some p) = record {
      tenant = tenant;
      app = app;
      considered_guards = considered;
      recommendations = recs;
      proposal_submitted = true;
      proposal = some p;
    }

    -- The proposal of the recommended thresholds.
    unfoldable pub propose_thresholds :
        Fields → Json → List String → List ThresholdRecommendation → Result AutotunerReport
    unfolding apply_thresholds bump_patch dec
    propose_thresholds doc approved considered recs = apply_thresholds doc recs >>= λ fs.
        get_key "metadata" (obj fs) >>= λ md0. get_key "version" approved >>= λ parent.
        draft_metadata py "autotuner" parent md0 >>= λ md.
        let origin_ref = obj (
          field "tuner" (str "guardx.autotuner@0.1.0") (
            field "app" (str app) (
              field "days_lookback" (int (pos days_lookback)) (
                field "ts" (int now) (
                  field "recommendations" (arr (of_list (map recommendation_json recs))) end))))) in
        submit (obj (put "metadata" md fs)) "threshold_tune" origin_ref (
          "autotuner: proposed threshold moves for "
          <> dec (length recs)
          <> " guards ("
          <> dec days_lookback
          <> "-day window)")
        >>= λ result. ok (tuner_report considered recs (some result))

    abbrev pub tune :
        Fields → Json → List String → List ThresholdRecommendation → Result AutotunerReport
    tune doc approved considered [] = ok (tuner_report considered [] none)
    tune doc approved considered (r ∷ rs) = propose_thresholds doc approved considered (r ∷ rs)

    abbrev pub after_search :
        Option (List ThresholdRecommendation)
        → (List ThresholdRecommendation → Result AutotunerReport)
        → Option (Result AutotunerReport)
    after_search none next = none
    after_search (some recs) next = some (next recs)

    abbrev pub or_raised :
        {X : Type 0}
        → Result X
        → (X → Option (Result AutotunerReport))
        → Option (Result AutotunerReport)
    or_raised (err e) next = some (err e)
    or_raised (ok x) next = next x

    -- The approved version, its document, its thresholds and the joined samples.
    unfoldable pub gather :
        Json
        → Result (List Json)
        → Result (List Json)
        → Result (Fields × List (String × Float) × List (String × List Sample))
    unfolding current_thresholds join_events_and_feedback
    gather approved events feedback = get_key "document" approved >>= as_document >>= λ doc.
        current_thresholds (obj doc) >>= λ thresholds. events >>= λ es. feedback >>= λ fbs.
        join_events_and_feedback float_of es fbs >>= λ joined. ok (doc, thresholds, joined)

    -- `run_autotuner`
    unfoldable pub run_autotuner :
        List Json → Result (List Json) → Result (List Json) → ℕ → Option (Result AutotunerReport)
    unfolding first_approved gather recommend_all propose_thresholds sort_by
    run_autotuner versions events feedback min_labeled =
        or_raised (first_approved versions) (λ approved. elim approved [
          | none ↦ some (ok (tuner_report [] [] none))
          | some v ↦ or_raised (gather v events feedback) (λ (doc, thresholds, joined).
              after_search (recommend_all min_labeled thresholds joined)
                (tune doc v (sort_by text_lt (map (λ g. g.0) joined))))
        ])
