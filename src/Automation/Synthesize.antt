-- ===== src/Automation/Synthesize.antt =====
-- synthesizer/synth.py: the pipeline on a whole text.
use guard_x.Common.{ℕ, String, List, [], ◌∷◌, ◌++◌, map, filter, if◌then◌else◌}
use guard_x.Common.Int.{pos}
use guard_x.Common.Json.{
  Json, int, str, arr, obj, nil, cons, end, field, get, of_list, or_json, is_null, is_obj,
}
use guard_x.Common.Result.{Result, ok, err, type_error, ◌>>=◌}
use guard_x.Common.Text.{strip}
use guard_x.Platform.{Platform}
use guard_x.Linter.Document.{get_default, iterate, text_of}
use guard_x.Profiles.Merge.{check_hashable}
use guard_x.Automation.Synth.{
  texts, Chunk, Candidate, number_chunks, is_mapped, compile_guards, guard_json,
}

-- `SynthResult`
pub record SynthResult : Type 0 where
  pub compiled_document : Json
  pub mapped : List Candidate
  pub triage : List Candidate
  pub raw_chunks : List Chunk

unfoldable pub direction_texts : List Json → Result (List String)
direction_texts [] = ok []
direction_texts (str s ∷ js) = direction_texts js >>= λ ss. ok (s ∷ ss)
direction_texts (_ ∷ js) = err type_error

abbrev number : ℕ → Json
number n = int (pos n)

-- `_base_policy`, with the guards.
abbrev pub base_policy : String → String → List String → List String → List Json → Json
base_policy tenant policy_id apps environments guards =
    let metadata = field "id" (str policy_id) (
      field "version" (str "0.1.0") (
        field "tenant" (str tenant) (
          field "status" (str "draft") (
            field "origin" (str "synthesizer")
              (field "labels" (obj (field "synth" (str "policy_synth@1.0.0") end)) end))))) in
    let spec =
      field "applies_to"
        (obj (field "apps" (texts apps) (field "environments" (texts environments) end)))
        (field "defaults"
          (obj (field "fail_mode" (str "closed") (field "timeout_ms" (number 12000) end)))
          (field "guards" (arr (of_list guards)) end)) in
    obj (
      field "apiVersion" (str "guardx/v1") (
        field "kind" (str "Policy")
          (field "metadata" (obj metadata) (field "spec" (obj spec) end))))

module _ (py : Platform) (split_paragraphs : String → List String)
    (evaluate : Chunk → Result Json) where
  -- `chunk_document`
  unfoldable pub chunk_document : String → ℕ → List Chunk
  unfolding number_chunks strip
  chunk_document text page = number_chunks page 0 (split_paragraphs (strip text))

  -- A candidate of the judge's answer.
  unfoldable pub candidate_of : Chunk → Json → Result Candidate
  unfolding direction_texts strip text_of
  candidate_of chunk c = get_default "rule_text" (str "") c >>= λ rule_text.
      get "source_anchor" c >>= λ anchor. get "scenario" c >>= λ scenario.
      get "direction" c >>= λ direction.
      iterate (or_json direction (arr (cons (str "output") nil)))
      >>= direction_texts
      >>= λ directions. get_default "on_fail" (str "flag") c >>= λ on_fail.
          get_default "severity_hint" (str "medium") c >>= λ severity.
          get_default "notes" (str "") c >>= λ notes. ok (record {
            rule_text = strip (text_of py rule_text);
            source_anchor =
                or_json anchor
                  (obj (field "page" (number chunk.page) (field "para" (number chunk.para) end)));
            scenario = scenario;
            direction = directions;
            on_fail = text_of py on_fail;
            severity_hint = text_of py severity;
            notes = strip (text_of py notes);
          })

  unfoldable pub candidates_of : Chunk → List Json → Result (List Candidate)
  unfolding candidate_of
  candidates_of chunk [] = ok []
  candidates_of chunk (c ∷ cs) =
      let rest = candidates_of chunk cs in
      if is_obj c
      then (candidate_of chunk c >>= λ candidate. rest >>= λ more. ok (candidate ∷ more))
      else rest

  -- `extract_from_chunk`
  unfoldable pub extract_from_chunk : Chunk → Result (List Candidate)
  unfolding candidates_of
  extract_from_chunk chunk = evaluate chunk >>= λ parsed.
      get_default "candidates" (arr nil) (or_json parsed (obj end)) >>= λ raw.
      iterate (or_json raw (arr nil)) >>= candidates_of chunk

  unfoldable pub extract_all : List Chunk → Result (List Candidate)
  unfolding extract_from_chunk
  extract_all [] = ok []
  extract_all (c ∷ cs) = extract_from_chunk c >>= λ got. extract_all cs >>= λ more. ok (got ++ more)

  unfoldable pub check_scenarios : List Candidate → Result (Unit {0})
  check_scenarios [] = ok tt
  check_scenarios (c ∷ cs) = check_hashable c.scenario >>= λ u. check_scenarios cs

  -- `synthesize`
  unfoldable pub synthesize :
      String → String → String → List String → List String → ℕ → Result SynthResult
  unfolding chunk_document extract_all check_scenarios compile_guards
  synthesize text tenant policy_id apps environments page =
      let chunks = chunk_document text page in
      extract_all chunks >>= λ all_candidates. check_scenarios all_candidates >>= λ u.
      let mapped = filter is_mapped all_candidates in
      compile_guards mapped >>= λ guards. ok (record {
        compiled_document = base_policy tenant policy_id apps environments (map guard_json guards);
        mapped = mapped;
        triage = filter (λ c. is_null c.scenario) all_candidates;
        raw_chunks = chunks;
      })
