-- ===== src/Automation/Synth.antt =====
-- synthesizer/synth.py: guards from the rules that a judge reads off a document. The judge's answer on
-- a chunk and the split of a text at blank lines (`re`) are parameters. A direction that is
-- no text is an error here.
use guard_x.Common.{
  ℕ, ◌+◌, String, Bool, true, false, ◌&&◌, Option, none, some, List, [], ◌∷◌, ◌++◌, map, is_some,
  lookup, insert, ltb, str_eq, if◌then◌else◌,
}
use guard_x.Common.Float.{Float}
use guard_x.Common.Json.{Json, float, str, arr, obj, end, field, of_list}
use guard_x.Common.Result.{Result, ok, err, key_error, value_error, or_raise, ◌>>=◌}
use guard_x.Common.Sort.{sort_by}
use guard_x.Common.Text.{◌<>◌, chars, dec, strip, text_lt}
use guard_x.Profiles.Merge.{check_hashable}
use guard_x.Automation.Templates.{severity_table, Template, templates}

-- A chunk of `chunk_document`.
pub record Chunk : Type 0 where
  pub page : ℕ
  pub para : ℕ
  pub text : String

-- The loop of `chunk_document`, with the number of the last chunk.
unfoldable pub number_chunks : ℕ → ℕ → List String → List Chunk
unfolding strip
number_chunks page idx [] = []
number_chunks page idx (para ∷ paras) =
    let text = strip para in
    let skipped = number_chunks page idx paras in
    let counted = number_chunks page (idx + 1) paras in
    if str_eq text ""
    then skipped
    else record { page = page; para = idx + 1; text = text } ∷ counted

-- `Candidate`
pub record Candidate : Type 0 where
  pub rule_text : String
  pub source_anchor : Json
  pub scenario : Json
  pub direction : List String
  pub on_fail : String
  pub severity_hint : String
  pub notes : String

abbrev pub template_of : Json → Option Template
template_of (str s) = lookup s templates
template_of _ = none

-- `c.scenario in _TEMPLATES`
abbrev pub is_mapped : Candidate → Bool
is_mapped c = is_some (template_of c.scenario)

-- The keys of `grouped`, and its entries.
pub record GuardGroup : Type 0 where
  pub scenario : String
  pub direction : List String
  pub members : List Candidate

abbrev pub texts_eq : List String → List String → Bool
texts_eq [] [] = true
texts_eq (s ∷ ss) (t ∷ ts) = str_eq s t && texts_eq ss ts
texts_eq _ _ = false

-- `grouped.setdefault(key, []).append(c)`
unfoldable pub add_to_group : String → List String → Candidate → List GuardGroup → List GuardGroup
add_to_group scenario direction c [] =
    record { scenario = scenario; direction = direction; members = c ∷ [] } ∷ []
add_to_group scenario direction c (g ∷ gs) =
    let rest = add_to_group scenario direction c gs in
    if str_eq scenario g.scenario && texts_eq direction g.direction
    then record g { members = g.members ++ c ∷ [] } ∷ gs
    else g ∷ rest

abbrev pub group_candidate : Candidate → Json → List GuardGroup → List GuardGroup
group_candidate c (str s) groups =
    if is_some (lookup s templates)
    then add_to_group s (sort_by text_lt c.direction) c groups
    else groups
group_candidate c _ groups = groups

-- The loop that groups the candidates.
unfoldable pub group_candidates : List Candidate → List GuardGroup → Result (List GuardGroup)
unfolding add_to_group sort_by
group_candidates [] groups = ok groups
group_candidates (c ∷ cs) groups =
    check_hashable c.scenario >>= λ u. group_candidates cs (group_candidate c c.scenario groups)

-- `_sev_rank`
abbrev pub sev_rank : String → ℕ
sev_rank sev = if str_eq sev "low" then 0 else if str_eq sev "high" then 2 else 1

-- `max(items, key=...)`, from its first item on.
unfoldable pub highest_from : Candidate → List Candidate → Candidate
highest_from c [] = c
highest_from c (d ∷ ds) =
    highest_from (if ltb (sev_rank c.severity_hint) (sev_rank d.severity_hint) then d else c) ds

-- `counter`, which has the number of guards of each scenario.
abbrev pub count_of : String → List (String × ℕ) → ℕ
count_of scenario counter = elim (lookup scenario counter) [ none ↦ 0 | some n ↦ n ]

unfoldable pub dashed : List String → String
dashed [] = ""
dashed (c ∷ cs) = (if str_eq c "_" then "-" else c) <> dashed cs

-- `_guard_id`
unfoldable pub guard_id : String → ℕ → String
unfolding dashed chars dec
guard_id scenario index =
    "g-synth-" <> dashed (chars scenario) <> "-" <> (if ltb index 10 then "0" else "") <> dec index

-- A guard of `compile_guards`, with the candidates of its provenance.
pub record SynthGuard : Type 0 where
  pub id : String
  pub scenario : String
  pub template : Template
  pub direction : List String
  pub threshold : Float
  pub on_fail : String
  pub provenance : List Candidate

abbrev or_own : Option String → String → String
or_own none own = own
or_own (some s) own = s

-- The loop's body for one group; a group has a member.
unfoldable pub compile_group : GuardGroup → ℕ → Result SynthGuard
unfolding highest_from guard_id
compile_group g index = elim g.members [
  | [] ↦ err value_error
  | c ∷ cs ↦
      let highest = highest_from c cs in
      or_raise (lookup g.scenario templates) key_error >>= λ tmpl.
      or_raise (lookup highest.severity_hint severity_table) key_error >>= λ row. ok (record {
        id = guard_id g.scenario index;
        scenario = g.scenario;
        template = tmpl;
        direction = g.direction;
        threshold = row.threshold;
        on_fail = or_own row.on_fail_override highest.on_fail;
        provenance = c ∷ cs;
      })
]

unfoldable pub compile_groups : List (String × ℕ) → List GuardGroup → Result (List SynthGuard)
unfolding compile_group
compile_groups counter [] = ok []
compile_groups counter (g ∷ gs) =
    let index = count_of g.scenario counter + 1 in
    compile_group g index >>= λ guard.
    compile_groups (insert g.scenario index counter) gs >>= λ guards. ok (guard ∷ guards)

-- `compile_guards`
unfoldable pub compile_guards : List Candidate → Result (List SynthGuard)
unfolding group_candidates compile_groups
compile_guards candidates = group_candidates candidates [] >>= compile_groups []

abbrev pub texts : List String → Json
texts ss = arr (of_list (map str ss))

abbrev pub provenance_json : Candidate → Json
provenance_json c = obj (
    field "anchor" c.source_anchor
      (field "rule_text" (str c.rule_text) (field "notes" (str c.notes) end)))

-- The guard as the document has it.
abbrev pub guard_json : SynthGuard → Json
guard_json g = obj (
    field "id" (str g.id) (
      field "scenario" (str g.scenario) (
        field "detector" (str g.template.detector) (
          field "direction" (texts g.direction) (
            field "config" g.template.config (
              field "threshold" (float g.threshold) (
                field "on_fail" (str g.on_fail) (
                  field "evidence" (str g.template.evidence) (
                    field "provenance" (arr (of_list (map provenance_json g.provenance)))
                      end)))))))))
