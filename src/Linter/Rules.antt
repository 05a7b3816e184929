-- ===== src/Linter/Rules.antt =====
-- linter.py: the five rules and `lint_policy`. The texts of the messages are not modelled.
use guard_x.Common.{
  String, Bool, true, false, not, ◌&&◌, ◌||◌, List, [], ◌∷◌, ◌++◌, map, any, length, ltb, str_eq,
  if◌then◌else◌,
}
use guard_x.Common.Text.{◌<>◌, lower}
use guard_x.Common.Json.{Json, str, arr, nil, get, is_null, is_str, truthy, eq_json}
use guard_x.Common.Result.{Result, ok, ◌>>=◌, ◌>>◌}
use guard_x.Platform.{Platform}
use guard_x.Profiles.Merge.{check_hashable}
use guard_x.Linter.Document.{
  as_text, get_default, get_key, iterate, is_in, guards, section, default_fail_mode, envs, text_of,
}

-- `Severity`
pub data Severity : Type 0 where
  error warn info : Severity

abbrev pub is_error : Severity → Bool
is_error Severity.error = true
is_error Severity.warn = false
is_error Severity.info = false

-- `LinterIssue`, without its message.
pub record LinterIssue : Type 0 where
  pub code : String
  pub severity : Severity
  pub path : String

abbrev pub issue : String → Severity → String → List LinterIssue
issue c s p = record { code = c; severity = s; path = p } ∷ []

-- The issues that a loop over the guards yields.
unfoldable pub collect :
    {A : Type 0} → (A → Result (List LinterIssue)) → List A → Result (List LinterIssue)
collect f [] = ok []
collect f (g ∷ gs) = f g >>= λ xs. collect f gs >>= λ ys. ok (xs ++ ys)

module _ (py : Platform) where
  -- f"spec.guards.{g.get('id')}" and what follows it.
  abbrev pub guard_path : Json → String → Result String
  guard_path g rest = get "id" g >>= λ i. ok ("spec.guards." <> text_of py i <> rest)

  unfoldable pub check_fail_mode : Json → Json → Result (List LinterIssue)
  check_fail_mode default g = do
    mode ← get "fail_mode" g
    path ← guard_path g ""
    ok (
        if is_null mode && is_null default
        then issue "fail_mode.missing" Severity.error path
        else [])

  -- `_rule_missing_fail_mode`
  unfoldable pub rule_missing_fail_mode : Json → Result (List LinterIssue)
  rule_missing_fail_mode spec = do
    default ← default_fail_mode spec
    gs ← guards spec
    collect (check_fail_mode default) gs

  unfoldable pub check_verify_live : Json → Result (List LinterIssue)
  check_verify_live g = do
    scenario ← get "scenario" g
    if not (is_str scenario "secrets") then ok [] else do
      cfg ← section "config" g
      live ← get "verify_live" cfg
      path ← guard_path g ".config.verify_live"
      ok (if truthy live then issue "secrets.verify_live_prod" Severity.error path else [])

  -- `_rule_verify_live_in_prod`
  unfoldable pub rule_verify_live_in_prod : Json → Result (List LinterIssue)
  rule_verify_live_in_prod spec = do
    es ← envs spec
    prod ← is_in "prod" es
    if not prod then ok [] else do gs ← guards spec; collect check_verify_live gs

  unfoldable pub check_full_text : Json → Result (List LinterIssue)
  check_full_text g = do
    scenario ← get "scenario" g
    if not (is_str scenario "pii") then ok [] else do
      evidence ← get "evidence" g
      path ← guard_path g ".evidence"
      ok (
          if is_str evidence "full_text"
          then issue "pii.full_text_evidence" Severity.error path
          else [])

  -- `_rule_full_text_evidence_under_pii`
  unfoldable pub rule_full_text_evidence_under_pii : Json → Result (List LinterIssue)
  rule_full_text_evidence_under_pii spec = do gs ← guards spec; collect check_full_text gs

  unfoldable pub check_streaming : Json → Result (List LinterIssue)
  check_streaming g = do
    on_fail ← get "on_fail" g
    path ← guard_path g ".on_fail"
    ok (
        if is_str on_fail "block_and_explain"
        then issue "streaming.block_and_explain" Severity.warn path
        else [])

  unfoldable pub is_streaming : Json → Result Bool
  is_streaming spec = do
    labels ← section "labels" spec
    defaults ← section "defaults" spec
    flag ← get "streaming" defaults
    let labelled = get_default "streaming" (str "") labels >>= λ label.
        ok (str_eq (lower (text_of py label)) "true")
    if truthy flag then ok true else labelled

  -- `_rule_streaming_incompatible_actions`
  unfoldable pub rule_streaming_incompatible_actions : Json → Result (List LinterIssue)
  rule_streaming_incompatible_actions spec = do
    streaming ← is_streaming spec
    if not streaming then ok [] else do gs ← guards spec; collect check_streaming gs

-- One entry of `by_key`: scenario, direction, and the guards on both.
pub record Group : Type 0 where
  pub scenario : Json
  pub direction : Json
  pub members : List Json

-- `by_key.setdefault((scenario, d), []).append(g)`
unfoldable pub add_member : Json → Json → Json → List Group → List Group
add_member scen d g [] = record { scenario = scen; direction = d; members = g ∷ [] } ∷ []
add_member scen d g (k ∷ ks) =
    if eq_json scen k.scenario && eq_json d k.direction
    then record k { members = k.members ++ g ∷ [] } ∷ ks
    else k ∷ add_member scen d g ks

-- The key is a pair, which is hashed.
add_directions : Json → Json → List Json → List Group → Result (List Group)
add_directions scen g [] ks = ok ks
add_directions scen g (d ∷ ds) ks = do
  check_hashable scen
  check_hashable d
  add_directions scen g ds (add_member scen d g ks)

unfoldable pub by_key : List Json → List Group → Result (List Group)
unfolding add_member add_directions
by_key [] ks = ok ks
by_key (g ∷ gs) ks = get_default "direction" (arr nil) g >>= λ v.
    iterate v >>= λ ds. get "scenario" g >>= λ scen. add_directions scen g ds ks >>= by_key gs

-- `{g.get("on_fail") for g in gs}`
unfoldable pub actions : List Json → Result (List Json)
actions [] = ok []
actions (g ∷ gs) =
    get "on_fail" g >>= λ a. check_hashable a >>= λ u. actions gs >>= λ rest. ok (a ∷ rest)

abbrev pub is_blocking : Json → Bool
is_blocking a = is_str a "block" || is_str a "block_and_explain"

-- `g["id"]` of every guard.
unfoldable pub all_have_id : List Json → Result (Unit {0})
all_have_id [] = ok tt
all_have_id (g ∷ gs) = get_key "id" g >>= λ i. all_have_id gs

-- `", ".join` over these ids, which reads them all before it looks at their types.
unfoldable pub all_text_ids : List Json → Result (Unit {0})
all_text_ids [] = ok tt
all_text_ids (g ∷ gs) = get_key "id" g >>= as_text >>= λ i. all_text_ids gs

unfoldable pub check_group : Group → Result (List LinterIssue)
unfolding actions all_have_id all_text_ids
check_group k = if ltb (length k.members) 2 then ok [] else do
  acts ← actions k.members
  if any is_blocking acts && any (λ a. not (is_blocking a)) acts
      then (all_have_id k.members
          >> all_text_ids k.members
          >> ok (issue "guards.contradictory" Severity.warn "spec.guards"))
      else ok []

-- `_rule_contradictory_guards`
unfoldable pub rule_contradictory_guards : Json → Result (List LinterIssue)
rule_contradictory_guards spec = do gs ← guards spec; ks ← by_key gs []; collect check_group ks

-- `any(i.severity is Severity.ERROR for i in issues)`
abbrev pub has_error : List LinterIssue → Bool
has_error issues = any (λ i. is_error i.severity) issues

abbrev pub schema_issue : String → LinterIssue
schema_issue p = record { code = "schema.invalid"; severity = Severity.error; path = p }

module _ (py : Platform) where
  -- `validate_schema`
  unfoldable pub validate_schema : Json → List LinterIssue
  validate_schema document = map schema_issue (py.schema_errors document)

  -- The rules behind the schema, in their order.
  unfoldable pub lint_spec : Json → Result (List LinterIssue)
  lint_spec spec = do
    a ← rule_missing_fail_mode py spec
    b ← rule_verify_live_in_prod py spec
    c ← rule_full_text_evidence_under_pii py spec
    d ← rule_streaming_incompatible_actions py spec
    e ← rule_contradictory_guards spec
    ok (a ++ (b ++ (c ++ (d ++ e))))

  unfoldable pub lint_policy : Json → Result (List LinterIssue)
  unfolding validate_schema
  lint_policy document =
      let issues = validate_schema document in
      if has_error issues
      then ok issues
      else do spec ← section "spec" document; more ← lint_spec spec; ok (issues ++ more)
