-- ===== src/Pii/Detector.antt =====
-- detector.py and service.py: the scan of a text, the removal of overlaps, and the check. The pattern
-- of an entity runs on the `regex` library: it is a field that gives the matches of a text. The sum
-- with the boost and the rounding are Python's, on floats, and are parameters.
use Prim.Native.String
use guard_x.Common.{
  elem, ℕ, ◌+◌, ◌-◌, ◌==◌, String, Bool, not, ◌&&◌, List, [], ◌∷◌, ◌++◌, map, any, all, length, ltb,
  if◌then◌else◌,
}
use guard_x.Common.Int.{pos}
use guard_x.Common.Float
use guard_x.Common.Float.{Float, finite, of_int}
use guard_x.Common.Sort.{sort_by}
use guard_x.Common.Text.{◌<>◌, contains, lower, text_len, text_lt, join}
use guard_x.Pii.Validators.{run}

-- `Span`
pub record Span : Type 0 where
  pub start : ℕ
  pub stop : ℕ
  pub label : String
  pub confidence : Float

-- `Entity`; `find_all` gives the start and the end of each match.
pub record Entity : Type 0 where
  pub label : String
  pub find_all : String → List (ℕ × ℕ)
  pub context_words : List String
  pub base_confidence : Float
  pub validators : List String
  pub requires_context : Bool

-- `EntityPack`
pub record EntityPack : Type 0 where
  pub pack_id : String
  pub version : String
  pub entities : List Entity

abbrev pub context_radius : ℕ
context_radius = 40

abbrev min_ℕ : ℕ → ℕ → ℕ
min_ℕ a b = if ltb b a then b else a

-- `_context_hit`
unfoldable pub context_hit : String → ℕ → ℕ → List String → Bool
unfolding lower contains
context_hit text start stop words =
    let lo = start - context_radius in
    let hi = min_ℕ (text_len text) (stop + context_radius) in
    let window = lower (String.slice text lo hi) in any (λ w. contains w window) words

-- The key `(start, -confidence, -(end - start))`, compared as tuples are.
abbrev pub key_less : Span → Span → Bool
key_less r s =
    if not (r.start == s.start)
    then ltb r.start s.start
    else if not (Float.eq r.confidence s.confidence)
    then Float.lt s.confidence r.confidence
    else ltb (s.stop + r.start) (r.stop + s.start)

-- The loop over the sorted spans, where the first argument is `out[-1]`.
unfoldable pub place : Span → List Span → List Span
place last [] = last ∷ []
place last (s ∷ ss) =
    let winner = if Float.lt last.confidence s.confidence then s else last in
    let replaced = place winner ss in
    let appended = place s ss in if ltb s.start last.stop then replaced else last ∷ appended

abbrev pub place_all : List Span → List Span
place_all [] = []
place_all (s ∷ ss) = place s ss

-- `_dedup_overlaps`
unfoldable pub dedup_overlaps : List Span → List Span
unfolding place sort_by
dedup_overlaps spans = if ltb (length spans) 2 then spans else place_all (sort_by key_less spans)

-- `max` of a list, from its first element on.
unfoldable pub max_from : Float → List Span → Float
max_from m [] = m
max_from m (s ∷ ss) = max_from (if Float.lt m s.confidence then s.confidence else m) ss

-- `score`
unfoldable pub score : List Span → Float
unfolding max_from
score [] = of_int (pos 0)
score (s ∷ ss) = max_from s.confidence ss

-- The labels, each once.
unfoldable pub distinct_labels : List Span → List String
distinct_labels [] = []
distinct_labels (s ∷ ss) =
    let rest = distinct_labels ss in if elem s.label rest then rest else s.label ∷ rest

-- `_explain`
unfoldable pub explain : List Span → EntityPack → String
unfolding distinct_labels sort_by
explain [] pack = "no PII entities matched"
explain (s ∷ ss) pack =
    let labels = join ", " (sort_by text_lt (distinct_labels (s ∷ ss))) in
    "pack=" <> pack.pack_id <> "@" <> pack.version <> " matched: " <> labels

-- `SpanOut`, and `CheckResponse` without its latency and its version.
pub record CheckResponse : Type 0 where
  pub score : Float
  pub verdict : String
  pub spans : List Span
  pub explanation : String

module _ (add_boost : Float → Float) (round3 : Float → Float) where
  -- `min(1.0, conf + CONTEXT_BOOST)`
  abbrev pub boosted : Float → Float
  boosted conf = let c = add_boost conf in if Float.lt c (of_int (pos 1)) then c else of_int (pos 1)

  -- One match of an entity: no span, or one.
  unfoldable pub scan_match : String → Entity → ℕ × ℕ → List Span
  unfolding context_hit run
  scan_match text ent (start, stop) =
      let match = String.slice text start stop in
      let has_ctx = context_hit text start stop ent.context_words in
      let conf = if has_ctx then boosted ent.base_confidence else ent.base_confidence in
      if not (all (λ v. run v match) ent.validators)
      then []
      else if ent.requires_context && not has_ctx
      then []
      else record { start = start; stop = stop; label = ent.label; confidence = conf } ∷ []

  unfoldable pub scan_matches : String → Entity → List (ℕ × ℕ) → List Span
  unfolding scan_match
  scan_matches text ent [] = []
  scan_matches text ent (m ∷ ms) = scan_match text ent m ++ scan_matches text ent ms

  -- `scan_entity`
  unfoldable pub scan_entity : String → Entity → List Span
  unfolding scan_matches
  scan_entity text ent = scan_matches text ent (ent.find_all text)

  -- `all_spans`
  unfoldable pub all_spans : String → List Entity → List Span
  unfolding scan_entity
  all_spans text [] = []
  all_spans text (e ∷ es) = scan_entity text e ++ all_spans text es

  -- `scan`
  unfoldable pub scan : String → EntityPack → List Span
  unfolding all_spans dedup_overlaps
  scan text pack = dedup_overlaps (all_spans text pack.entities)

  -- `Span.as_dict`
  abbrev pub as_dict : Span → Span
  as_dict s = record s { confidence = round3 s.confidence }

  -- `check`, on the loaded pack.
  unfoldable pub check : String → EntityPack → CheckResponse
  unfolding scan score explain
  check text pack =
      let spans = scan text pack in
      let s = score spans in
      record {
        score = s;
        verdict = if Float.lt (of_int (pos 0)) s then "FAIL" else "PASS";
        spans = map as_dict spans;
        explanation = explain spans pack;
      }
