-- ===== src/Nli/Segmenter.antt =====
-- segmenter.py: the claims of a text. The regular expressions run on Python's `re`, as parameters.
use guard_x.Common.{
  String, Bool, not, ◌&&◌, Option, none, some, List, [], ◌∷◌, ◌++◌, map, all, filter, elem, length,
  ltb, str_eq, if◌then◌else◌,
}
use guard_x.Common.Text.{◌<>◌, lower, strip, words}

pub record Patterns : Type 0 where
  -- `_SENT_BOUNDARY.split(text)`: chunks and the punctuation between them, in turn
  pub split_sentences : String → List String
  -- `_CONJ_SPLIT.split(s)`; none if the pattern is not found in it
  pub split_conjunctions : String → Option (List String)
  pub looks_propositional : String → Bool

abbrev pub abbrevs : List String
abbrevs =
    "mr." ∷ "mrs." ∷ "ms." ∷ "dr." ∷ "sr." ∷ "jr." ∷ "st." ∷ "u.s." ∷ "u.k." ∷ "e.g." ∷ "i.e."
    ∷ "etc." ∷ "vs." ∷ "no." ∷ "fig." ∷ "inc." ∷ "ltd." ∷ []

abbrev add_sentence : String → List String → List String
add_sentence s rest = if str_eq s "" then rest else s ∷ rest

-- Each chunk with the punctuation behind it.
unfoldable pub reassemble : List String → List String
unfolding strip
reassemble [] = []
reassemble (chunk ∷ []) = add_sentence (strip chunk) []
reassemble (chunk ∷ punct ∷ parts) = add_sentence (strip (chunk <> punct)) (reassemble parts)

unfoldable pub last_word : List String → String
last_word [] = ""
last_word (w ∷ []) = w
last_word (w ∷ v ∷ ws) = last_word (v ∷ ws)

abbrev pub ends_in_abbrev : String → Bool
ends_in_abbrev s = elem (lower (last_word (words s))) abbrevs

-- The loop that merges; the first argument is `merged_sents[-1]`.
unfoldable pub merge_from : String → List String → List String
unfolding lower words last_word
merge_from last [] = last ∷ []
merge_from last (s ∷ ss) =
    let merged = merge_from (last <> " " <> s) ss in
    let apart = merge_from s ss in if ends_in_abbrev last then merged else last ∷ apart

abbrev merge_sentences : List String → List String
merge_sentences [] = []
merge_sentences (s ∷ ss) = merge_from s ss

module _ (patterns : Patterns) where
  -- `sentences`
  unfoldable pub sentences : String → List String
  unfolding reassemble merge_from strip
  sentences text =
      let stripped = strip text in
      if str_eq stripped ""
      then []
      else merge_sentences (reassemble (patterns.split_sentences stripped))

  -- The claims of a sentence.
  unfoldable pub split_claim : String → List String
  unfolding strip
  split_claim s = elim (patterns.split_conjunctions s) [
    | none ↦ strip s ∷ []
    | some found ↦
        let parts = filter (λ p. not (str_eq p "")) (map strip found) in
        if ltb 1 (length parts) && all patterns.looks_propositional parts
        then parts
        else strip s ∷ []
  ]

  unfoldable pub split_claims : List String → List String
  unfolding split_claim
  split_claims [] = []
  split_claims (s ∷ ss) = split_claim s ++ split_claims ss

  -- `claims`
  unfoldable pub claims : String → List String
  unfolding sentences split_claims words
  claims text = filter (λ c. not (ltb (length (words c)) 3)) (split_claims (sentences text))
