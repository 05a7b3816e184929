-- ===== src/Safety/Signals.antt =====
-- service.py: the hard signals of the first layer, as substrings of the text.
use mathlib.Core.Bool.{true≢false}
use Prim.Native.String.{[], ◌∷◌}
use Prim.Native.Char.{Char}
use text.Mathlib.TextLemmas.{nil-append, cons-append}
use guard_x.Common.{
  ◌≡◌, ◌≢◌, sym, ap, ◌∙◌, String, true, false, some, none, List, arith, All, any, Bool-cases, inl,
  inr, is_some,
}
use guard_x.Common.Text.{◌<>◌, strip_prefix, begins_with, contains, lower}
use guard_x.Safety.Check.{hard_signals, first_signal, layer1_predict}

strip_prefix-append : (p s : String) → strip_prefix p (p <> s) ≡ some s
unfolding strip_prefix
strip_prefix-append [] s = ap some (nil-append s)
strip_prefix-append (c ∷ p) s = rw (cons-append c p s) (ground (arith, strip_prefix-append p s))

contains-of_begins_with : (p s : String) → begins_with p s ≡ true → contains p s ≡ true
unfolding contains
contains-of_begins_with p [] h = h
contains-of_begins_with p (c ∷ s) h = rw h

contains-cons : (c : Char) (p s : String) → contains p s ≡ true → contains p (c ∷ s) ≡ true
unfolding contains
contains-cons c p s h = ground arith

contains-append : (a p b : String) → contains p (a <> (p <> b)) ≡ true
contains-append [] p b =
    ap (contains p) (nil-append (p <> b))
    ∙ contains-of_begins_with p (p <> b) (ap is_some (strip_prefix-append p b))
contains-append (c ∷ a) p b =
    ap (contains p) (cons-append c a (p <> b))
    ∙ contains-cons c p (a <> (p <> b)) (contains-append a p b)

-- The phrase stands nowhere in the text.
abbrev pub Lacks : String → String → Type 0
Lacks s p = (before after : String) → s ≢ before <> (p <> after)

Lacks-of_contains : (s p : String) → contains p s ≡ false → Lacks s p
Lacks-of_contains s p h before after e =
    let apart : true ≡ false = sym (contains-append before p after) ∙ ap (contains p) (sym e) ∙ h in
    true≢false apart

any-false : (s : String) (ps : List String) → any (λ n. contains n s) ps ≡ false → All (Lacks s) ps
any-false s List.[] h = tt
any-false s (List.◌∷◌ p ps) h = elim (Bool-cases (contains p s)) [
  | inl hit ↦ cc (rw hit at h)
  | inr miss ↦ (Lacks-of_contains s p miss, any-false s ps (rw miss at h))
]

first_signal-none :
    (s : String) (signals : List (String × List String))
    → first_signal s signals ≡ none
    → All (λ signal. All (Lacks s) signal.1) signals
unfolding first_signal
first_signal-none s List.[] h = tt
first_signal-none s (List.◌∷◌ (cat, ps) signals) h =
    elim (Bool-cases (any (λ n. contains n s) ps)) [
      | inl hit ↦ cc (rw hit at h)
      | inr miss ↦ (any-false s ps miss, first_signal-none s signals (rw miss at h))
    ]

-- None of the six phrases stands in the lowered text.
abbrev pub HasNoSignal : String → Type 0
HasNoSignal text =
    let s = lower text in
    Lacks s "how to end my life"
    × Lacks s "kill myself"
    × Lacks s "how to build a pipe bomb"
    × Lacks s "how to make a bomb"
    × Lacks s "how to launder money"
    × Lacks s "how to commit fraud"

pub layer1_predict-none : (text : String) → layer1_predict text ≡ none → HasNoSignal text
unfolding layer1_predict
layer1_predict-none text h =
    let ((a, (b, _)), ((c, (d, _)), ((e, (f, _)), _))) =
      first_signal-none (lower text) hard_signals h in
    (a, b, c, d, e, f)
