-- ===== src/Tests/Evidence.antt =====
-- Ingestion, verification and anchors of one small chain.
use guard_x.Common.{
  ℕ, ◌≤◌, ◌≡◌, refl, String, true, false, Option, none, some, List, [], ◌∷◌, ◌++◌, arith, eq_iff,
  length, map,
}
use guard_x.Common.Int.{pos}
use guard_x.Common.Result.{ok}
use guard_x.Common.Text.{strip_prefix, contains}
use guard_x.Signing.Canonical.{canonical_json}
use guard_x.Evidence.Chain.{compute_event_hash}
use guard_x.Evidence.Event.{EventBody, EventIn}
use guard_x.Evidence.Timestamp.{parse_ts, print_ts}
use guard_x.Evidence.Minimizer.{minimize_event}
use guard_x.Evidence.Store.{GuardDecision, ChainAnchor, Db, select_chain, find_head}
use guard_x.Evidence.Ingest.{IngestResult, ingest, or_fresh}
use guard_x.Evidence.Verify.{
  ChainVerifyReport, Reason, bad, verify_rows, verify_chain, recomputed_hash,
}
use guard_x.Evidence.Chained.{IsChained, good}
use guard_x.Evidence.Consistent.{IsConsistent, IsCanonicalTs}
use guard_x.Evidence.Preserve.{ingest-IsConsistent, verify_chain-of_IsConsistent}
use guard_x.Evidence.Detect.{
  verify_chain_sound, verify_chain_edited, verify_chain_relinked, verify_chain_gap,
  verify_chain_truncated, verify_rows-set_shadow, set_shadow,
}
use guard_x.Evidence.Anchor.{sign_anchor, sign_anchor-Tiles, Extends}
use guard_x.Evidence.Added.{Adds, ingest-Adds}
use guard_x.Evidence.Query.{EventOut, list_events}
use guard_x.Evidence.Paging.{IsPage, list_events-IsPage}
use guard_x.Tests.Setup.{py, value_or, service, bob}

abbrev body : String → EventBody
body i = record {
  event_id = i;
  tenant = "acme";
  app = "bot";
  env = "prod";
  request_id = "r1";
  policy = "p1";
  bundle_seq = pos 1;
  guard_id = none;
  scenario = none;
  detector = none;
  direction = none;
  verdict = "allow";
  score = none;
  action_taken = none;
  latency_ms = none;
  evidence_mode = "none";
  spans = some [];
  text_hash = none;
  is_shadow = false;
}

abbrev event : String → EventIn
event i = record { ts = "1970-01-01T00:00:00Z"; body = body i }

abbrev events : List EventIn
events = event "e1" ∷ event "e2" ∷ []

abbrev empty : Db
empty = record { decisions = []; heads = []; anchors = [] }

abbrev nothing : Db × IngestResult
nothing = (empty, record { accepted = 0; chain_head = [] })

unfoldable outcome : Db × IngestResult
unfolding ingest parse_ts compute_event_hash canonical_json minimize_event
outcome = value_or nothing (ingest py service (pos 0) events empty)

ingested : ingest py service (pos 0) events empty ≡ ok outcome
unfolding ingest parse_ts compute_event_hash canonical_json minimize_event outcome
ingested = refl

empty-IsConsistent : IsConsistent py empty
unfolding find_head
empty-IsConsistent t a = (refl, refl)

epoch-IsCanonicalTs : (i : String) → IsCanonicalTs py (event i)
unfolding print_ts strip_prefix
epoch-IsCanonicalTs i t h = refl

ingest-IsConsistent_example : IsConsistent py outcome.0
ingest-IsConsistent_example =
    ingest-IsConsistent py (pos 0) service events empty outcome ingested
      (epoch-IsCanonicalTs "e1", (epoch-IsCanonicalTs "e2", tt)) empty-IsConsistent

ingest-Adds_example :
    Adds py empty events outcome.0 × (outcome.1.accepted ≡ 2) × (1 ≤ 2) × (2 ≤ 500)
ingest-Adds_example = ingest-Adds py service (pos 0) events empty outcome ingested

stored-IsConsistent : IsConsistent py outcome.0
stored-IsConsistent =
    ingest-IsConsistent py (pos 0) service events empty outcome ingested
      (epoch-IsCanonicalTs "e1", (epoch-IsCanonicalTs "e2", tt)) empty-IsConsistent

verify_chain-of_IsConsistent_example :
    verify_chain py "acme" "bot" outcome.0
    ≡ ok (
        good
          (or_fresh "acme" "bot" (find_head "acme" "bot" outcome.0.heads)).chain_seq
          (or_fresh "acme" "bot" (find_head "acme" "bot" outcome.0.heads)).event_hash)
verify_chain-of_IsConsistent_example =
    verify_chain-of_IsConsistent py "acme" "bot" outcome.0 stored-IsConsistent

abbrev report : ChainVerifyReport
report = good 2 (some "sha256:a1")

verified : verify_chain py "acme" "bot" outcome.0 ≡ ok report
unfolding outcome find_head ingest parse_ts compute_event_hash canonical_json minimize_event
    contains
verified = verify_chain-of_IsConsistent py "acme" "bot" outcome.0 stored-IsConsistent

verify_chain_sound_example :
    (k : Option String) × IsChained py 0 none
      (select_chain "acme" "bot" outcome.0)
      (length (select_chain "acme" "bot" outcome.0))
      k
    × (report ≡ good (length (select_chain "acme" "bot" outcome.0)) k)
verify_chain_sound_example = verify_chain_sound py "acme" "bot" outcome.0 report verified refl

abbrev row : String → ℕ → Option String → String → GuardDecision
row i n prev hash = record {
  body = record (body i) { spans = none };
  at = pos 0;
  chain_seq = n;
  prev_event_hash = prev;
  event_hash = hash;
}

abbrev stored : List GuardDecision → Db
stored rs = record { decisions = rs; heads = []; anchors = [] }

abbrev first : GuardDecision
first = row "e1" 1 none "sha256:a1"

abbrev second : GuardDecision
second = row "e2" 2 (some "sha256:a1") "sha256:a1"

-- A row whose contents have been edited behind its hash.
abbrev edited : GuardDecision
edited = row "block" 1 none "sha256:a1"

abbrev relinked : GuardDecision
relinked = row "e1" 1 (some "sha256:a1") "sha256:a1"

select_edited : select_chain "acme" "bot" (stored (edited ∷ [])) ≡ [] ++ (edited ∷ [])
unfolding select_chain
select_edited = refl

select_relinked : select_chain "acme" "bot" (stored (relinked ∷ [])) ≡ [] ++ (relinked ∷ [])
unfolding select_chain
select_relinked = refl

select_second : select_chain "acme" "bot" (stored (second ∷ [])) ≡ [] ++ (second ∷ [])
unfolding select_chain
select_second = refl

select_both :
    select_chain "acme" "bot" (stored (second ∷ first ∷ []))
    ≡ select_chain "acme" "bot" (stored (first ∷ [])) ++ second ∷ []
unfolding select_chain
select_both = refl

recomputed_edited : recomputed_hash py edited ≡ ok "sha256:b1"
unfolding recomputed_hash print_ts strip_prefix canonical_json contains
recomputed_edited = refl

two_verified : verify_chain py "acme" "bot" (stored (second ∷ first ∷ [])) ≡ ok report
unfolding verify_chain recomputed_hash print_ts strip_prefix canonical_json contains
two_verified = refl

verify_chain_edited_example :
    verify_chain py "acme" "bot" (stored (edited ∷ []))
    ≡ ok (bad 1 edited Reason.event_hash_mismatch)
verify_chain_edited_example =
    verify_chain_edited py "acme" "bot" (stored (edited ∷ [])) [] 0 none edited [] "sha256:b1"
      select_edited (refl, refl) refl refl recomputed_edited
      (ground (arith, eq_iff "sha256:b1" "sha256:a1"))

verify_chain_relinked_example :
    verify_chain py "acme" "bot" (stored (relinked ∷ []))
    ≡ ok (bad 1 relinked Reason.prev_hash_mismatch)
verify_chain_relinked_example =
    verify_chain_relinked py "acme" "bot" (stored (relinked ∷ [])) [] 0 none relinked []
      select_relinked (refl, refl) refl (λ q. cc)

verify_chain_gap_example :
    verify_chain py "acme" "bot" (stored (second ∷ [])) ≡ ok (bad 1 second Reason.seq_gap)
verify_chain_gap_example =
    verify_chain_gap py "acme" "bot" (stored (second ∷ [])) [] 0 none second [] select_second
      (refl, refl) (λ q. omega arith)

verify_chain_truncated_example :
    (j : Option String) × (verify_chain py "acme" "bot" (stored (first ∷ []))
      ≡ ok (good (length (select_chain "acme" "bot" (stored (first ∷ [])))) j))
verify_chain_truncated_example =
    verify_chain_truncated py "acme" "bot" (stored (second ∷ first ∷ [])) (stored (first ∷ []))
      (second ∷ []) report two_verified refl select_both

verify_rows-set_shadow_example :
    verify_rows py 2 1 none (map (set_shadow py true) (first ∷ second ∷ []))
    ≡ verify_rows py 2 1 none (first ∷ second ∷ [])
verify_rows-set_shadow_example = verify_rows-set_shadow py true 2 1 none (first ∷ second ∷ [])

abbrev anchored : Db
anchored = record {
  decisions = [];
  heads =
      record {
        tenant = "acme";
        app = "bot";
        chain_seq = 2;
        event_hash = some "sha256:a1";
        updated_at = pos 0;
      }
      ∷ [];
  anchors = [];
}

abbrev no_anchor : ChainAnchor
no_anchor = record {
  tenant = "";
  app = "";
  anchor_at = pos 0;
  start_seq = 0;
  end_seq = 0;
  head_hash = none;
  signature = "";
  signing_key_id = "";
}

unfoldable signed : Db × ChainAnchor
unfolding sign_anchor canonical_json
signed = value_or (anchored, no_anchor) (sign_anchor py bob "acme" "bot" (pos 0) anchored)

signed_lem : sign_anchor py bob "acme" "bot" (pos 0) anchored ≡ ok signed
unfolding sign_anchor canonical_json signed
signed_lem = refl

sign_anchor-Tiles_example : Extends "acme" "bot" anchored 0 signed
sign_anchor-Tiles_example =
    sign_anchor-Tiles py bob "acme" "bot" (pos 0) anchored signed 0 signed_lem refl

-- The chain is stored with its newest row first.
unfoldable listed : List EventOut
unfolding list_events
listed = value_or [] (list_events py "acme" "bot" 0 1 (stored (second ∷ first ∷ [])))

listed_lem : list_events py "acme" "bot" 0 1 (stored (second ∷ first ∷ [])) ≡ ok listed
unfolding list_events listed
listed_lem = refl

list_events-IsPage_example :
    (1 ≤ 1)
    × (1 ≤ 5000)
    × IsPage py 0 1 (select_chain "acme" "bot" (stored (second ∷ first ∷ []))) listed
list_events-IsPage_example =
    list_events-IsPage py "acme" "bot" 0 1 (stored (second ∷ first ∷ [])) report listed listed_lem
      two_verified refl
