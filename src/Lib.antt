-- ===== src/Lib.antt =====
-- GuardX: the Python control plane of a guardrail gateway, its detectors, and its automation plane.
--
-- The control plane keeps a registry of policies, which people write and approve, and an evidence
-- store, to which the gateways report their decisions. Every route first turns its request into a
-- principal with a role. A policy document is linted, stored as a draft, and approved by another
-- person; the automation plane proposes documents, which land as drafts or are approved by a rule.
-- Events are appended to one hash chain for each (tenant, app), which can be verified, and whose
-- head is signed as an anchor. Documents and events are hashed over their canonical JSON text.
-- The detectors are services that the gateway asks about a text: each gives a score, a verdict and
-- spans. The automation plane reads the control plane's answers and proposes documents: new rules of
-- a feed, thresholds that fit the analysts' labels, or guards for the rules of a written policy.
--
-- Common: Booleans, lists, integers, floats, texts, sorting, JSON values, and `Result`, which has an
--   exception for each one that the code raises or lets through.
-- Platform: what the code takes of libraries, as one record of parameters: SHA-256, the text of a
--   float, ISO timestamps, the signing key, the schema validator, and what a commit does with a JSON
--   column changed in place. Nothing is assumed of them but where a theorem says so.
-- Signing/Canonical: control/guardx_control/signing/canonical.py.
-- Auth/Role, Auth/Claims, Auth/Principal: control/guardx_control/api/auth.py and api/oidc.py. The key
--   set and the decoding of tokens are parameters (`TokenLibrary`).
-- Evidence: control/guardx_control/evidence, api/evidence.py and models/evidence.py. `Db` has a list
--   of rows for each table in the order of insertion; `ingest`, `verify_chain` and `sign_anchor` are
--   the routes, as functions from the database to a result with the new one.
-- Linter: control/guardx_control/linter/linter.py, with Python's operations on a document in
--   Linter/Document.
-- Policy: control/guardx_control/api/policies.py, models/policy.py and models/tenant.py. `Registry`
--   has the tenants, the policy versions and the audit log; each route is a function of that name.
-- Bundles: control/guardx_control/bundle_builder/builder.py, api/bundles.py and api/detectors.py. The
--   order in which SQL returns the selected policies is a parameter.
-- Profiles: control/guardx_control/profiles/inheritance.py and api/profiles.py. The files of a directory
--   are a list of specs with the documents that YAML makes of them; the trace of overrides is returned
--   beside the merged document. Chain has the packs and the chain of their parents, Merge the merge of
--   two documents, Compile the composition of the layers.
-- Feedback: control/guardx_control/api/feedback.py and models/feedback.py.
-- Pii: detectors/pii/pii_detector. Validators is validators.py, Detector is detector.py with the check
--   of service.py, Pack is entity_pack.py. The matches of a pattern, the boost of a confidence and its
--   rounding are parameters.
-- Nli: detectors/nli/nli_detector. Segmenter is segmenter.py, whose regular expressions are parameters;
--   Check is the check of service.py, with the judge's answer on each claim as a parameter.
-- Safety: detectors/safety/safety_detector/service.py. What the call of the judge ends in is an argument.
-- Automation/Gitleaks, Automation/Ingestor: automation/guardx_automation/feeds/gitleaks.py, from the
--   parsed ruleset to the proposal. The control plane's answers are parameters.
-- Automation/Threshold, Samples, Tuner: automation/guardx_automation/autotuner/tuner.py, with the
--   statistics and the search in Threshold. The arithmetic on floats is a record of parameters
--   (`FloatOps`), since it rounds.
-- Automation/Templates, Synth, Synthesize: automation/guardx_automation/synthesizer/synth.py. The
--   judge's answer on a chunk and the split of a text at blank lines are parameters.
-- Tests: the components on concrete inputs.
--
-- Every loop of the code that is modelled runs over a list or a document, so its function recurses
-- on that, but for the loop over the parents of a profile: `resolve_loop` makes at most so many
-- turns and gives None beyond them, and `resolve_chain` allows one turn more than there are files,
-- which is enough. The search over the thresholds (`search_loop`) is given its number of turns,
-- since a float that grows by steps passes the end of the grid only if the additions do not round
-- the step away; the theorem on it says how many turns are enough. A route that raises leaves the
-- database as it was, since its transaction is rolled back. Calls are atomic: the code locks the
-- head row of a chain, and other interleavings of transactions are not modelled. Left out are the
-- texts of messages, the encoding of most HTTP answers, the gateway (Go), the console, the calls of
-- the judge, the loading of rubrics, the fetch of feeds, and the reading of PDF files.
pub mod Common
pub mod Signing
pub mod Platform
pub mod Auth
pub mod Evidence
pub mod Linter
pub mod Policy
pub mod Profiles
pub mod Feedback
pub mod Pii
pub mod Tests
pub mod Bundles
pub mod Automation
pub mod Nli
pub mod Safety
