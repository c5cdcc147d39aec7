-- ===== src/Lib.antt =====
-- DocPlane: a documentation service whose domains are KNOW (pages), WORK (initiatives, captures and
-- conditions), MODEL (entities and artifacts) and OBSERVE (observations and freshness). This library
-- models the publication of changes to pages, the core of WORK and OBSERVE, the ownership and the
-- scopes that guard generated pages, and the commands that connect them.
--
-- - Publication: docs-api/app/publication.py. `evaluate_change` turns the corpus and a change's
--   operations into a candidate with results and errors (Types, Candidate, Pages, Apply, Checks and
--   Evaluate), and `publish_corpus` is what `publish_change` writes to the tables of docs (Publish).
--   Build is the part of docs-api/app/generator.py that refuses a corpus. The other modules under
--   Publication hold the proofs.
-- - TextPatch, Markdown: docs-api/app/text_patch.py and markdown_sections.py, which the operations on
--   text and on sections call.
-- - Redirects: `follow_redirects` of docs-api/app/corpus_structure.py.
-- - Ownership: docs-api/app/artifact_ownership.py. Which artifact owns a generated page.
-- - Scopes: docs-api/app/principal_scopes.py. What a scoped agent may ask for.
-- - Ledger: scripts/work_worker/ledger.py. The worker's own record of discrepancies and decisions.
-- - Http: the results of the request handlers of docs-api/app; `key` is `_key`.
-- - Receipts: docs-api/app/mutation_receipts.py. Answers are stored under principal and key.
-- - Events: docs-api/app/event_store.py. The append-only log with its sequence.
-- - Conditions: docs-api/app/work_conditions_api.py. `reconcile_rows` is the two loops of
--   `reconcile_generated_artifact_conditions`, `reconcile_conditions` the whole handler.
-- - Freshness: `derive_freshness` of docs-api/app/observe_api.py.
-- - Gaps: `plan_gap_reconciliation` of docs-api/app/observe_api.py.
-- - Derivation: scripts/generated_conditions.py. From a status and the catalogues of an artifact to
--   its conditions.
-- - Runner: scripts/reconcile_generated_conditions.py. It sends the derived set to WORK and reads
--   the answer.
-- - Work: docs-api/app/work_api.py and work_models.py. Creation, transitions, gates, links, dependencies,
--   promotion, dispositions, and the capture inbox. Work/Triage takes the three triages of the inbox
--   as requests, receipts included.
-- - Brief: docs-api/app/work_brief.py. The checkpoint of an initiative's items and how a brief
--   groups them.
-- - Base, Json, Checked, Attempt: texts, lists, sorting, dictionaries, JSON values, functions that
--   raise, and the errors of an operation of a change.
-- - Tests: runs on small inputs.
--
-- A handler is a function from the tables that it reads and writes to a result: an answer with the
-- new tables, or the status and code of an exception, which leaves the tables as they were. A
-- transaction locks what it changes, so requests are a sequence of steps. Python's dict is an
-- association list in order of insertion; a set is a list without repetition; a time is a number of
-- seconds. The payload of an operation of a change has the JSON types that its fields are meant to
-- have; a field that may be missing is an option. An operation's receipt carries its errors and
-- warnings, not what only informs its reader.
--
-- What the standard library or the database computes is a parameter: SHA-256, `str.lower`, the digest
-- of a request, the size of a serialised briefing, the detection of secrets, the parsed UUID, the
-- clock, and the ids that are drawn. So are, for now, parts of the repository that are not modelled:
-- the JSON of a row of WORK, the identity of a corpus, the conflict that `build_nav` finds, the link
-- rewriting of migration/links.py, and whether a change's plan names the owner of a page.
--
-- Recursion is structural, but for two loops on fuel: the search of a text patch has one turn more
-- than the text has characters, since each turn moves its cursor on, and `follow_redirects` one turn
-- more than there are redirects, since each turn meets a source that it has not seen.
--
-- Not modelled: the cut of a briefing to its bound (a parameter of Derivation), the status, events and
-- deployment of a change and its composition with the ownership of pages, the navigation and the
-- rendering of pages, the MODEL domain, authentication, the agent interface, the handlers of
-- the work brief, the importers, the worker's readings, the MCP server, the dashboard and the one-off migration; reads
-- that only select and redact rows.
pub mod Base
pub mod Http
pub mod Receipts
pub mod Events
pub mod Brief
pub mod Conditions
pub mod Json
pub mod Checked
pub mod Runner
pub mod Freshness
pub mod Derivation
pub mod Tests
pub mod Work
pub mod Attempt
pub mod TextPatch
pub mod Markdown
pub mod Redirects
pub mod Scopes
pub mod Ownership
pub mod Ledger
pub mod Publication
pub mod Gaps
