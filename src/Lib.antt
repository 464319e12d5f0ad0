-- ===== src/Lib.antt =====
-- Models of FraudShield (fraudshield/), a service that analyses Android packages for banking fraud,
-- with the theorems on its durable state, its scores, its verdicts and its access rules.
--
-- The program takes an uploaded package, queues a job for it, and a worker analyses the package: it
-- scores what it finds, and checks the hypotheses of a language model against the evidence. Requests
-- come in over HTTP, are authenticated, and leave an event in the audit chain.
--
-- The parts, and the files that model them:
--
-- - The job queue, class JobRepository of fraudshield/core/repository.py over the table `jobs` of
--   fraudshield/core/database.py. Jobs/Row.antt has a row and the SQL statements as functions on the
--   list of rows, Jobs.antt the methods enqueue, claim, renew_lease, complete, fail, cancel and retry,
--   and Jobs/Calls.antt histories of calls. A method takes what it reads of the clock as arguments, in
--   microseconds, and returns a result and the table; one that raises returns the error, and its table
--   stays as it was. enqueue takes the table twice, for its first lookup and for its INSERT, since
--   another process may write in between. fail reads its row and updates it in one step, which the
--   code does in two: a claim by another process in between is not modelled. The methods list and
--   summary, which only report, are left out. Jobs/Effects.antt tells what the statements do to a table
--   without them; Invariant, Histories, Claim, Leases, Serving, Lifecycle and Idempotency hold the
--   proofs.
-- - The worker, process_next of fraudshield/worker.py, in Worker.antt: a claim, the analysis, and the
--   complete or the fail that ends it. What the analysis ends in is an argument, and so are the calls of
--   the queue, the renewals of its lease among them, that happen while it runs. The artifacts on the
--   disk are not modelled. Outcomes and Settled hold the proofs.
-- - The audit chain, class AuditRepository of fraudshield/core/repository.py over the tables
--   `audit_events` and `audit_chain_state`. Audit.antt has append and verify_chain, with the keys and
--   their rotation. HMAC-SHA256 and the JSON encoder are parameters: a theorem that needs it assumes
--   that the payloads in question do not collide under the keys in question. Columns with JSON hold the
--   value that was written.
--   The paged queries are left out.
-- - The risk scorer, fraudshield/deceptiscope/scoring.py. Scoring/Types.antt to Scoring/Calculate.antt
--   follow RiskScorer.calculate from the rules to the report. Floating point is the interface Floats of
--   Prelude/Floats.antt: the model computes operation by operation, and a theorem names what it assumes
--   of them, if anything.
-- - The hypothesis verifier, fraudshield/deceptiscope/verifier.py. Verifier/Types.antt and
--   Verifier/Index.antt have the findings and the helpers, Verifier/Verdicts.antt and
--   Verifier/Verify.antt the verdict of each category, Verifier/Apply.antt the merge into the
--   hypotheses. The methods upper, lower and the search for a part of a text are parameters. Items that
--   are no dict, which the code filters out, are left out of the lists.
-- - Authentication and roles, fraudshield/core/security.py. Security/Roles.antt has the roles and their
--   permissions, Security/Requests.antt the authentication of a request and the permission that it
--   asks. The decoder of tokens, a library, is a parameter, and so are the methods that split and tidy
--   a text.
-- - The check of an uploaded package, validate_apk_archive of fraudshield/deceptiscope/validator.py, in
--   Archive/Validate.antt; Archive/Names.antt has the loop over the entries, Archive/Acceptance.antt what
--   is accepted. Opening the file is the library's: its size, its first bytes and its directory are
--   arguments.
-- - The planner of experiments, fraudshield/deceptiscope/experiments.py: Planner/Requests.antt has the
--   requests of the language model that are accepted, Planner/Accounts.antt what is made of each element
--   of their list, Planner/Plan.antt the plan of a request, its score
--   and the plan of a round. Parsing the fields of a request is the library's and a parameter, and so are
--   the definitions of the experiments and the capabilities of the environment.
-- - Fraud DNA: FraudDNARepository of fraudshield/core/repository.py in Campaigns/Store.antt, the
--   similarity of two fingerprints (fraudshield/deceptiscope/frauddna/similarity.py) in
--   Campaigns/Similarity.antt, the distance of two icons in Campaigns/Icons.antt, and the correlator of
--   fraudshield/deceptiscope/frauddna/campaigns.py, over the repository, in Campaigns/Correlate.antt. An
--   id "CAMP-nnn" or "F-nnn" is its kind and its number. SequenceMatcher, the methods of texts and
--   `int(s, 16)` are parameters. Keys, Links and Weights hold lemmas; Refines, Anchors, Integrity
--   and Ids what is proved. The in-memory mode of the correlator is left out.
-- - The lineage of synthetic markers (fraudshield/deceptiscope/lineage/): Lineage/Markers.antt has the
--   markers and their manager, Lineage/Evidence.antt an item of evidence, Lineage/Correlate.antt the
--   correlator. The ids "Mnnn" and "Pnnn" are their numbers; items whose metadata are no dict, and
--   descriptions that are no text, are left out. Base64, hexadecimal, URL quoting and the search for a
--   part of a text are parameters. Observed, Complete, Chains and Manager hold the proofs.
-- - The analyses, class AnalysisRepository of fraudshield/core/repository.py over the table `analyses`,
--   in Analyses/Store.antt, with the cleanup of synthetic records; Lifecycle, Latest and Cleanup hold the
--   proofs.
-- - The indicators, class IndicatorRepository of the same file over `indicators` and
--   `indicator_sightings`: Indicators/Normalize.antt has normalize_indicator, Indicators/Store.antt
--   upsert and get; Counts, Upsert and Merge hold the proofs. The methods of texts, urlsplit, the IDNA
--   codec and ipaddress are parameters. The paged query list is left out.
-- - The fraud delta, fraudshield/deceptiscope/fraud_delta.py, in Delta/Calculate.antt: the baselines of
--   the categories are arguments. Delta/Explained.antt has what a score is made of.
-- - The settings, class Settings of fraudshield/core/config.py: Configuration/Settings.antt has the
--   record and its properties, Configuration/Checks.antt and Configuration/Validate.antt follow validate,
--   with its RuntimeErrors as pairs of a condition and a message; Hardened holds what is accepted in
--   production, Keyring the keys that the audit chain gets. urlsplit, parse_qs and the file system are
--   parameters.
-- - The recovery of payloads, class PayloadRecoveryManager of
--   fraudshield/deceptiscope/payloads/recovery_manager.py: Payloads/Recovery.antt has its methods,
--   Payloads/Handed.antt a run of calls and what each hands on, Payloads/Bounded.antt the bounds of a
--   run. SHA-256 and what reading a file ends in are parameters; the analyser of payloads is left out.
--
-- Prelude.antt and its children hold the shared names, tests, lists, tables, texts, signed numbers and floats.
-- The modules Examples hold the theorems at concrete inputs.
--
-- Loops are recursion on the list that the code goes through, so there is no fuel. Numbers are natural
-- numbers: Python's integers do not overflow, and a column or a caller's number that may be negative is
-- a signed number.
--
-- Not modelled: the engines, the dynamic analysis, the extractor and the reverse engineering, which run
-- external tools or search in binary data; the prompts of the language model and the formatting of
-- reports; the routes, the command line, logging and metrics; storage, the reading of the
-- environment, the worker's waiting loop, the requests that the planner makes up from hypotheses, and
-- the redactor of previews.
pub mod Prelude
pub mod Jobs
pub mod Audit
pub mod Scoring
pub mod Verifier
pub mod Security
pub mod Archive
pub mod Worker
pub mod Planner
pub mod Campaigns
pub mod Lineage
pub mod Indicators
pub mod Analyses
pub mod Delta
pub mod Configuration
pub mod Payloads
