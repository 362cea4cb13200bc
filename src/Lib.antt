-- ===== src/Lib.antt =====
-- A verification library of the Rust agent, agent-rust/: an agent that a durable workflow drives.
--
-- The agent keeps a session (goal, memory, workflow, counters, outboxes), asks a model for a
-- decision, checks the proposed tool calls against the configuration, executes them, records what
-- their results establish, and advances through the phases that the configuration lists. The state
-- of a session is a record here, as in the source; each operation is a function from a session to a
-- session, with what the source returns besides. What the code takes from other libraries (JSON
-- printing and parsing, floating point, regular expressions, hashes, lower case) is a parameter, the
-- record `Host` of Json/Host.antt; fresh identities and time stamps are arguments.
--
-- Common: the shared helpers; Common/Int has 64-bit integers, which wrap around or are checked.
-- Json: values as serde_json has them (objects keep their order), their equality, and the host.
-- Match (agent-rust/src/engine.rs): `contains`, `typed_equal`, `value_at_path`, and the decimal
-- texts of `decimal_equal`.
-- Session (agent-rust/src/engine.rs, agent-rust/src/context.rs): the session's data, appending and
-- archiving messages, acknowledging a checkpoint, and the wire form of a message.
-- Config (agent-rust/src/engine.rs): the configuration.
-- Workflow (agent-rust/src/engine.rs): `key`, `matches`, `phase`, `complete`, `missing`, `record`
-- and `advance`. Workflow/Replay runs any sequence of results and advances.
-- Policy (agent-rust/src/engine.rs): `action_rejection` and what it asks, the allowed tools, the
-- texts that guide the model, the allowance of a run and the count of invalid responses.
-- History (agent-rust/src/context.rs): `interaction_groups` and `split_history`. The grouping loop
-- runs on fuel, one unit for each message; it takes a message at least in each round.
-- Diagnostics (agent-rust/src/diagnostics.rs): the journal of compactions and its recovery.
-- Schema (agent-rust/src/tools.rs): `validate_arguments` and the names of the tools. Its errors have
-- the source's texts.
-- Strict (agent-rust/src/tools.rs): `parse_strict_json` and its visitor; the parser is the host's.
-- Decision (agent-rust/src/engine.rs): `parse_decision`, with `fresh_call_id`, whose loop runs on fuel,
-- one unit more than there are used identities, since a host may draw one identity for ever.
-- Completion (agent-rust/src/engine.rs): `completion_errors`, `completion_instructions`,
-- `capture_artifacts`, `check_answer`, and Markdown tables. A pattern's matches are the host's.
-- Actions (agent-rust/src/actions.rs): `audit`, `stage`, `checkpoint` and `dispatch`, as actions on a
-- world that keeps the session and the effects so far. The commit of a checkpoint, the recipient, the
-- tools, fresh identities and the clock are functions of the effects before them, the record `Env`;
-- it also has the identities of agent-rust/src/identity.rs, which `with_identities` of
-- Identity/Canonical fills. Indexing `v[k] = x` panics in the source on a value that is neither an
-- object nor null; the model leaves such a value as it is.
-- Progress (agent-rust/src/engine.rs): `record_progress_output`, `progress_fingerprint`,
-- `observe_progress` and the engine's `checkpoint`, as actions too.
-- Ledger (agent-rust/src/context.rs): `xml_escape` and `xml_unescape`, whose loop runs on fuel, one unit
-- more than the text has characters, since each round takes one at least. Ledger/Sections has
-- `parse_xml_sections`, with fuel for each character too, and Ledger/Render `render_ledger`.
-- Engine/Settle (agent-rust/src/engine.rs): `settle_pending`, which composes the policy, the dispatch,
-- the capture of artifacts, progress and evidence. Its loop runs on fuel, one unit for each pending call,
-- since each round removes one or fails.
-- Engine/Wire (agent-rust/src/engine.rs): `single_call_wire`. Its loop runs on fuel, one unit for each
-- message, since each round takes one at least. `Map::remove` moves the last entry, as serde_json does where
-- it keeps the order of insertion.
-- Engine/Payload and Engine/Request (agent-rust/src/engine.rs): `payload`, `compaction_due`,
-- `decision_payload` and `complete_request_payload`.
-- Engine/Run (agent-rust/src/engine.rs): `run`. Engine/Parts has what its loop calls, with `decide`,
-- `compact` and the lookup of earlier identities as the parameter `Parts`, whose `decide`
-- Engine/Decide fills; Engine/Answer has what is done with a decision, and Engine/Round one round.
-- The loop runs on fuel, one unit for each step that the run may take, since each round counts a
-- step or stops.
-- Engine/Provider (agent-rust/src/engine.rs): `completion_urls`, `request_diagnostic` and `post_chat`; what the
-- HTTP client answers is the parameter `Http`. Engine/Decide has `decide`.
-- Engine/Budget (agent-rust/src/context.rs, agent-rust/src/engine.rs): `estimate_payload`, `request_budget`
-- and `budget_error`.
-- Identity (agent-rust/src/identity.rs): `canonical`, called `canonical_json` here, the digests of actions and
-- payloads, `python_number` and `python_encoded`. PythonJson (agent-rust/src/tools.rs): `python_json`.
--
-- Not modelled: the HTTP server and the store of agent-rust/src/main.rs, the redacted log of
-- agent-rust/src/provider_log.rs, compaction with the validation of a ledger, retention,
-- reconciliation and the fixture tools, which are input and output for the most part.
pub mod Common
pub mod Json
pub mod Match
pub mod Session
pub mod Config
pub mod Workflow
pub mod Policy
pub mod History
pub mod Identity
pub mod PythonJson
pub mod Diagnostics
pub mod Schema
pub mod Strict
pub mod Actions
pub mod Decision
pub mod Completion
pub mod Progress
pub mod Ledger
pub mod Engine
