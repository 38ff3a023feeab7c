-- ===== src/Lib.antt =====
-- HiddenSteps watches how a desktop is used, keeps summaries of it on the device, finds repeated
-- sequences of actions in them and asks a language model how to automate those. This library models
-- the parts that decide what may be kept and what may leave the device, those that find the
-- repetitions, the store that keeps them and the commands and loops that tie these together.
--
-- A captured signal is classified, checked against the privacy level, redacted and turned into an
-- event summary (Pipeline); the redaction (Redaction) is called for every text in it. A history of
-- summaries is searched for patterns and turned into a graph (Patterns). Whatever is sent to a
-- provider passes the gate (Gate); its answers become recommendations (Recommendations). A policy of
-- the organisation may raise the level (Policy), and a plugin's manifest is validated (Plugin). The
-- store (Store) holds events, patterns, recommendations, providers, settings and the privacy state;
-- the application (App) is a state of the store, the gate and the policy, on which the commands of
-- the interface, the observation loop and the recommendation loop work.
--
-- Prelude: lists, Boolean tests, texts as lists of bytes, and the chains of `Option` and `Result`.
-- Members: what is in a list.
-- Domain: crates/domain/src. Domain/Privacy is privacy.rs (levels as a data type, the derived order
--   by number), Domain/Signal is captured_signal.rs and event.rs, Domain/Pattern the stored rows.
-- Provider: the trait of crates/llm-provider/src/provider.rs; a call reads and changes a `World`.
-- Gate: crates/privacy-engine/src/gate.rs (`evaluate` and the methods that change the consents),
--   Gate/Consent consent.rs, Gate/Provider gated_provider.rs; Gate/Laws and Gate/History have the
--   laws of single decisions and of sequences of grants and revocations.
-- Policy: crates/enterprise-policy/src/lib.rs.
-- Redaction: crates/redaction/src. Redaction/Luhn, Redaction/Numbers and Redaction/Detect are
--   detectors.rs, Redaction/Entropy is entropy.rs, Redaction/Engine is engine.rs (`scan`,
--   `apply_redactions`, whose loop is `redact_from`).
-- Pipeline: crates/pipeline/src. Pipeline/Classify is classify.rs, Pipeline/Process is
--   `EventPipeline::process` of pipeline.rs, cut where its loop and its early returns stand.
-- Patterns: crates/patterns/src. Patterns/Key is `action_key`, Patterns/Select is
--   `select_non_overlapping`, Patterns/Groups the map of windows by signature, Patterns/Detector is
--   `detect`, all of detector.rs; Patterns/Graph is workflow_graph.rs.
-- Recommendations: crates/recommendations/src. Recommendations/Extract is `extract_json_object` of
--   prompt.rs, Recommendations/Counts is validate.rs, Recommendations/Synthesizer is synthesizer.rs,
--   its loop over the attempts by recursion on how many are left.
-- Plugin: crates/plugin-host/src/manifest.rs.
-- Store: crates/event-store/src. The tables of schema.sql are lists of rows in the record
--   `EventStore`; each method of store.rs is a function on it. Store/Labels has the texts of the
--   enumerations and Store/Rows the conversions of rows, Store/State the version, the privacy state,
--   the policy and the settings, Store/Events the events and the audit log, Store/Patterns patterns,
--   their links and recommendations, Store/Providers the providers, Store/Embeddings the similarity
--   search, Store/Erase the deletion of everything and the export. Store/Events/Refines compares the
--   table of events with an abstract log of events.
-- App: apps/desktop/src-tauri/src. `AppState` is state.rs; App/Privacy, App/Providers, App/Data and
--   App/Settings are the commands of commands.rs by subject, App/Commands runs sequences of them.
--   App/Connectivity is the test of a provider before it is chosen.
--   App/Launch is what main.rs does before the first command, App/Observation a turn of the loop of
--   observation_loop.rs, App/Sweep a sweep of recommendation_loop.rs. A command whose name the store
--   uses as well ends in `_command`.
-- Samples: concrete values of the parameters; the modules named Tests use them.
--
-- Conventions. A text is the list of its UTF-8 bytes; `none` of a function that may panic is the
-- panic. Points in time are nanoseconds from a fixed origin. All loops are structural recursion, so
-- there is no fuel. `as u32` and the weights of edges wrap at 2 ^ 32. A loop that runs for ever is
-- one turn of it. The statements of SQL are functions on the rows: AUTOINCREMENT never gives an id
-- twice, ON DELETE CASCADE removes the links of what is deleted, and a query without an ORDER BY
-- returns the rows as they were inserted. The messages of errors are values of `EventStoreError` and
-- `CommandError`. A method that reads or writes the file succeeds unless the model says otherwise:
-- in the deletion of everything any statement but the begin of the transaction may fail. Sorting is
-- stable insertion; numbers that are not comparable count as equal. The lock around the connection is left out,
-- since each method runs alone.
--
-- Parameters. Code outside the repository is a parameter: `serde_json` (Json, with the documented
-- behaviour of insert and get), floating-point numbers (Float), the order in which a map is iterated
-- (HashMap), what the regular expressions match (Redaction/Detect), the extension of a path
-- (Patterns/Key), the span of two points in time (Patterns/Detector), reading a policy (Policy), and
-- for a recommendation the clock and the reading of its fields (Recommendations/Synthesizer). `Engine`
-- (Store) holds the texts of points in time in RFC 3339, whose order is that of the times up to the
-- second, the printing and reading of columns by serde_json, and ORDER BY. That what is printed is
-- read back is only documented for values without fractions, such as the program makes them: the
-- values of the model are those; `FourBytes` (Store/Embeddings) the bytes of an f32;
-- `Vault` (App/Providers) the key store of the system; `Outside` (App/Commands) adds the statements
-- that fail and the change of the key of the database; `Clients` and `Engines` (App/Sweep) are the
-- clients of the providers, the prompt and the messages.
--
-- Not modelled: opening the database and its key, the texts of the prompts (build_prompt of
-- crates/recommendations), the HTTP clients of the providers and their detection
-- (get_provider_detection), the observation sources and build_sources, the directories of the
-- platforms, the plugin host and the key stores, which are input and output or wait for their own
-- modules.
pub mod Prelude
pub mod Members
pub mod Domain
pub mod Provider
pub mod Float
pub mod Gate
pub mod Policy
pub mod Json
pub mod HashMap
pub mod Redaction
pub mod Pipeline
pub mod Patterns
pub mod Recommendations
pub mod Plugin
pub mod Store
pub mod App
pub mod Samples
