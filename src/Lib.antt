-- ===== src/Lib.antt =====
-- A verification library for osscdp, a customer data platform: rules that place customer profiles in
-- segments, journeys that lead profiles through steps, and the activation of sends to destinations.
-- Before these, events are accepted and resolved to a person, whose profile they update.
--
-- How the parts meet: an event that ingestion accepted (internal/events) is resolved to a cluster of
-- identifiers (internal/identity), whose profile is updated (internal/profile), whose segments are
-- evaluated; a change of membership enqueues the tasks of its subscriptions. Clusters that one event
-- joins are merged, and so are their profiles and the consents (internal/consent). The administration
-- stands behind tokens (internal/auth, internal/rbac). A journey condition evaluates a segment rule
-- (internal/segment) at the instant its step was due; a journey send step enqueues a task
-- (internal/activation), which the activation runner claims and sends, with retries and a circuit
-- breaker.
--
-- Events: internal/events. Envelope, Normalize and Validate are the files of these names; Outbox is the
--   keys and hashes of normalize.go and Enqueue of repo.go; Service is Ingest and IngestBatch.
-- Identity: internal/identity. Identifier is model.go; Graph is the statements of repo.go on nodes,
--   clusters and members; Resolve is Resolve and resolveTx of service.go, one step on the graph.
-- Profile: internal/profile. Merge is merge.go; Service is updateTx of service.go with the statements of
--   repo.go that it uses, on the profiles, the ledger of applied events and the consents.
-- Consent: internal/consent, Set and Get, and the merge of consents of internal/profile/repo.go.
-- Rbac and Auth: internal/rbac and internal/auth. Roles and Tokens are roles.go and repo.go; Authorize
--   is Authenticate and Require; Handler is the handlers of admin tokens, where `handle` composes
--   them with the middleware as cmd/cdp-api/main.go does.
-- Segment: internal/segment. Rule, Window and Validate are dsl.go (Validate, validateBehavior,
--   ParseWindow); Analyze is its analyzeRule; Leaf, Store and Evaluate are eval.go (resolveField,
--   applyOp, Evaluate, evalBehavior, toSpec), the store of events being an interface whose reads may
--   fail; DueAt is dueat.go. Membership and Pending are tables of repo.go, and Service is service.go
--   (Evaluate is `evaluate_update`, SweepEvaluate is `sweep_evaluate`).
-- Journey: internal/journey. Definition and Validate are journey.go and dsl.go; Enrollment is the
--   table of repo.go, one function per statement, with its Writers of seedjob.go, retention.go,
--   internal/profile/repo.go and internal/governance/governance.go; Split and Service are service.go, where Advance
--   is `advance_enrollment`.
-- Activation: internal/activation. Backoff, Breaker, Task (repo.go), Service (EnqueueSend and
--   EnqueueJourneySend), Fanout (OnMembershipChanged, which sends what a change of membership of a
--   segment triggers) and Runner (process and finish).
-- Runtime holds what the program uses of Go: float64 as bit patterns with their comparisons, JSON
--   values, and as parameters the conversions of strconv, fmt, time and encoding/json.
--   Text is TrimSpace of strings.
-- Samples and the modules called Examples are tests.
--
-- Correspondence: a table is a list of rows and a statement a function on it, which is one step; a
-- choice that SQL leaves open (the order and limit of a claim, SKIP LOCKED) is an arbitrary predicate.
-- Instants and durations are nanoseconds; where Go wraps an int64 or a uint64, so does the model. A
-- UUID is a number, uuid.Nil is 0. Every loop is a structural recursion: there is no fuel.
--
-- Not modelled: the cache of active versions, contexts, logs, metrics, database failures, the HTTP
-- handlers but for those of admin tokens, the senders and the SQL of the event store (parameters),
-- hashes, ciphers, fresh ids and the parsers of UUIDs, times and JSON (parameters), the JSON encoding
-- of payloads, the statements of profile/repo.go on the other tables of a merged profile, the chain of
-- merges that resolveSurvivorCluster follows (an argument), and the packages that the components above
-- do not name.
pub mod Prelude
pub mod Runtime
pub mod Samples
pub mod Events
pub mod Identity
pub mod Segment
pub mod Activation
pub mod Journey
pub mod Rbac
pub mod Auth
pub mod Consent
pub mod Profile
