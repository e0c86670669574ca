-- ===== src/Lib.antt =====
-- The context pipeline of the agent (internal/agent/session/context), the messages it works on
-- (internal/domain/llm), the history that stores them (internal/infrastructure/history), the providers
-- that are tried one after the other (internal/infrastructure/llm), the phases of a turn
-- (internal/agent/orchestrator), and the check of the commands that run without asking
-- (internal/infrastructure/security). Before each call of a model, a session's history goes through a
-- chain of transformers: it is repaired, cleaned, summarized where it comes near its token limit, given
-- warnings, pruned to a window of turns, and checked against the limit.
--
-- Files and what they model:
--   Errors: Go errors as chains of sentinels, results, and the context's cancellation.
--   Llm: the data types of internal/domain/llm/types.go. Llm/Parts is `addPart`, Llm/Clone the copies
--     and comparisons, Llm/Validate `Validate` and `ValidateStructure`.
--   Context: `ContextRequest` and `ContextMetadata` of contracts.go. Below it:
--     Turns (`groupTurns`), Repair (`HistoryRepairer`), Clean (`toolResponseCleaner`,
--     `emptyMessagePruner`, `contentCleaner`), Signatures (`thoughtSignaturePropagator`), Transient
--     (`emptyTurnFilter`, `TransientMerger`) of transformers.go; Pruner (pruner.go); Summary and
--     Gatekeeper (gatekeeper.go, candidate_selector.go); Tokens (token_counter.go); Strategy
--     (strategy.go); Warnings (warning_injector.go and `finalContextValidator`); Pipeline (pipeline.go);
--     Standard (pipeline_factory.go, which puts all of them together); Events (publishing on the bus);
--     Manager (manager.go: the versioned history and what may change it, and below it Scan, the
--     search for the range of a summary; the store is an interface).
--   History: internal/infrastructure/history, which keeps a session's messages in memory and in a file
--     of JSON lines. Lines and Backend are store.go (what a line is, how a message becomes one, what
--     reading makes of them, the calls of the file system); Turns, Edit and Memory are history.go (the
--     messages of a turn and how far a rollback goes, the parts of an edited turn, and the manager).
--   Security: internal/infrastructure/security (command_validator.go and normalize.go) and
--     internal/domain/security (policy.go and service.go). Policy holds the tables and the questions
--     about them, Quotes the scanners that follow quotes, Validator what makes a command run without
--     asking (`IsSafe`), Shell what needs a shell (`HasShellFeatures`, `ValidateStructure`).
--   Providers: internal/infrastructure/llm. Classify is llmerr/errors.go (with gateway.go and llmerror.go
--     of internal/domain/llm), Resilient is resilient_client.go, Failover is failover.go.
--   Orchestrator: internal/agent/orchestrator. Retry is the retry policy of engine_types.go, Steps the
--     processors of the phases (engine_phases.go, engine_inference.go, engine_execution.go), Loop the
--     loop over the phases and Run the run over the turns (engine.go).
--   Examples: concrete requests, and the theorems at them.
-- A transformer is a function from a request to a result with the changed request. The source changes
-- shared messages in place; here the change is one of the request's history, and a request whose
-- transformer fails is abandoned, as the callers do.
--
-- Conventions. Strings are lists of bytes. `Ctx` is the answer of `ctx.Err()` at the start of a call: a
-- cancellation that arrives during the call is not modelled. Comparisons of floats (0.9, 3.2, the
-- ratios of the warnings) are exact integer arithmetic, which agrees below 2^50. Limits and counts are
-- natural numbers; a negative limit behaves as 0, and `SetLimits` takes `none` for it. IDs that new
-- messages get, the estimator, the summarizer, the event bus and the deep equality of argument maps
-- are arguments. A dereference of nil is an error of its own.
-- `sort.Slice` is written out on at most twelve elements; what it makes of more is an argument.
-- The history's file system is an argument, a state with what its calls do, and so are the asset
-- store's `Put` and what JSON does to the argument maps of a call. Decoding a line is taken to give
-- back the value that was encoded. A change of the history is one stretch under its lock.
-- A provider's client and the context are functions on a state that stands for everything outside; what
-- an error of gRPC, HTTP or the network answers about itself is a field of it, and the regular
-- expressions on error texts and the parser of error bodies are arguments.
-- The orchestrator's calls (preparing the context, asking the model, running tools, storing, waiting)
-- are such functions too. A turn's metrics, hooks and notices are left out.
-- The validator's shell lexer, lower case and check of a path are arguments; its reasons and warnings
-- are texts, which are left out, so that its answers are Booleans.
-- Recursion is structural throughout. The fuels are that of `Strategy.decimal`, with 20 digits for
-- numbers of at most 64 bits, and the two attempts of a provider's client, the source's own bound;
-- the search for a summary's range (Context/Manager/Scan) takes one window of turns for each unit, of
-- which there are no more than messages; the loop over the phases of a turn (Orchestrator/Loop) one phase,
-- of which each retry goes through at most nine; the run (Orchestrator/Run) one turn, of which the guard
-- admits no more than the limit and one. The estimator's depth guard is the source's own bound of 100.
--
-- Not modelled: the message texts of errors, log lines and the texts of events, since nothing of the
-- pipeline reads them; the cached token count of a message, which nothing reads either; locks, which
-- are held from the first to the last line of a method or of one of the manager's stretches; of the
-- history, the older JSON formats and the move from them.
-- Outside of these packages: the clients of the providers, the file system, the tools, the terminal and
-- the command line, which are input and output; the security manager and its boundaries of paths; the
-- orchestrator's middleware; the executor of tools, which is goroutines and timers.
pub mod Base
pub mod Errors
pub mod Llm
pub mod Context
pub mod History
pub mod Orchestrator
pub mod Providers
pub mod Security
pub mod Examples
