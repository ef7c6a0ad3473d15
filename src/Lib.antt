-- ===== src/Lib.antt =====
-- Verification of NomadDev, an orchestrator that lets a phone drive tool calls on a workspace: the core
-- logic of the Go packages under internal/.
--
-- Parts. A client connects and is registered by the hub under its session. Envelopes sent to it are pushed
-- to the session's replay buffer, from which a client that reconnects is caught up. Its token's scopes
-- say which tools it may call. A tool call may need an operator's approval; it is then dispatched to the
-- sandbox, the file engine, the pinned files, the documentation fetcher or GitHub. A failed call is
-- reported and retried within a budget. The native app reduces the envelopes it receives to its state.
--
-- Files, each with its children:
--   Session/RingBuffer  internal/session/ringbuf.go (NewRingBuffer, Push, Since, FirstID, LastID)
--   Session/Store       internal/session/session.go (MemoryStore, Session)
--   Hub                 internal/hub (Hub.Run with Register, Unregister and SendToSession; Client)
--   WorkerPool          internal/middleware/workerpool.go (ParseWorkerPoolArgs and its helpers)
--   Auth                internal/auth/scopes.go, and the list in memory of internal/auth/revocation.go
--   Approval            internal/middleware/approver.go (PolicyApprover)
--   Recovery            internal/middleware/recovery.go (ShouldAutoRetry, BuildErrorReport, RetryBudget)
--   History/Pins        internal/history/pins.go (ReferenceBuffer)
--   Dispatch            internal/middleware/dispatcher.go (Dispatch, applyCodePatchWithVerify, pinFile,
--                       unpinFile, fetchDocs), IsMutatingBaseTool of internal/middleware/tools.go
--   Tools               internal/middleware/tools.go (Validate)
--   Fsops               internal/fsops/engine.go and run.go (the four tools, resolveSafe, RestoreFile)
--   Intent              internal/wsserver/middleware.go (runIntent, consumeStage, runToolCall, requestApproval,
--                       handleUserCommand), handleCommandRequest, runExec, classifyExit and emitChunk of
--                       internal/wsserver/sandbox.go
--   Mobile              internal/mobile/state/state.go and ingest.go (the store, Ingest and
--                       MergeChunkIntoToolCall), with the payloads of internal/event/types.go
--   Event               internal/event/event.go (Envelope)
--   Base                shared types and lemmas: strings as lists of bytes, Go maps, errors, paths, JSON
--
-- Conventions. A Go string is a list of bytes, a map an association list, an error a constructor. A
-- method under a mutex is one step. Objects shared by pointer (clients, sessions, answer channels) live
-- on a heap of numbered cells. Instants are numbers; a clock reading is an argument. Sizes are natural
-- numbers; ints that may be negative are the integers of Base/Int; int64 counters wrap.
--
-- Bounds. The loops follow their lists. Three have fuel: the two that cut a body or the data of a chunk
-- into pieces take its length and remove a byte or more in each round; the one of read_file takes one
-- more than its cap, and each round that goes on reads a byte or more.
--
-- Parameters. JSON decoding is a record of decoders, the encoding of results one of encoders; the file
-- system is the record Disk of Fsops, and Keeps of Fsops/Write/Contents says what is relied on: that a path
-- whose opening and writing succeed holds what was written. The fetcher and GitHub are functions over the host,
-- as is the file engine for the dispatcher, which Fsops/Service fills in; fmt.Sprintf of notices is a function;
-- whether a select finds its context done is a function of the select's number. A command of the sandbox is a list
-- of steps, each with its chunk, what the command does before it, and what it may still do if the context is done
-- there: the runner kills its container only when it sees the context itself, so that may come behind a restore.
-- A restore is one step, and a consumer of the dispatcher's channel takes all that is sent.
-- For a turn, the translator is a tree of streams without infinite branches, one per answered tool call, and
-- the answers of operators and the success of appends to the history are functions of their numbers.
--
-- Not modelled: SQLite stores, HTTP and websocket handlers, model providers, container and process
-- control, configuration, and drawing code, which are calls of libraries; the checks of handleUserIntent
-- before a turn, and the loops of the worker pool.
pub mod Base
pub mod Event
pub mod Session
pub mod Hub
pub mod Auth
pub mod Approval
pub mod Tools
pub mod WorkerPool
pub mod Mobile
pub mod Recovery
pub mod History
pub mod Dispatch
pub mod Fsops
pub mod Intent
