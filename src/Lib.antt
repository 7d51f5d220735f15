-- ===== src/Lib.antt =====
-- A model of chatgpt-remote-mcp, an MCP server that runs commands, keeps the context of tasks and asks
-- an operator to approve what it may not do by itself.
--
-- The parts and their files (paths from the root of the repository):
--   * Output: src/process-output-buffer.ts, the bounded log of the output of one process. `append`,
--     `trim_to` and `select_after` are `append`, `trimTo` and `selectAfter`; a chunk's bytes are numbers
--     below 256. Output/Invariant, Output/Trim and Output/Select prove what they do.
--   * Chunks: src/process-manager.ts, `splitOutputChunks` and `utf8SequenceLengthAt`. Chunks/Sequence
--     and Chunks/Loop are about one sequence and about the whole loop.
--   * Process: src/process-manager.ts, `ProcessManager`. Process holds the state, Process/Output the
--     storing and trimming of output, Process/Lifecycle starting, ending and forgetting, and
--     Process/Reading `read`, `list`, `stats`, `write`, the waits and `terminate`. A managed process
--     stays in a store of objects after the manager forgets it, as a timer or an event handler keeps it.
--     Process/Lifecycle/Events runs any sequence of starts, prunes and signals, of what the children do
--     and of timers; the waits, which only add and drop waiters, are not among these events.
--   * Approval: src/operator-approval-store.ts, the signed ledger, and src/operator-approval.ts, the
--     service: Approval/Ledger has what each operation does to the records, Approval/Service the
--     operations around it. Approval/Ledger/Transitions makes the mutations moves of a state machine.
--   * Continuity: src/continuity/task-types.ts, src/continuity/execution-recorder.ts
--     (Continuity/Executions) and src/continuity/task-service.ts (Continuity/Tasks), the state of one
--     workspace. Continuity/Moves makes their operations moves of a state machine. An execution is
--     prepared here before Process starts it, and its receipt is ended by the terminal event that Process
--     emits; Approval/Service says whether a task may be completed.
--   * Continuity/Journal: src/continuity/storage-journal.ts, the journal that makes the write of several
--     files one. A disk has a fault that comes after a number of writes: the process is killed, or a write
--     throws, with or without having written. Journal/Runs has the rules for such runs, Journal/Writes and
--     Journal/Recovery what a commit and a recovery do from each directory that a fault may leave,
--     Journal/Outcome what that promises.
--   * Files: src/file-service.ts. Files/Utf8 is the form of UTF-8 that Node tests, Files/Utf8/Text
--     the text that it makes of bytes, Files/Base64
--     `decodeBase64`, Files/Chunk `readFileChunk` and the client that reads page after page, Files/Replace
--     `replaceInFile`, Files/Write `uploadChunk` and `writeFileContent`, Files/Move `movePath` with its
--     rollback and, in Files/Move/Directories, the parents that it makes. Files are lists of bytes and texts are their UTF-8 bytes.
--   * Telemetry: src/telemetry.ts, `UsageLog`. Telemetry/Writes and Telemetry/Rounds are about
--     `#writeLines`, Telemetry/Rotation about the files, and Telemetry/Each describes the loop line by
--     line; Telemetry/Events runs histories of events, timers and writes, for Telemetry/Invariant,
--     Telemetry/Order, Telemetry/Drain and Telemetry/Logged.
--   * Artifacts: src/artifact-service.ts, `ArtifactService`. `publish` is two steps, since it waits
--     between its test of the capacity and its end.
--   * Oauth: src/oauth.ts, `PersistentOAuthStore`: registration of clients, issue, rotation, revocation
--     and expiry of tokens. Oauth/Tokens has what the operations keep, Oauth/Rotation what a rotation and
--     a replay do, Oauth/Codes the authorization codes of `RemoteDevOAuthProvider`. A new token is given by
--     its hash, which is its key.
--   * Errors: src/errors.ts, the codes that these parts throw. Base: lists, dictionaries and tests.
--   * Tests: concrete runs.
--
-- Bounds and fuel: times and counts are natural numbers, since the code adds milliseconds and bytes far
-- below 2^53; where the code subtracts it takes `Math.max(0, ...)` or subtracts what is there. The loop
-- of `trimTo` runs on the number of its chunks, that of `splitOutputChunks` on twice the length of its
-- input and one more, and that of `#trimTotalRetainedOutput` on the number of recent processes and one
-- more; the theorems on these functions show that the results are complete, so that the fuel is enough.
-- The loop of `utf8ChunkLength` runs on the length of its buffer and one more, that of `#writeLines` on
-- the number of its lines, since each round writes one at least, and a client who reads pages on one page
-- more than the file has bytes.
--
-- Given from outside, as arguments: the clock, new random ids, the outcome of a spawn or a signal, whether
-- a write to disk succeeded, HMACs and digests, `localeCompare`, the byte size of a checkpoint, the
-- observation of a workspace, the parsers of the continuity files and of URLs, which calls of a
-- move fail and what a failure leaves, the directories above a path, and which calls of the usage log fail.
--
-- Not modelled: the HTTP server, the registration of tools and the schemas (express, the MCP SDK and zod
-- are other people's code), the clients of the host executor and of the Kernel (input and output only),
-- the locks and signatures of state files, of which only the outcome matters here, the modes of files, calls of git, the check of a client's metadata and the pages of an OAuth
-- authorization, the serialization of usage events, and
-- `shutdown`, which waits on timers.
pub mod Base
pub mod Errors
pub mod Output
pub mod Chunks
pub mod Process
pub mod Approval
pub mod Continuity
pub mod Oauth
pub mod Files
pub mod Telemetry
pub mod Artifacts
pub mod Tests
