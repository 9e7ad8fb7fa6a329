-- ===== src/Lib.antt =====
-- AgentRouter lets the roles of a project hand tasks to each other. A task waits in a queue until the
-- runtime dispatches the role that it is assigned to; the dispatch starts a run of that role's
-- harness, the run calls tools back, and the runtime settles the run when the harness has ended.
-- This library models the runtime, packages/runtime/core.ts, with the parts that it stands on,
-- the store of remote devices, the decoder of frames and the ring of diagnostics; and from the
-- application service, packages/core-service, the log of each role's context,
-- the transfer of a context to another session, and the checks of a plan of roles.
--
-- The state is one record, `Store.Db`, with a field for each table of packages/storage/migrations
-- that the runtime writes, and `Store/Rows` has the rows. A table is a list in the order of
-- insertion. The statements that the runtime prepares are the functions of `Prelude/Tables`:
-- `one`, `select`, `update_where`, `count_where`, `delete_where`. A transaction returns the new
-- state, or an error and no state, as `this.db.transaction` rolls back. An error is a code and a
-- category (`Protocol/Errors`); `broken` is any exception that is no RouteError, as a constraint of
-- the schema that a write violates. Those constraints are written out where a modelled write can
-- meet them: the indices on live runs, on active tasks and on the leases' keys, and the triggers on
-- sessions and activations. Clocks and identifiers come in as an `Outside`; an identifier is opaque
-- and stands as a number. Milliseconds, counters and epochs are natural numbers.
--
-- - `Protocol`: the payloads of packages/protocol. The JSON schema validator, SHA-256 and the files
--   under `artifacts/` are the parameters of `Core/External`.
-- - `Domain`: packages/domain/index.ts, the states of a task.
-- - `Core/Identity`, `Core/Operation`: who calls, and the envelope that makes a call idempotent.
-- - `Core/Messages`, `Core/Finish`, `Core/Wait`, `Core/Submit`, `Core/Inbox`: the tools and the
--   user's requests: `send`, `finish`, `wait`, `submitFromUser`, `pause`, `notices`, `readArtifact`.
-- - `Core/Tools`: the chain in packages/role-bridge/server.ts that calls them.
-- - `Core/Dispatch`: `dispatch`, with its gates, the activation of a session, the input of a
--   continuation, and the writes of a start.
-- - `Core/Settle`, `Core/Recover`: `accepted`, `settle`, `recover`.
-- - `Core/Management`: the methods of packages/runtime/management.ts that change what it reads.
-- - `Core/History`: sequences of the calls on packages/runtime/core.ts, in any order.
-- - `Remote/Devices`: packages/remote/device-store.ts, the remote devices and their pairings.
-- - `Platform/Framing`: packages/platform/framing.ts, the decoder of frames that end in a line feed.
-- - `Platform/Diagnostics`: packages/platform/stderr-ring.ts, the last lines of an error stream.
-- - `Json`: values and their canonical text, `canonical` and `stablePortableJson`.
-- - `RoleContext`: packages/core-service/role-context-store.ts. `Portable` has the content that may
--   enter the log, `Store` the operations, and its children what they keep.
-- - `Transfer`: packages/core-service/context-transfer.ts and context-transfer-engine.ts. `Decide` is
--   the decision on the capacity, `Rows` the row of an operation, `Ports` the drivers, `Settle`,
--   `Fork` and `Run` the engine, `Due` what a commit needs, `Kept` what carries over from its writes
--   to its runs. An `await` comes back with the tables as others have left them.
-- - `Plans`: packages/core-service/plans.ts, `validate` and `permissions`.
-- - `Examples`: a small office, and other data, on which the theorems are tried.
--
-- Loops run over lists, so there is no fuel. The bounds are those of the code: three live roles,
-- five starts of a role in 60,000 ms and thirty of a space in 300,000 ms, an operation's identifier
-- of at most 200 code units, pages of at most 100 notices, chunks of at most 65,536 bytes, two
-- retries and three confirmations of a transfer, and texts of 1,048,576 bytes in a role's log.
--
-- A text is the list of its UTF-16 code units, the content of a file the list of its bytes. A target's
-- fields keep the order in which they came, as `finish` compares targets by their JSON.
--
-- Not modelled: the queries for display (`context`, `tasks`, `inbox`, `snapshot`), the writing of
-- artifacts, and most of what is outside the runtime: the commands of the application service and the
-- writes that apply a plan, the harness drivers and their processes, the transports, the gateway of
-- the remote console and the desktop. Columns that no operation reads are left out of the rows, as
-- are the payloads of events.
pub mod Prelude
pub mod Protocol
pub mod Domain
pub mod Store
pub mod Core
pub mod Remote
pub mod Platform
pub mod Json
pub mod RoleContext
pub mod Transfer
pub mod Plans
pub mod Examples
