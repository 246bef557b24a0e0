-- ===== src/Lib.antt =====
-- pinout lets software agents drive physical devices. What keeps that safe is the core package: a
-- lease manager that says who may use a device, a halt coordinator whose gate every command
-- passes, a safety engine that checks each command against rules and reserves what it consumes,
-- an operation manager that runs long commands, and a store of idempotency keys that keeps a
-- repeated command from running twice. This library models those parts of packages/core/src, the
-- presence of devices of packages/awareness, the Modbus protocol of packages/protocols-modbus, the
-- versions of packages/registry and the store of pending calls of packages/rap, and proves what
-- makes them correct. Paths without a package below are those of packages/core/src.
--
-- Files:
--   Prelude.antt      names passed on, and the helpers of Prelude/: a record of equality tests
--                     with its laws, integers and JavaScript numbers over the native naturals,
--                     results of fallible code, issued ids, JSON values, lists, and
--                     insertion-ordered maps (the JavaScript Map) with their laws.
--   Lease.antt        lease/leaseManager.ts. The state is the map of leases, the counter of the
--                     ids and the longest ttl; acquire, renew, release, forceRelease, get, list,
--                     permits and drainExpired are functions of it. Lease/History has the
--                     sequences of calls.
--   Halt.antt         halt/haltCoordinator.ts. Besides the next state each function answers whom
--                     it told of the change, in order. Halt/Sequence has the sequences of calls.
--   Snapshot.antt     the snapshots of operations, of spec/types.ts and
--                     operation/operationManager.ts.
--   Idempotency.antt  operation/idempotencyStore.ts. The store is an insertion-ordered map, in
--                     which a touched key moves to the end and the first one is evicted.
--                     Idempotency/Remembers is how long a key leads to its operation.
--   Operation.antt    operation/operationManager.ts: the state and transition, settle and
--                     retainOperations; Operation/Begin is begin, Operation/Requests is get,
--                     cancel, reconcile and waitFor, Operation/Tasks is the timer and the
--                     microtask of start, Operation/Report its reportProgress, Operation/Deliver
--                     is waitForResult, Operation/Watch is list, subscribeProgress and
--                     progressIterable. Operation/Hydrate is hydrate, and Operation/History has
--                     the sequences of calls and of steps of the tasks. Operation/Updates,
--                     Operation/CallUpdates and Operation/Remembered follow a key through them.
--   Stream.antt       stream/streamBus.ts: the broker of frames; Stream/Handle is the handle of a
--                     subscriber, closeStream and stats.
--   ByteQueue.antt    transports/byteQueue.ts, the queue between a transport and its reader.
--   Lines.antt        lineReader.ts: the lines of a stream that comes in chunks, and encodeLine.
--                     Lines/Promise is what the reader promises of a whole text.
--   Policy.antt       policy/safety.ts: the kinds of safety rules, and the merge of a module's
--                     rules with those of a deployment. Policy/Evaluate is policy/engine.ts, the
--                     rules on payload and state.
--   Safety.antt       policy/safety.ts: the safety engine, its state and its feeds.
--                     Safety/Enforce is what each kind of rule demands and consumes,
--                     Safety/Reserve is reserve with commit and rollback, enforce, check and
--                     preview, and Safety/Calls has the sequences of calls.
--   Awareness.antt    packages/awareness/src: the presence states of a device, the paths between
--                     them (stateMachine.ts, transitionPath of store.ts) and the sweep for
--                     staleness.
--   Modbus.antt       packages/protocols-modbus/src: wire.ts, the codec. Modbus/Crc is the
--                     checksum, Modbus/Framing the frames over TCP and serial lines,
--                     Modbus/Receive the loop of tcpClient.ts over the bytes that come in,
--                     Modbus/Clients the state of that client and how both clients judge a
--                     response, Modbus/RtuClient the request in flight of rtuClient.ts,
--                     Modbus/Simulator simulator.ts.
--   Registry.antt     packages/registry/src/semver.ts, in Registry/Semver: the versions of device
--                     modules, their order, ranges of them and the best version in a range.
--   Rap.antt          packages/rap/src/pendingStore.ts: the calls and threads that survive a
--                     restart, with the journal and the snapshot on disk. Rap/Recovery is
--                     recovery at the end of a call, Rap/Compaction in the middle of a
--                     compaction.
--
-- How the parts interact: begin consults the idempotency store and records a new operation in it;
-- transition and reconcile write the status in which it ends, its result and its error through to
-- the key. The safety engine evaluates the policies and asks the lease manager of the lease
-- rules. Operations are JavaScript objects that the map of operations, a running task and a
-- caller share, so the model keeps them in a heap: an object stays there when the map has dropped
-- it.
--
-- Conventions: the clock, the random suffixes of ids and the answers of backends are arguments. A
-- promise that other code settles is a step of its own: the body of start is cut at every await,
-- so the sequences of steps are the interleavings of the event loop. The loops are structural
-- recursions on lists; only the loops over the frames and over the lines in a buffer have fuel,
-- one for each byte or character, of which every frame takes at least six and every line one, and
-- the printing of a number, one more than the number. Times and counters are natural numbers, as
-- the code keeps them far below 2^53. In payloads and in the limits of rules a number is any
-- finite one, an odd numerator over a power of two if it is no integer, or none; differences of
-- them are exact.
--
-- Not modelled: the registry of device awareness; the register map of Modbus; the journal, the
-- session and the runtime; the index, publishing and installation of the registry; the server and
-- the adapter of packages/rap; device modules, the transports themselves and the other protocol
-- packages, the daemon and the command line, which are input and output around the core. Texts
-- are coded as bytes, and JSON is parsed and printed, by the language.
pub mod Prelude
pub mod Lease
pub mod Lines
pub mod Halt
pub mod Snapshot
pub mod Idempotency
pub mod Operation
pub mod Stream
pub mod ByteQueue
pub mod Awareness
pub mod Policy
pub mod Safety
pub mod Modbus
pub mod Registry
pub mod Rap
