-- ===== src/Lib.antt =====
-- Live-mutex: a model of the networked lock broker of src/broker-1.ts (`class Broker1`), of the parser of its
-- frames, of the bridge over which it is called in its own process, of its variant with lasting fencing tokens,
-- of the client, and what they guarantee to its users.
--
-- The program. Clients open sockets to the broker and send frames. `dispatchRequest` hands a frame to a
-- handler: `lock` grants a slot of a key or queues the request, `unlock` gives a slot back,
-- `acquireMany` and `releaseMany` do so for a set of keys at once, `cleanupConnection` gives back what
-- a closed socket held, `tickTtl` evicts the holders whose time is up. All of them end in
-- `ensureNewLockHolder`, which hands free slots to the queued requests. The readers and the writer flag of
-- the RW clients are kept beside the locks. The bytes of a socket become frames in the stream parser of
-- src/json-parser.ts. In the same process, `InProcessBridge` of src/in-process-bridge.ts calls the handlers
-- with its `VirtualSocket` for a socket, and settles the promise of a request by the first frame that
-- comes back under its uuid. The `Broker1` of src/broker-1-hardened.ts keeps the highest fencing token in a
-- file, which it writes before a grant and reads when it starts. A `Client` of src/client.ts keeps its requests in tables under their uuids, with
-- a timer for each. Readers and writers of a key use an `RWLockWritePrefClient` of
-- src/rw-write-preferred-client.ts, whose methods are chains of requests to the broker.
--
-- The files and the code (src/broker-1.ts if no other file is named):
--   Prelude, Prelude/Tests, Prelude/Lists: Boolean tests on numbers, lists as sets, list predicates.
--   Dict: maps as association lists in the order of insertion, as a `Map` iterates.
--   LinkedQueue: the interface of the npm package @oresoftware/linked-queue, with `NotifyObj`.
--   Broker/Types: `LockObj`, `LockholdersType`, the fields of `Broker1`, the frames that it sends.
--   Broker/Grant: `getDefaultLockObject`, `send`, `scheduleDeadline`, `grantLock`.
--   Broker/Attempt: the loops of `acquireMany` and `tryGrantAcquireManyFromQueue`, their rollbacks.
--   Broker/Drain: `ensureNewLockHolder`. Broker/Lock: `lock`, `validateMaxField`, `cleanUpLocks`.
--   Broker/Unlock: `unlock`. Broker/Composite: `acquireMany`, `releaseMany`. Broker/Sweep: `tickTtl`.
--   Broker/Connection: `cleanupConnection`. Broker/Events: `dispatchRequest`, the re-election timer, runs.
--   Broker/Rendezvous: `broadcast`, `incrementReaders`, `decrementReaders`, `registerWriteFlagCheck`,
--     `registerWriteFlagAndReadersCheck`, `setWriteFlagToFalseAndBroadcast`.
--   Broker/Closure and its children: what an invariant of single lock objects has to satisfy for every
--     handler to keep it. Broker/Semaphore, Broker/Fencing: two such invariants.
--   Broker/Serving with its child: who is served, and that the loop comes to an end. Broker/Unlocking: the end of a hold.
--   Broker/Atomic and its children: all keys of an `acquire-many` or none, and their release.
--   Broker/Retention: what `cleanUpLocks` keeps. Broker/Admission: whom `lock` admits on a key in use.
--   Broker/Wakeups: who is woken by the end of a write or of the last read.
--   Broker/Fifo: the loop of `ensureNewLockHolder` against a semaphore with a queue.
--   Broker/Queries: `buildStatsSnapshot` and `clampMax`.
--   Framing: `LiveMutexJSONParser` of src/json-parser.ts, with its children Lines (lines and their encoding),
--     Chunks (how the stream is cut does not matter) and Pauses (when the event loop turns).
--   Versions: src/compare-versions.ts.
--   Socket: `VirtualSocket` of src/in-process-bridge.ts. Socket/Lifecycle: the order of its events.
--   Bridge: `InProcessBridge` of the same file. Bridge/Requests: how its requests are settled.
--   Client: the requests to lock and to unlock of `Client` of src/client.ts. Client/Events: what happens to a client.
--     Client/Tables, Timeouts, Replies, Failures, Callbacks, Requests, Deadlines: what becomes of a request, and how
--     long one lasts. Client/Options and Client/Checks: the options of `lock`.
--   Hardened/Watermark, Hardened/Storage: the text of a watermark and the state file of
--     src/broker-1-hardened.ts. Hardened/Authority: its class `Broker1`, as far as fencing tokens go.
--     Hardened/Monotone, Runs: tokens over restarts. Hardened/Headroom: that `hasHeadroom` asks for enough.
--   RwClient: `RWLockWritePrefClient` of src/rw-write-preferred-client.ts. RwClient/Sessions: what its readers
--     and writers leave at the broker.
--   HttpServer with its children: of src/http-server.ts, `esc`, the reading of bodies, and the routes under
--     `/admin/` with `checkAdminAuth` and the levels of src/log-level.ts.
--   Examples with its children: a queue that is a list, concrete inputs, the theorems at them.
--
-- How the state is modelled. A handler is a function on the record `Broker`; a reference to a lock
-- object is the entry of `locks` under its key. Keys, uuids, sockets and process numbers are natural
-- numbers; keys are numbered in the order in which `Array.prototype.sort` puts them, and 0 is the empty
-- string. A handler reads the clock once (`Env.now`). A `ttl` of 0 is a missing one. Frames keep the fields
-- that tell their outcomes apart; log lines and the warnings of the emitter are left out. A timer is
-- its entry in `timeouts`, and fires as an event. Texts are lists of UTF-16 code units; node's `StringDecoder` and
-- JSON are parameters. What node emits or hands over is a log, and `process.nextTick` a queue of tasks. Of the hardened broker's lock
-- objects only the counters are kept, and a handler of the base class enters as the keys that it grants, in any
-- order and number. Node's `fs` is a parameter whose operations may fail; a process may die within
-- a write of the file, but what the disk was told stays there. A method of an RW client is a tree of requests, each
-- with what follows its reply, and meets a list of replies; what it has at the broker is counted by the requests
-- that were not answered by an error.
--
-- Fuel. The `while` loop of `ensureNewLockHolder` runs on fuel, and a handler returns `none` when it runs
-- out. One unit more than there are waiters is enough on a key whose waiters want one key each. The
-- loop of `cleanupConnection` uses one unit for each entry of `locks`, and one more.
--
-- Not modelled: the RW handlers are no events of a run, since the closures that they register can outlive
-- their lock object (which `Listener.orphan` then names, on a state of the RW handlers alone);
-- the constructor with the server, the network sockets and the handshake of versions;
-- `ls`, `ping`, `inspect` and `retrieveLockInfo`, which change no state, and the Prometheus text; the older
-- brokers and the other RW clients of other files; the other routes of the HTTP server; of the client, all but its requests to lock and to
-- unlock, and of `unlock` the checks of its options.
pub mod Prelude
pub mod Dict
pub mod LinkedQueue
pub mod Broker
pub mod Framing
pub mod Versions
pub mod Socket
pub mod Bridge
pub mod Client
pub mod Hardened
pub mod RwClient
pub mod HttpServer
pub mod Examples
