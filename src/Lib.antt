-- ===== src/Lib.antt =====
-- Verification of p2p-gpu: a coordinator hands pieces of a job's keyspace to volunteer GPUs under
-- leases, collects their results, validates them by replication and spot checks, and survives workers
-- that vanish, lie or race each other.
--
-- The parts and how they interact. The server (src/coordinator/net.cpp) holds a session for each
-- connection. Messages arrive in frames (src/protocol); a frame that is split and checked goes to the
-- connection's session (src/coordinator/session.cpp), which turns it into calls of the job manager
-- (src/coordinator/job.cpp) and of the tables of workers, reputations, assets and tiles; a timer sweeps. The job manager moves tasks through the state machine
-- (include/p2pgpu/coordinator/task_state.hpp), the submissions it collects go to the quorum
-- (src/coordinator/quorum.cpp), whose verdict comes back as `Finish`, `RequestReplica` or
-- `RestartValidation`, and the spot-check pool (src/coordinator/spot_check.cpp) supplies ranges whose
-- answer is known. On the worker, bulk inputs go through a cache that checks their hash
-- (src/worker-core/asset_cache.cpp), and a lost device is recovered or given up
-- (src/worker-core/recovery.cpp).
--
-- Files and code.
--   Base, Base/*: lists, maps and tests over native numbers, shared by all parts. A map of the source
--     is an association list: a write keeps an entry's place, a new key goes to the end.
--   Protocol/Limits, Errors, Ids: include/p2pgpu/protocol/limits.hpp, error.hpp, ids.hpp. A `Result`
--     of the source is the type `Result`, an identifier is its two 64-bit halves.
--     Protocol/Chains is about chains of checks on `Result`.
--   Protocol/Invariants: src/protocol/invariants.cpp, one function per check.
--   Protocol/Frame: src/protocol/frame.cpp and encode.cpp on lists of bytes; the address of a frame,
--     on which its alignment depends, is an argument.
--   Coordinator/TaskState: `IsTerminal` and `Advance` of include/p2pgpu/coordinator/task_state.hpp.
--   Coordinator/Affinity: src/coordinator/affinity.cpp.
--   Coordinator/Job: the fields of the class `JobManager` as a record, and the monad of its fallible
--     members. Job/Queries, Job/Lease, Job/Grant, Job/Speculate and Job/Recover hold the member
--     functions, under their names in lower case; Job/Calls is the sequence of calls that the session
--     layer may make. Proofs: Job/Cases, Job/Changes and Job/Calls/Runs reduce every operation to one
--     kind of change of the table of tasks; Job/Sweep, Job/Authority, Job/Release and Job/Grant/Choice
--     are about single operations, as are
--     Job/Grant/Keyspace, Job/Grant/Fresh, Job/Grant/Tiles, Job/Speculate/Cancel and Job/Recover/Adoption.
--   Coordinator/Quorum: `Decide` of src/coordinator/quorum.cpp. Proofs: Quorum/Clusters, Quorum/Members and
--     Quorum/Verdicts.
--   Coordinator/Reputation: src/coordinator/reputation.cpp without `SeverityFromDeviation`; the policy that reads
--     it, `RequiredAgreementFor` of quorum.cpp, is Quorum/Required.
--   Coordinator/SpotCheck: src/coordinator/spot_check.cpp.
--   Coordinator/Session: the fields of the class `Session`, the objects that sessions share, and the small
--     handlers; Session/Messages holds the messages, Session/Handshake, AssetServing, Leasing, Validation and
--     Results the large handlers, Session/Dispatch the entry points. Proofs: Session/LeasingCalls,
--     ResultCalls and MessageCalls, Session/Authority and Session/Returning.
--   Coordinator/Server: src/coordinator/net.cpp. Server/Frames holds the handlers of a connection,
--     Server/Sweep the timer's, Server/Steps the machine on events. Proofs: Server/Refinement, Server/Registry
--     and Server/Routing.
--   Coordinator/Sizer, Fleet, Assets, Params, Compositor: sizer.cpp, fleet.cpp, assets.cpp, params.cpp and the
--     class `Compositor` of composite.cpp, in src/coordinator. Coordinator/Kernels: the registry's data.
--   Coordinator/Doubles: the operations on doubles that these parts use, as a record.
--   Coordinator/Composite: the class `TileGrid` of include/p2pgpu/coordinator/composite.hpp.
--   Worker/AssetFetch: how src/worker-core/task_loop.cpp fetches an asset and serves it. AssetFetch/Chunks is a
--     chunk's way into the buffer and the end of a fetch, AssetFetch/Events what drives it. Proofs:
--     AssetFetch/Buffer, Reassembly, Delivery, Genuine and Service.
--   Scene/Bvh: `LoadBvh` of src/scene/bvh.cpp. Scene/Bvh/Load has its checks. Proofs: Bvh/Bounds, Bvh/Marks and
--     Bvh/Tree.
--   Worker/AssetCache: src/worker-core/asset_cache.cpp. Worker/Recovery: src/worker-core/recovery.cpp.
--
-- Bounds and fuel. 64-bit and 32-bit sums wrap where the source's do. Only the eviction loop of the
-- cache runs on fuel, one round for each entry, and it is shown to end with enough room. All other
-- loops are recursions over the list that the source walks.
--
-- Parameters. The comparator of float payloads and the severity of a deviation, the operations on doubles
-- (completion fraction, spot check rates, scores, sizes), the reading of a float, the check against a CPU
-- reference, the text of a new token, the hashes, the reader of scenes (Scene/Bvh models it), the asset fetcher and the GPU platform are
-- arguments of the definitions that use them. What the transport does is a series of events, which is arbitrary.
--
-- Not modelled: the HTTP endpoints and metrics, persistence, the verification of FlatBuffers, the validator's
-- float comparison, the rendering of the image, the worker's execution of tasks and GPU code, peer transport,
-- the building and writing of scene files, the path tracer and the mock worker. Logging and the text
-- of messages are left out, and so is the encoding of messages, which is generated code.
mod Base
pub mod Protocol
pub mod Coordinator
pub mod Scene
pub mod Worker
