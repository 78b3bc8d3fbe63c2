-- ===== src/Lib.antt =====
-- a2a-cpp: a C++ SDK for the A2A protocol (clients and servers for agents that exchange tasks).
--
-- The parts, and the files that model them:
--
--   core         errors, results and protocol errors (include/a2a/core/error.h, result.h,
--                protocol_errors.h, src/core/error.cpp) in Core/Error; text helpers
--                (src/core/string_utils.cpp) in Core/Strings; the messages of
--                proto/a2a/v1/a2a.proto that the parts below read, in Core/Proto.
--   task layer   src/server/tasks. History retention and duplicate detection (task_history.cpp)
--                in Tasks/History; page tokens and the order of positions (list_tasks.cpp) in
--                Tasks/Cursor; filters, page sizes and the projection of listed tasks in
--                Tasks/Listing; the in-memory store (in_memory_task_store.cpp) in Tasks/Store;
--                the guards and transitions of task_lifecycle_service.cpp in Tasks/Lifecycle, over a
--                record of the operations of include/a2a/server/tasks/task_store.h that it calls.
--
--   client       src/client/transport/sse_parser.cpp in Client/Sse, with the frames that
--                src/server/transport/rest_transport.cpp writes in Client/Sse/Frames.
--
--   push         src/server/push_notifications/push_notification_store.cpp in Push/Store.
--
--   server       src/server/task_subscription_service.cpp: one subscription, with the coroutine of
--                include/a2a/server/stream_response_coroutine.h and its session, in Server/Subscriber,
--                the service in Server/Subscriptions. tasks/task_authorization_service.cpp in
--                Server/Authorization, which owns such a service and writes to a task store.
--                security_policy.cpp in Server/Security: requests and responses in the file itself,
--                ListTasks in Server/Security/Selecting, streams in Server/Security/Streams, with the
--                requests of include/a2a/server/dispatch_types.h. The header validators in
--                Server/Validators, stores/sql_identifier.cpp in Server/SqlIdentifier,
--                task_id_generator.cpp in Server/TaskId.
--
--   headers      src/core/version.cpp in Core/Version; src/core/extensions.cpp and http_utils.cpp in
--                Core/Extensions. The requests and answers that the server checks are in
--                Core/Requests, the events of streams in Core/Stream.
--
-- Base holds what all parts share: the library's names, tests on native numbers, lists, byte
-- strings, association lists, signed integers, decimal numerals.
--
-- How the state and the operations correspond. A function keeps its name in snake case: TouchTask
-- is touch_task, ListTasksRequest a record with its fields. InMemoryTaskStore is a record of the
-- containers of the class, a vector as a list, the ordered set as its sorted list, the hash map
-- as an association list, of which only lookups are used. Each operation of the store runs under
-- its lock, so it is one step: a function from the state to a result and the next state. The clock
-- is sampled once at most in a step, so its sample is an argument `now`, an integer. The telemetry
-- sink is the list of the events that it was given. A method that returns core::Result gives
-- `ok` or `err` of Core/Error.
--
-- A weak pointer to a subscription is its position in the list of all that were made, and it locks
-- while the session is alive. Each function of the subscription service is the work under its lock
-- with the resumption of the coroutine behind it, in one step; a read that would wait returns
-- `blocked` and leaves the coroutine where it stands. The authorization service is written over a
-- record of the store operations that it calls (RevisionStore); its statements take the laws that it
-- relies on (RevisionLaws of Server/Authorization/Moves), which Server/Authorization/InMemory gives
-- for the in-memory store. What the id generator answers and the validator of credentials are arguments.
-- The security checks read a store that they do not change (ReadStore), and the embedder's policy is
-- a record of its functions. A read of a guarded stream may wait while others write, so it has one state
-- of the store before it and another behind it.
--
-- The SSE parser's callback is a function on a state `W` that the caller chooses; a call of the parser
-- is a function from the parser and that state to a result and both after it.
--
-- Conventions. A string is a list of bytes. A message field of a protobuf message is an Option, and
-- reads as its default where it is absent. SerializeAsString of a part is a parameter `serialize`:
-- the wire format is protobuf's. A uint64_t revision wraps at 2^64. Times in the store are int64_t
-- values that are not negative, since the store makes no others; the clock may give a negative one.
-- Indexing a vector out of range is undefined in the source; the model reads a default there, and
-- the invariant IsConsistent excludes it.
--
-- Where the statements stand. Tasks/Store/Consistency has the invariant that ties the containers of
-- the store together, Tasks/Store/Spec the abstract store, a map from ids to entries, and
-- Tasks/Store/Refinement compares the two. Tasks/Store/NewestFirst has the order of a listing, Tasks/Store/Reachable is about the stores that runs of the
-- operations make, Tasks/Store/Clients about a client that pages through a listing. Push/Store has
-- the same shape: Consistency and Shifting for the index map, Refinement, Paging. Client/Sse/Chunks is
-- about streams cut into chunks, Client/Sse/Frames about the frames of the server.
--
-- Server/Subscriber/Order has what a subscription has still to hand out, Runs and Pending the runs of
-- one; Server/Subscriptions/Registered the invariant of the service, Reachable its runs.
-- Server/Authorization/Moves has the state machine of an authorization, Operations/Runs the runs of the
-- service.
--
-- Bounds. Fuel stands for two loops. That of a paging client bounds its calls: every call but the last
-- gives a page that is not empty, so one call more than there are entries is enough. That of
-- SelectTaskIds bounds the pages that it reads of the store, and `none` says that it is still running:
-- one turn more than there are matching tasks is enough on the in-memory store. The counts of that loop
-- and of the deliveries of a subscription wrap at 2^64.
--
-- Not modelled: network and HTTP input and output, the gRPC and curl bindings, JSON and protobuf
-- encodings (libraries that the source calls), the database stores (SQL in another process), threads
-- beyond the atomic steps, exceptions thrown by the coroutine and timeouts of a read but for the empty
-- answer that they give, the dispatcher, the delivery of push notifications, the transports but for the
-- frames of events, the client but for its event parser, the examples, benchmarks and scripts.
pub mod Base
pub mod Core
pub mod Tasks
pub mod Client
pub mod Push
pub mod Server
