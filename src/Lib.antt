-- ===== src/Lib.antt =====
-- ScaleRouter shares one RDMA device among the processes of a host. The daemon (scalerouter/) owns
-- the physical queue pairs and the shared memory; a client library (libscale/) turns each verb of
-- libibverbs into one request on a Unix socket. A virtual queue pair of a client is a handle that
-- the daemon maps to a host key (the GIDs of both hosts), and all clients of a host key share one
-- physical queue pair, which lives as long as its reference count is not 0.
--
-- Files and code:
--   Base, Base/*: lists, native numbers with the integer conversions of C, maps, decimal output and
--     how it reads back.
--   Common/Keys, Common/Messages, Common/Layout, Common/Buffer: scalerouter/common.h, its keys with
--     their `operator==`, its requests and responses, and their sizes.
--   Router/State: scalerouter/scalerouter.h. The heap of `conn_resources` is `conns`, a map from
--     addresses; `calls` is the trace of all calls of libibverbs, the sockets and the shared
--     memory, newest first. `Env` answers each of these calls as a function of that trace.
--   Router/Exec: a handler is an action on the router, with three faults: `killed` is `goto kill`,
--     `blocked` a wait that never ends, `undefined` the use of a NULL or freed pointer, a write beyond
--     a buffer, or the release of memory that is not the daemon's. The number of a queue pair that has
--     been destroyed is read from memory of libibverbs: `Env.freed_qp_num` says what is read there,
--     or none where the memory cannot be read, which is `undefined`.
--   Router/Resources, Router/Shm, Router/Remote: the functions of scalerouter/scalerouter.cpp and
--     scalerouter/shared_memory.cpp for queue pairs, shared memory and other routers.
--   Router/Handlers/*: the cases of `handle_process`. Memory is IBV_REG_MR and IBV_DEREG_MR,
--     QueuePair is IBV_CREATE_QP, IBV_MODIFY_QP, IBV_DESTROY_CQ and IBV_DESTROY_QP, Transfer is
--     IBV_POST_SEND, IBV_POST_RECV and IBV_POLL_CQ, Query the four queries, Attach what CREATE_RES
--     and IBV_MODIFY_QP share, Legacy INIT_RES to DESTROY_RES.
--   Router/Global: `init_global_res`, `destroy_global_res` and the destructor, with the answers of
--     libibverbs as a `Platform`. Router/Startup and Router/Teardown: how they end. Router/Options:
--     the options of scalerouter/main.cpp.
--   Router/Dispatch: `handle_process` itself: header, `switch`, response.
--   Router/Triple: rules for what actions do; Router/Invariant/*: the invariant of the daemon.
--   Router/Listeners: the two threads that accept connections, with the answers of the system as an
--     `Os`. Router/Accepting, Router/Accepting/Outcome: which connections they pass on.
--   Router/Framed/*: the parts of the handlers that leave the maps of host keys, of users and of shared
--     memory alone, for any predicate on these.
--   Router/Names: the names of shared memory; Router/Pieces/*: what all requests leave of them.
--   Router/Isolation/*: what the sessions of other clients leave of a virtual queue pair. Overlap and
--     Held are about threads that look an object up and use it later.
--   Router/Race: two clients in IBV_MODIFY_QP at once. Router/Freed: IBV_DESTROY_QP between the lookup
--     of an object and its use.
--   Router/Registration, Router/Addressing, Router/Rendezvous, Router/Completions,
--     Router/Readiness, Router/Leaks: the behaviour of single operations.
--   Client/Structs, Client/Socket: libscale/scale_type.h and `request_router` of libscale/scale.c.
--   Client/State, Client/Queue, Client/Transfer, Client/Memory, Client/Device: libscale/verbs.c, its
--     static variables and its verbs, over a carrier of requests (`Transport`). Client/Routed is the
--     carrier that asks `handle_process`; a request that it does not answer is `hung`, since
--     `request_router` goes on reading. Client/Calls are the verbs as calls of a program.
--   Client/Handles, Client/Counting, Client/Overruns, Client/Agreement, Client/Behaviour, Client/Verbs,
--     Client/Creation, Client/Programs, Client/EndToEnd, Client/Regions, Client/Receives,
--     Client/Faults: the behaviour of the verbs, alone and over the router. Router/Replies: the struct
--     of a response.
--   Tests/*: a concrete device, runs, and instances of the theorems.
--
-- Bounds: a handler runs alone, with two exceptions. Messages of other routers interleave with
-- the spin of IBV_MODIFY_QP (`arrivals`, a list of batches, each of which is handled between two
-- reads; after its end the spin goes on for ever). In Router/Isolation/Overlap, IBV_POST_SEND,
-- IBV_POST_RECV and IBV_POLL_CQ are two steps, the lookup of an object and its use, between which
-- other threads run, and in Router/Freed too; in Router/Race, IBV_MODIFY_QP is. Process ids are
-- not negative. Integers of the structs are natural numbers, with the conversions of the code
-- written out; `ref_cnt` wraps at 2^32. There is no fuel: each loop is over a list, except that
-- the accept loops of the listeners, which do not end, are taken for a number of rounds.
--
-- Not modelled: the hash functions of the maps and their order, logging, allocation failure, and
-- what libscale/verbs.c does besides its requests and its static variables: the copying of memory
-- contents, and the functions that only free or read one object.
pub mod Base
pub mod Common
pub mod Router
pub mod Client
pub mod Tests
