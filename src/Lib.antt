-- ===== src/Lib.antt =====
-- libdynpm: messages between dynamic process managers, the connections that carry them, the tree of
-- the overlay network, and the shared memory between a manager and its processes.
--
-- The parts and their files:
-- - Base: helpers on lists, options and Boolean tests that all parts share.
-- - Text: the conversions of `sprintf` and `sscanf` that the library's formats use (`%d`, `%s`,
--   white space), over bytes, and buffers of a fixed size. Text.Outcome says how such code can end:
--   with a value, with an unassigned field, with a failed `assert`, or with an access out of
--   bounds.
-- - Protocol: src/network/protocol.c and the structures of include/dynpm_network.h. Each
--   `dynpm_serialize_...` and `dynpm_deserialize_...` is the definition of that name without
--   the prefix, in Protocol.Header, Connection, Tree, Resources, Reallocation, Offer, Dynamic
--   and Report (the messages with a payload, by way of Payload) and ProcessManager (with
--   Lines, Writing and RoundTrip on it). Protocol.Registration reads a registration as the
--   server does. Protocol.Free is the functions that free a message, with Structs,
--   Applications and Manager on what they free, and Reading on what the readers allocate.
-- - Tbon: src/network/tbon.c. Edges is `dynpm_compute_local_tbon_edges`; Children and Vertex
--   are `dynpm_initialize_tbon_vertex`; Waits the deadlines of the three waits; Broadcast is
--   `dynpm_send_message_to_tbon_children`; Freeing is `dynpm_free_tbon_vertex`.
-- - Shm: src/shm/shm.c. World holds the blocks of the manager and of all processes, with each
--   side's copy, and the operations on them; Modes the poll of the malleability modes; Trace,
--   Steps, Invariant, Reading and Delivery follow sequences of operations; Lifecycle the
--   return codes of the start and the attachment, and the names of the blocks.
-- - Network: src/network/client.c and src/network/server.c. Queue is the queue of outgoing
--   messages as a list, with the write callbacks; Queue.Cells the same queue as linked cells in
--   single steps, and Queue.Refinement relates the two, by way of Queue.Chains; Queue.Draining
--   follows the callbacks until nothing waits. Receive is the two read callbacks, with Blocks on
--   whole messages and Partial on parts. Message is the two `switch` statements over the types,
--   and Message.ReadBack what their readers get, with Message.Size on the size of what is
--   written, and Message.Ownership and Freed what sending frees. Client.Table is the table of
--   the connections to servers, with Entries, Registering, Laws, Start, Locks and Sending on it,
--   Client.Events the callback on events, Client.Callbacks the write callbacks, and
--   Client.Thread the thread of a connection, with Client.Release on what it frees;
--   Server.Registry the list of the clients' connections, with Lookup, Dispatch, Sending,
--   Unlinking and Closing on it; Server.Accepting the accepting thread and the work units,
--   Server.Startup the globals with the start on a port or on a range and
--   `dynpm_server_finalize` (with Startup.Ports and Range), and Server.Clearing
--   `dynpm_clear_client_connections`; Server.Callbacks the write callbacks, the sending of a
--   header and the thread of a connection, with Server.Thread on it. Wire follows messages over
--   a network; Joining leads from a client's connection to a search at the server, Delivery
--   joins the client's sending, the callbacks and the server's reading, and Reply the server's
--   sending and the client's reading. Network.Call says how a call that takes locks can end: it
--   returns, waits for ever, stops at a failed `assert`, or crashes.
-- - Network.Pool: src/network/queue.c, the work queue and its workers, with Pool.Order on
--   sequences of their operations.
-- - Network.System: a client's queue, the bytes on its connection, the server's read callback
--   and the work queue as one system of steps in any order, with Conservation and Progress on
--   it.
-- - Memory: the blocks that `malloc` returns and `free` takes back, with the words of a block
--   that hold pointers; Memory.Blocks and Memory.Freeing are what freeing leaves,
--   Memory.Allocating is what `malloc` makes.
-- - Config: the two searches of src/config/config.c. Config.Load is how a file is read: the
--   allocation, the actions of src/config/bison.y on the statements of a file, and
--   src/config/load.c; Load.Entries follows the actions through a file.
-- - Tests: the theorems at concrete inputs.
--
-- The parts meet where the code calls: the client's `connect` writes a registration of Protocol
-- into the queue of its entry, the server's `top_handler` reads it, and the end of a client's
-- connection disconnects the entries of the client's table whose parent it is.
--
-- Numbers are natural numbers. A field of 32 bits is below 2 ^ 32 where a theorem needs it, the
-- counters of the shared memory wrap around at 2 ^ 32, and the identifiers of the tree are bounded
-- by 2 ^ 31. A number is printed with at most 10 digits, which is enough for 32 bits. The loop over
-- the table has 64 rounds, one for each entry; the loop over a range of ports has one for each port;
-- the walk along the cells of a queue has any number that is at least that of the waiting messages.
--
-- Each operation of a thread runs as a whole, except in Network.Queue.Cells: the orders of
-- operations are those of the sequences in Shm.Trace, Network.Queue and Network.Pool.Order,
-- and of the steps in Network.System. In Memory only what is freed counts, and not when
-- `malloc` fails. The `mutex` of a connection is taken to be free where a callback of that
-- connection locks it, and is left out there. A buffer that is enqueued is taken to have the size
-- of a message, as all buffers of the library have, and is kept whole. A work unit is its data:
-- each one that is added is taken to be a new one, as those that the library makes. The model reads
-- nothing of the shared memory past its copies: the poll of the modes is about one process or more.
-- Not modelled are the calls of libevent, of pthreads and of the system, of
-- which `Environment`, `Surroundings`, `AcceptCalls` and `Calls` say how they end; the
-- functions that only print or log; and the automata that flex and bison make of the
-- configuration's grammar (src/config).
pub mod Base
pub mod Text
pub mod Protocol
pub mod Tbon
pub mod Shm
pub mod Config
pub mod Memory
pub mod Network
pub mod Tests
