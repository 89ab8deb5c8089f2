-- ===== src/Lib.antt =====
-- The Neo4j driver for Python: a model of its core and the theorems that make it correct.
--
-- A driver talks to servers over Bolt. A request is packed in the PackStream format, cut into chunks
-- and sent over a socket; responses come back the same way. Connections are kept in a pool. The
-- synchronous half is modelled (src/neo4j/_sync); the asynchronous half is the text it is
-- generated from.
--
-- Packstream models src/neo4j/_codec/packstream/v1/__init__.py. Packstream/Value holds the Python
-- values (floats as bit patterns, texts as code points, any object that the packer has no branch for
-- as `other`) and the integers of `struct`; Packstream/Utf8 is Python's codec; Packstream/Keys is
-- what a dict does with its keys. Packstream/Pack has `Packer` and `PackableBuffer`: a call returns
-- the bytes that it has written and the exception that ended it, if any. Packstream/Unpack has
-- `Unpacker` and `UnpackableBuffer` as a state monad with exceptions. The recursion limit of the
-- interpreter is the fuel of `pack_value` and `unpack`; running out of it is `recursion_error`.
-- Dehydration hooks and the content of tuples are parameters; hydration hooks are a function on values.
-- Packstream/Reads, Markers, Composite, RoundTrip and Success hold the proofs.
--
-- Chunking models `Inbox`, `Outbox` and `receive_into_buffer` of src/neo4j/_sync/io/_common.py. A
-- socket is the list of the pieces in which the network delivers the stream. `read_chunks` joins the
-- two loops of `_buffer_one_chunk`; its fuel is one more than the bytes to come, and each of its
-- rounds takes two. Chunk sizes are written by `struct.pack(">H", ...)`, so the theorems ask for a
-- `max_chunk_size` below 65536 (the source uses 16384).
--
-- Pool models `IOPool` of src/neo4j/_sync/io/_pool.py. Connections are shared objects, so
-- `Pool.store` maps identities to their attributes. Pool/Ops has one function for each operation under
-- the pool's lock; what a connection does on the network is a parameter. Pool/System is the pool with
-- its clients, whose steps interleave in any way: an idle connection is picked, closed and removed in
-- steps of their own. Pool/Acquire is the loop of `_acquire` with
-- re-authentication, over its rounds, each of which says what other threads do before it; a
-- loop that goes on after them is `none`. Pool/Errors is `on_neo4j_error`.
--
-- Routing models src/neo4j/_routing.py and `Neo4jPool` of the same file as the pool: OrderedSet in
-- Routing/Elements, RoutingTable in Routing/Table, what needs no router in Routing/Tables, the update
-- of tables in Routing/Update, the choice of an address in Routing/Select, and `acquire` in
-- Routing/Acquire, whose fuel is one more than the servers of the table. The conversation with a
-- router (`fetch_routing_info`), name resolution, the order of a Python set and `random.choice` are
-- parameters. Time does not pass within one call.
--
-- Bolt has the state managers of src/neo4j/_sync/io/_bolt3.py (Bolt 3 to 5.0) and _bolt5.py (5.1 and
-- later) and what the summaries of pending responses do to the server's state (Bolt/States), and the
-- subscribers of _common.py with `_process_message`, as lists of actions (Bolt/Responses). Of
-- src/neo4j/_sync/io/_bolt.py, Bolt/Handshake has the versions that are offered, with `Version` of
-- src/neo4j/api.py, and Bolt/Connection the calls that write, read and close, where what the socket does is
-- an argument. Deadline models src/neo4j/_deadline.py.
--
-- Time models src/neo4j/time/__init__.py and src/neo4j/_codec/hydration/v1/temporal.py without time
-- zones and with integers as arguments: Time/Date has `Date`, Time/Duration `Duration` (with
-- `symmetric_divmod` of src/neo4j/time/_arithmetic.py), Time/Addition the sums and differences of dates,
-- Time/Clock `ClockTime`, `Time`, `DateTime` and the
-- hydration of all but durations. The walks of `Date.from_ordinal` take the entries that the tables of
-- years and months have left as fuel; running out of them is the KeyError of the lookup. Dates are
-- numbered by Python's `datetime.date`, written out in Time/Calendar.
--
-- Work has what runs on a connection. Work/Results models `Result` of
-- src/neo4j/_sync/work/result.py: the connection is the list of the messages to come, after which it is
-- lost. A message comes only while a request awaits its summary. `effects` lists what the result sends
-- and calls; its operations are in Work/Results/Operations. `rounds` is the loop of `__iter__`, where a
-- round that sends a request is joined with the one that reads after it; a loop that never ends is `none`.
-- `iterate` is the loop over all records, on fuel: `enough` is one more than the records and messages to
-- come.
--
-- Work/Transactions models `TransactionBase` of src/neo4j/_sync/work/transaction.py with the session's
-- handlers (src/neo4j/_sync/work/session.py) and its connection (workspace.py): what the network does in
-- a call is an argument. Work/Retries is `Session._run_transaction`, over the rounds that will be made:
-- each holds what the pool, the server and the transaction function do in it and the times read, and
-- a loop that goes on after them is `none`.
--
-- Work/Bookmarks models `Neo4jBookmarkManager` of src/neo4j/_sync/bookmark_manager.py and the sessions that
-- share one, whose transactions overlap in any way.
--
-- Auth models the manager of expiring tokens in src/neo4j/_sync/auth_management.py, and Locks the
-- `AsyncCooperativeRLock` of src/neo4j/_async_compat/concurrency.py, both under any order of calls.
--
-- Errors models the classification of server errors in src/neo4j/exceptions.py. Codes are Python texts and
-- split as such; the other attributes of an error are carried along.
--
-- Graph models src/neo4j/graph/__init__.py and the hydration of nodes, relationships and paths in
-- src/neo4j/_codec/hydration/v1/hydration_handler.py: the objects of a graph are known by their element
-- ids, so that an assignment to a relationship is seen wherever it is shared. Records models `Record` of
-- src/neo4j/_data.py, and Addressing `Address` of src/neo4j/addressing.py.
--
-- Not modelled: the openers of connections, the rest of the Bolt handlers, auto-commit queries and
-- transactions that the user opens, cancellation, time zones and texts of times, points, configuration,
-- TLS and logging.
pub mod Base
pub mod Packstream
pub mod Chunking
pub mod Pool
pub mod Routing
pub mod Deadline
pub mod Bolt
pub mod Time
pub mod Work
pub mod Auth
pub mod Locks
pub mod Errors
pub mod Graph
pub mod Records
pub mod Addressing
