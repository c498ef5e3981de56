-- ===== src/Lib.antt =====
-- A simulated distributed key-value database (main.go): `Simulate` of net/manager.go starts nodes and
-- sends them random requests over a simulated network. A node (dbnode) answers a client's read from a
-- quorum of nodes, and coordinates a client's write, if it is the leader, in four phases: it locks a
-- quorum, asks it for timestamps, puts the value at the next timestamp, and commits with the unlock.
--
-- The parts and their files:
-- - Base: what the others share. A fault (log.Fatal, a write to a nil map, a nil pointer, a slice
--   bound out of range) is a value of `Outcome`; a 64-bit integer is a number below 2^64, with the
--   wrap-around of Go in `increment`, `decrement` and `int_ltb`; a map is an association list; a byte
--   slice is a list of numbers.
-- - Packet (net/packet/message.go): messages and their types; Packet.Names has `String`.
-- - Datastore (datastore/store.go) is the interface of a local store with its laws; Datastore.Memstore
--   (datastore/memory.go) implements it by a trie. The timers that simulate a disk take no steps.
--   Datastore.Persistent (datastore/persistent.go) is the store in files, with `Pages` and `Updates` on
--   the records of a page; it may stop with a fault, so that its laws are stated by themselves.
-- - Repeater (dbnode/repeater/repeater.go) resends requests until they are answered. A goroutine that
--   sends is a `Sender` record, and `attempt` one round of its loop.
-- - Elector (dbnode/elector/elector.go) is the interface of leader election, a parameter of the node.
--   Elector.Ring (ring.go) has the ring elector, one round of its `mainLoop` as `ring_step`;
--   Elector.Bully (bully.go) is the bully elector, which `New` does not choose, with `bully_step`, and
--   Elector.Dummy (dummy.go) an elector without elections.
-- - Dbnode (dbnode): the record `Dbnode.State.Dbnode` has the fields of the struct of that name, and
--   each method is a function on it: `Quorum`, `Abort`, `Read`, `Write` and `Process` have
--   `assembleQuorum`, `abortProcessing` and `continueProcessing`; `Local`, `Handlers` and `Background`
--   the handlers of messages; `Startup` has `New`; `Requests` and `Loop` one round of
--   `handleRequests` for each case of its `select`. `Coordinator`, `RequestQueue` and `Propagater` are
--   dbnode/coordinator.go, requestQueue.go and backgroundWriter.go.
-- - Options (net/manager.go): the checks of `Simulate` on the sizes of the quorums.
-- - Partitions (net/partitions.go): the links that simulated partitions cut.
-- - Network (net/manager.go): `startHelper` and `sendAfterDelay` as `route_message` and `arrive`, and the
--   failures and random partitions of `triggerNodeFailures`; Network.Delivery interleaves the steps.
-- - Workload (net/manager.go): the random requests of `sendTests` and `sendConvergenceTests`, from a
--   sequence of random bytes.
-- - Monitor (net/monitor.go): the counts of messages and of the nodes' transactions.
-- - Client (net/client.go): the attempts of a read or a write, each given what comes in while it waits,
--   and the loop `routeResponses`. The numbers of `idStream`, which all clients share, are arguments.
-- - Locker (net/locker.go): a lock among programs. `check` and `answer` are the parts of a round of
--   `daemon`; Locker.System interleaves the steps of any number of programs and their daemons over a
--   register that stands for the key in the database: a read answers its content, and a strong write
--   takes effect at the next timestamp or not at all, and is reported as a success only if it did.
-- - Quorums has the pigeonhole principle for sets of nodes. Tests has runs of the code.
--
-- A node is a function of its own messages: a round of the main loop takes the message that comes in,
-- and what it sends is added to the field `outgoing`. Channels, locks and goroutines are the steps
-- that they order: the internal timer and the timeouts of requests are messages that may come at any
-- round. Go's maps are iterated in no fixed order, and the lists in one. The queue of requests holds
-- pointers, so that the variable of a round that a pointer leads to is a cell of the field `memory`.
-- `rand.Perm` is a parameter, of which `IsPermutation` states what is used; each draw has one of its
-- own, a round two at most. A slice of bytes that is nil is not told apart from an empty one: the keys of
-- clients are taken to be other than nil. The decimal digits of a number need fuel (`digits`): one step
-- more than the number is enough, since each step divides it by ten; and so do the loops over a page of a
-- file (`find_loop`, `copy_loop`): its length is enough, since each round shortens the page. A loop over a
-- page that is cut short has a fault of its own, `out_of_fuel`. The endless loops are modelled by their
-- rounds.
--
-- Not modelled: that `propagateTransaction` (dbnode/backgroundWriter.go) waits for the receiver of its
-- signal while it holds the lock; the tie of the ring and the bully elector to the interface,
-- overlapping calls of one client, the times of the requests and the failures of a simulation
-- (net/manager.go), and the logs.
pub mod Base
pub mod Packet
pub mod Datastore
pub mod Repeater
pub mod Elector
pub mod Dbnode
pub mod Quorums
pub mod Options
pub mod Partitions
pub mod Network
pub mod Workload
pub mod Monitor
pub mod Client
pub mod Locker
pub mod Tests
