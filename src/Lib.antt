-- ===== src/Lib.antt =====
-- neutrino-elements: a light client for Elements, which keeps block headers and compact filters and
-- scans blocks for the items that its clients watch.
--
-- The program's parts, and the files that model them:
--
-- * pkg/binary (marshaler.go, unmarshaler.go) is the codec of the wire: Binary/Words, Marshaler,
--   Reader and Unmarshaler. A Go value is a `Value`, as the type switch of `Marshal` and reflection
--   see it; what `Decode` is called on is a `Shape`. An io.Reader is the list of bytes that it still
--   has, as for a bytes.Reader; where the node reads a header from a connection, one Read gives what
--   has arrived.
-- * pkg/protocol is the peer-to-peer protocol: Protocol/VarInt (varint.go, blocklocator.go), Network
--   (network.go, checkpoints.go, protocol.go), Message (cmd.go, msg.go), Payloads (the messages
--   msg_*.go, netaddr.go) and Addresses (addr.go).
-- * pkg/repository and internal/infrastructure/storage/db are the stores: Store/Interface, Headers and
--   Filters (inmemory), and Postgres (pg/header_repository_impl.go and pg/filter_repository_impl.go). A
--   Go map is an association list in one of its iteration orders, and an operation under its lock is
--   one step on the state. A table of the database is the list of its rows, and a transaction is one
--   step, whose rows are kept only where it is committed.
-- * pkg/scanner is Scanner/Requests (request.go, requestqueue.go, watchitem.go), Blocks, Worker,
--   Descriptor and Manager (scanner.go: `blockFilterMatches` and `extractBlockMatches`,
--   `requestWorker`, `WatchDescriptorWallet`, and `requestsManager` with `New`, `Start` and `Stop`),
--   over the records of Store/Interface; Esplora is pkg/blockservice. The manager is a relation: each
--   step is a call of the scanner's owner or a step of a goroutine `requestsManager`, from one point
--   of its code to the next, and a run of the worker is one step.
-- * pkg/node is Node/Sync (cmd_headers.go, cmd_block.go, chainsync.go and the writers of node.go),
--   Serving (cmd_getcfilters.go), Peers (handle_ping.go and `disconnectPeer`), Mempool (mempool.go),
--   Messages (all of cmd_*.go, and `handlePeerMessages` and `sendMessage` of node.go), Service (the
--   interface NodeService, `monitorPeer` and `syncWithPeer`) and Lifetime (`Start` and `Stop` of the
--   node and of the mempool, `sync` and `checkSyncedInitial`). A handler is a function to its effects:
--   what it sends or forwards to a channel, and what it starts. In Messages it also takes the
--   connection's bytes and gives what it leaves of them.
-- * internal/core/application is Application: the notification service, over the scanner's queue.
-- * internal/interface/web-socket/handler and the conversions of pkg/neutrinod-types are Notifier: the
--   subscribers, their connections and requests, as values.
-- * cmd/neutrino is Client: the state file (Config) and the subscription over a web socket.
-- * cmd/neutrinod, internal/config, server.go and middleware of internal/interface/web-socket, and
--   db_service.go of the database are Daemon: the settings, the launch, the handlers' middleware and
--   the shutdown.
--
-- The node's handlers forward headers to the writer, which puts them in the header store and asks for
-- filters; the scanner reads both stores, asks the block service for a block whose filter matches,
-- and sends reports to the notification service. That makes events of them, which the web socket
-- handler sends to the subscriber whose id the report's request has.
--
-- Ledger has the types of go-elements as far as the program reads them. Prelude has the shared
-- helpers, Go's errors (Outcome) and maps (Assoc). Runs has the theorems at concrete inputs.
--
-- Bounds and fuel: integers of w bits are natural numbers with `% 2 ^ w` where the code can wrap. The
-- locator's loop has as many rounds as a message may carry hashes, and adds a hash in each. The walk of
-- `HasAllAncestors` has a number of rounds as a parameter, and a header's height is enough where links
-- lead down. The worker's loop has one round for each moment that it is given, that is for each
-- reading of the stores; what other goroutines do meanwhile is in the moments. The loop of
-- `handlePeerMessages` takes at least a byte from the connection in each round, so that one round more
-- than there are bytes is enough; what it reads of the stores is a function of the bytes that are left.
--
-- Parameters: sha256, the parsers and serializers of go-elements, the filters of gcs, the address
-- parser, the block service, wallet descriptors, `FilterKey.String`, wire.MaxBlockLocatorsPerMsg, what a
-- connection's Write returns, the rules of ozzo-validation, strconv.Atoi and net.ParseIP, json where a
-- part reads or writes it, the names that go-elements gives its networks, the environment, and the
-- driver of the database.
--
-- Not modelled: reads of a payload from a connection that give fewer bytes than `decodeArray` asks
-- for; limits on the memory of `make`, contexts, logs and timers; the errors of the database
-- that are no unique violation, and the loading of test fixtures; the bytes of JSON, sockets and HTTP
-- with the server's routes; the HTTP clients; flags and help texts of the commands; the errors of a
-- response that cannot be sent; the subscribers' channels of the mempool; and the lock `cond.L` of the
-- request queue, which only managers hold.
pub mod Prelude
pub mod Ledger
pub mod Binary
pub mod Protocol
pub mod Store
pub mod Scanner
pub mod Node
pub mod Application
pub mod Notifier
pub mod Client
pub mod Daemon
pub mod Runs
