-- ===== src/Lib.antt =====
-- ipfs-embed: the node's address book, the queries of its network behaviour, its storage, the API
-- on top of them, the command line, and the helpers of the test harness.
--
-- The parts and their files, with paths from the repository's root:
-- - Multiaddr: the functions on addresses of src/net/peers.rs. An address is the list of its
--   protocols. A peer's identity is a number, and its conversion into a multihash and back, which
--   is libp2p's, is the parameter `PeerIds`.
-- - PeerInfo: `PeerInfo` of src/net/peer_info.rs, with Source (`Direction`, `AddressSource`), Rtt
--   and Failure (`ConnectionFailure`, and `is_sim_open` of peers.rs). The texts of libp2p's errors
--   are the parameter `Texts`.
-- - Channel: an unbounded channel of the `futures` crate, as its sender sees it.
-- - AddressBook: `AddressBook` of src/net/peers.rs. State has the record and the events, Dial,
--   Addresses, Prune, Connections, Failures and Identify have the operations, and Swarm has
--   `on_swarm_event` and `poll`. Invariant/Book has the invariant, Invariant/Ops its preservation
--   by each operation, Invariant/Steps a step for every operation and the states that they reach,
--   Invariant/Gauges what an operation leaves alone of the listen addresses and their gauge, and
--   Invariant/Listeners the gauge in the states that are reached, and Invariant/Plans, Deferrals
--   and Flights follow the dials between the book and the swarm. Laws/Writes and Laws/Frame say
--   whose record a call may write. Handler is the connection handler of
--   src/net/address_handler.rs.
-- - Network: `NetworkBackendBehaviour` of src/net/behaviour.rs. It owns the address book and calls
--   it, and calls the protocols of libp2p, which are seen by the list of the calls made of them
--   and by what they answer, an argument. Queries has the waiting queries and the events that
--   answer them, Requests the operations that start a query or pass a call on, with Calls, which
--   runs them in any order. Gossip has the topics, with the naming of topics by `IdentTopic::hash`
--   as a parameter, and the events of mdns, ping and identify. Service is `poll_swarm` of
--   src/net/mod.rs, the loop that owns the behaviour: `handle` is its round for a command,
--   `on_event` for an event. Service/Runs lets them follow each other in any order, with the calls
--   that the swarm makes of the address book in between. Service/Streams has
--   `forward_listener_events`, the poll of `SyncQuery` and the start of a sync. Client is
--   `NetworkService`, the handle that sends the commands, with Views for what it reads of the
--   book. Config is `NetworkConfig` of src/net/config.rs, and Setup builds the behaviour and the
--   service from it, with the transport as the layers that it is put together from.
-- - Storage: src/db.rs, over the block store of `ipfs_sqlite_block_store`, which is the parameter
--   `BlockStore` of its operations, with `IsBlockStore` for what the program relies on. Batch has
--   the operations within a transaction, Service `StorageService`, Collection the garbage
--   collector's rounds, `evict`, `flush` and the gauges, Opening the start of the service and of
--   its collector. Spec says what the storage promises in terms of the blocks and names that it
--   holds.
-- - Executor: src/executor.rs. The two task libraries are the parameter `Runtime`, with
--   `IsRuntime` for what the program relies on: a task lives until it ends or is told to stop;
--   Futures names what is spawned, Effects says what an operation does to the tasks.
-- - Variable: src/variable.rs, the variables by which the address book is published.
-- - Ipfs: src/lib.rs, the API over the storage and the network: `get`, `fetch`, `insert` and
--   `sync`, with Calls for what is passed on to the storage, and Api for what is passed on to the
--   network. Start builds a node from its configuration and counts its handles; Starting, Lifetime
--   and Stopping follow its two background tasks from the start to the last drop. What the network
--   does during a fetch is an argument.
-- - Cli: cli/src/lib.rs and cli/src/main.rs. Command and Event have the lines that the program
--   reads and writes, Words and Hex their parts, Codecs the texts of other packages' types as a
--   parameter, Main the round of the loop on a line and the events that are printed, Start what
--   the program does with its options before the loop. A text is the list of its code points; a
--   word that is unwrapped and is not there is the outcome `panicked`.
-- - Harness: harness/src/lib.rs, the roles and the options of the nodes of a simulated network,
--   how long a scenario waits, and the tree of blocks of src/test_util.rs, which the harness has
--   too.
-- - Examples: values at which the theorems are applied.
--
-- The swarm tells the book of connections and failures by `on_swarm_event`, and takes dials from
-- it by `poll`; the behaviour adds addresses and passes identify and ping results to it.
--
-- Correspondence. A function of the source that changes `self` is a function from the state to the
-- state with the same name. A `HashMap` is an association list in which the order means nothing
-- and a key stands once; a `HashSet` is gone over in the order of insertion, one of the orders
-- that it may have. An `Arc` is the count of its handles, and what its last drop does.
-- `Utc::now()` is an argument `now`, the same within one operation, in nanoseconds. A `u8` of
-- retries starts at 11, 10 or 4 and is only made smaller above zero; a `u32` keeps its wrap. A
-- loop of the source goes over a list that is there when it starts, and is recursion on it. Only
-- the loop of `SyncQuery::poll` waits on a channel: it runs on fuel, for which one more than the
-- events in the channel is enough where it ends. So does the loop of `evict`, for which one more
-- than what the store has to collect is enough.
--
-- Not modelled: the passing of time (any deferred redial may be due), logging, locks (an operation
-- runs alone, as the book is behind `&mut self`, and a variable is locked for one call), the tasks
-- that the swarm spawns for its connections, telemetry and the registration of metrics, which are
-- pure I/O, and the simulated network of the test harness with its scenarios.
pub mod Prelude
pub mod Result
pub mod Multiaddr
pub mod PeerInfo
pub mod Channel
pub mod AddressBook
pub mod Network
pub mod Storage
pub mod Ipfs
pub mod Cli
pub mod Harness
pub mod Examples
pub mod Variable
pub mod Executor
