-- ===== src/Lib.antt =====
-- Portask, a message broker in Go (pkg/, cmd/). A producer's message enters by the network or an
-- emulated Kafka or AMQP protocol, is routed by the message bus to a bounded queue for its priority
-- or topic, and is taken off by the workers.
--
-- Message.antt is what the bus and the stores hold, the bus (Bus.antt) owns queues and calls them,
-- the consumer groups share the transactions' `TopicPartition`, and the Kafka bridge puts together the
-- processor, the batch writer and the log; the other parts do not call each other in the model. The
-- protocol handler's calls of its store are parameters.
--
-- Message.antt models pkg/types/message.go: `PortaskMessage` with its setters, sizes and expiry, and
-- the batches. An int64 is its 64 bits, so that `WithTTL` wraps around as in the code. Header values are numbers, texts or bytes as `estimateValueSize` tells them apart; ids
-- are arguments.
--
-- Queue.antt models pkg/queue/lockfree.go: `LockFreeQueue` is a record, and `Enqueue`, `Dequeue` and
-- `NewLockFreeQueue` are functions that return the new queue. The retry loops recur on the retries
-- left, 1000 at the start as in the code, so they need no other fuel. Positions and counters are
-- uint64 with their wrap-around. Calls run one after another; the interleaving of concurrent callers
-- is not modelled. Queue/Spec.antt is the abstract bounded list.
--
-- Bus.antt models `MessageBus` of pkg/queue/lockfree.go, its three priority queues and its map of
-- topic queues, and Bus/Worker.antt the batches in which a worker takes messages off them:
-- `megaProcessAllAvailableMessages` with its 100 rounds. The processor is a parameter that gives from
-- its state and a message whether it fails and its new state. Left out: goroutines, what a wake-up of
-- a worker does, rates and times.
--
-- Wire/Frame.antt and Wire/Handler.antt model pkg/network/protocol.go: the 16-byte header, reading
-- and checking a message, the handlers of the binary protocol and the loop of `HandleConnection`.
-- A session holds the bytes still to be read, the bytes written, the store and the counters. The
-- checksum, gzip, the codecs, JSON and the store are the fields of the parameter `Services`. The
-- loop recurs on the number of rounds to run, which a theorem about it leaves free. Left out:
-- deadlines, process times, the JSON mode of `ProcessRawData` and the callbacks on connections.
--
-- Wal.antt models pkg/storage/wal.go: a segment is its file's bytes with the counted size; `Write`,
-- `WriteBatch`, `Sync`, rotation and `ReadEntry` are functions by the source's names. What the
-- operating system does, how many bytes of a write are taken, whether a file opens and what it holds
-- then, is an argument of each call: a file is opened to append to and keeps what it holds. `crc32Checksum` is computed. Left out: `Close`, the ticker of `syncLoop` and
-- the directory scan of `loadSegments`.
--
-- Txn/Coordinator.antt, Txn/Manager.antt and Txn/Producer.antt model pkg/kafka/transactions.go: the
-- coordinator's map of transactions, the manager's states and the producer's batches and sequence
-- numbers. Times are arguments of the calls, int16 and int32 are kept as their bits, and a request's
-- topics come in the order in which Go's loop over the map takes them. Txn/Spec.antt is the abstract
-- machine of three phases.
--
-- Offsets.antt models pkg/kafka/offset_manager.go: the nested maps of groups, topics and partitions
-- are association lists, and a commit or deletion gives the new manager.
--
-- Groups/Coordinator.antt models `GroupCoordinator` of pkg/kafka/group_coordinator.go: joining,
-- syncing, heartbeats, leaving and a tick of `checkHeartbeats`, on the map of groups; the generated
-- member id and the time are arguments, and Go's loops over a map go in the order of the association
-- list. Groups/Assign.antt models the policies of that file and the assignors of
-- pkg/kafka/consumer_groups.go; a panic is `none`. Groups/Classic.antt models the
-- `ConsumerGroupCoordinator` of that file. Left out: `DescribeGroups` and `ListGroups`.
--
-- Stores.antt models the messages of `InMemoryStorage` (pkg/storage/in_memory.go) and the offsets of
-- `InMemoryStore` (cmd/server/inmemory_store.go). What `%d` prints is the parameter `print`.
--
-- Rate.antt models pkg/auth/ratelimiter.go: `Allow` gives the new limiter at a time that is an
-- argument, in nanoseconds. The goroutine of `cleanup` is one round of its loop; its ticker is not
-- modelled.
--
-- Ids.antt models pkg/types/ulid.go. The encoding and decoding of base32 are parameters, the entropy
-- is an argument; `itoa` recurs on the 20 places of its buffer, which are enough below 2^64.
--
-- Writer.antt models `BatchWriter` of pkg/processor/batch_writer.go over any storage, and
-- Processor.antt what a worker of pkg/processor/processor.go makes of one message and of a batch, with
-- the compressors of pkg/processor/metrics.go and the buffers of pkg/memory/pool.go. Calls run one
-- after another; whether the processor answers in time, and the clock, are arguments. Left out: queues,
-- goroutines, metrics, and the asynchronous and sharded writers.
--
-- Kafka/Log.antt models `InMemoryMessageStore` of pkg/kafka/protocol.go, an int64 or int32 as its bits,
-- and Kafka/Bridge.antt the way of a produce request to it: pkg/kafka/translator.go and
-- pkg/kafka/processor_bridge.go, with the processor and the batch writer of the modules above.
-- Kafka/History.antt holds the history of calls against which the log is measured.
-- Kafka/Requests.antt models the requests and responses of that protocol on the wire and the loop of a
-- connection, over any handlers, and Kafka/Produce.antt three handlers of pkg/kafka/handlers.go, on the
-- body of a request; the loop recurs on a number of rounds that its theorem says is enough.
--
-- Amqp.antt models the queues, channels and deliveries of pkg/amqp/server.go; a call appends the frames
-- that it sends. Left out: the handshake and the parsing of frames.
--
-- Not modelled: the HTTP front end, the other Kafka handlers, clusters, configuration and metrics, which
-- are planned or glue, and the stores over external databases, which only call them.
pub mod Prelude
pub mod Message
pub mod Queue
pub mod Bus
pub mod Wire
pub mod Wal
pub mod Txn
pub mod Groups
pub mod Offsets
pub mod Rate
pub mod Stores
pub mod Ids
pub mod Writer
pub mod Processor
pub mod Kafka
pub mod Amqp
