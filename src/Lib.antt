-- ===== src/Lib.antt =====
-- A model of ci-cache, a build cache in Go, with the theorems that make its parts correct.
--
-- Parts. Everything that stores objects is a tier (engine/tier): `Get`, `Put`, `Stat` and
-- `Delete` by key. The disk tier (engine/disk) keeps each object in a file of a volume, and an
-- index in memory: a map from keys to entries that are also the nodes of a doubly linked list in
-- order of use, with totals for the volume and for each front-end. The collector (engine/gc)
-- keeps the volume inside its budget by evicting from the old end of that list, and decides
-- whether an object is admitted. The agent (agent/agent.go) answers the Go toolchain with paths of
-- files in a directory of objects, and wraps the tier of the server in a circuit breaker
-- (agent/breaker), so that a broken server costs a build hits and never fails it. A chain
-- (engine/chain) composes tiers into one: reads go from front to back, and what is found behind
-- is written into the tiers in front. The tier at the back of the server is an S3 bucket
-- (engine/bucket/bucket.go), and a queue (engine/bucket/queue.go) writes to it behind the build.
-- The front-end of `go build` (frontend/gobuild) keeps two objects for an action in a tier: a
-- record that names the output, and the output. The module proxy (frontend/gomod) keeps the files
-- of modules in a tier, some for ever and some until they are old. The server offers its chain over
-- the wire (server/cacheservice.go), and the remote tier of the agent (engine/remote) reads and
-- writes it there. Operators wipe the disk and the bucket by the administrative API (admin).
--
-- Files.
--   Base: what all parts share: lists, texts and association lists, and int64 arithmetic by the
--     64-bit patterns (`add64`, `sub64`, `mul64`, `quot64`, `slt`, `sle`), wrap-around included.
--   Tier: engine/tier/tier.go. A method is a function on a state of any type, and an error is a
--     value, with `errors_is` for `errors.Is`.
--   Tier/Laws: what a tier promises to a client of the objects it can record, with a tier in memory
--     that keeps it (Tier/Sample).
--   Disk/Links: `linkFront` and `unlink` of engine/disk/index.go, on pointers that are optional
--     addresses. `IsChain` says which list of entries the pointers hold, in both directions.
--   Disk/Index: the operations of engine/disk/index.go on the map, the list and the totals
--     together. `Holds` is the abstract view: a list of entries in order of use.
--   Disk/Volume: `evict` and the totals of engine/disk/disk.go. The path of a key and the
--     refusals of the file system to remove a file are parameters (`path_for`, `stuck`).
--   Disk/Header: engine/disk/header.go, the 1024 bytes before an object's body. encoding/json is a
--     parameter.
--   Disk/Store: `Get`, `Put`, `Stat`, `Delete` and `DeletePrefix` of engine/disk/disk.go, over the
--     files of a volume. The digest in a path is a parameter; what the file system refuses is an
--     argument; the collector is the record `Host`.
--   Disk/Listing: `List` of engine/disk/disk.go with `snapshot` of engine/disk/index.go.
--   Disk/Negatives: the keys that an upstream is known not to have, with their expiry, of
--     engine/disk/index.go and disk.go.
--   Gc: engine/gc/gc.go, with `config.GC` of config/config.go. The measurement of the volume is
--     an argument. Gc/Wired makes the collector the host of Disk/Store.
--   Agent: the answers to `get` and `put` of agent/agent.go, with the directory of objects of
--     agent/objects.go (Agent/Objects). What the file system refuses is an argument.
--   Breaker: agent/breaker/breaker.go over any tier. A request is two steps, before and after the
--     call of the wrapped tier, so that requests interleave.
--   Chain: engine/chain/chain.go over any list of tiers, with `Put` in Chain/Put. Temporary files
--     are a map, and what the system refuses of them is the parameter `sys`.
--   Gobuild: frontend/gobuild/gobuild.go over any tier.
--   Gomod: frontend/gomod/cacher.go over any tier. Gomod/Names has the names of its entries; the
--     digest of a name in the legacy layout is a parameter.
--   Upload: engine/bucket/queue.go, as a step relation: a step is one atomic operation of an
--     offer, a worker, `Start` or `Stop`. Upload/Staff has the workers: idle at their `select`, at
--     an upload, or gone.
--   Bucket: engine/bucket/bucket.go, with its requests, the metadata of an object (Metadata) and
--     the deletion of a prefix (Wipe). The S3 client, the SHA-256, the format of a time and the
--     temporary file of a large body are parameters.
--   Wire: the messages of proto/cache/v1/cache.proto, and what the two sides take from Connect and
--     from Go's errors package. The bytes of a timestamp and the kinds of an error are parameters.
--   CacheService: server/cacheservice.go, which serves a tier over the wire. A stream is the list
--     of its messages and the status that ends it; how reads cut a body is a parameter.
--   Readiness: the answers of server/server.go to probes of its readiness, as a step relation: a
--     step is what a probe does under the lock, or the passing of time.
--   Remote: engine/remote/remote.go, the tier on the other side of the wire, of what a call
--     brings back. `served` composes it with the server (Remote/Served).
--   Admin: the operations of admin/rpc.go over the interfaces of admin/deps.go, with the prefixes
--     of the bucket that may be wiped (Admin/Prefix).
--   Telemetry: telemetry/recorder.go, and the tier of telemetry/tier.go that counts its calls. How
--     long a call takes, and how much of a body a tier reads, are parameters.
--   The files called Tests run the definitions and apply theorems at concrete inputs.
--
-- Fuel. `takeLRU` runs for as many rounds as the index counts entries: each round removes or
-- passes over one entry of the list. The walk along the list runs for the number of its entries.
-- `DeletePrefix` of the bucket runs for as many rounds as the store lists pages.
--
-- Not modelled: the transport, its listeners and its timers, how the S3 client is built, command
-- lines, the export of metrics, generated code and charts. The loop of the collector runs its
-- steps at times that the clock decides. What other goroutines do to the disk between two steps of
-- one pass is not modelled, nor are two callers of a chain that wait for the same object, nor the
-- uploads of the agent behind a `put`.
pub mod Agent
pub mod Base
pub mod Tier
pub mod Telemetry
pub mod Upload
pub mod Breaker
pub mod Bucket
pub mod Chain
pub mod Disk
pub mod Gc
pub mod Gobuild
pub mod Gomod
pub mod Wire
pub mod CacheService
pub mod Readiness
pub mod Remote
pub mod Admin
