-- ===== src/Lib.antt =====
-- zkc-state: a store of Merkle trees of 32 levels, one per contract, behind a gRPC service.
--
-- The program keeps, in a MongoDB collection per contract, a record for each node that was ever
-- written. A record is found by its index and its hash, so older trees remain readable, and one
-- document under a fixed id is the current root. Nodes that were never written have default hashes,
-- which are computed. The service reads and writes leaves with proofs, nodes, the root, and the data
-- behind a leaf's hash.
--
-- Prelude, Outcome and Action hold what the parts share: tests, lists and `u64` arithmetic; results
-- that are a value, an error or a panic; and calls on a state with such a result.
--
-- Merkle is src/merkle.rs. Merkle/Index has the functions on node indices and Merkle/Tree the
-- provided methods of the trait `MerkleTree`; Merkle/Node has both traits as records of their
-- required methods. Merkle/Walk has the loop from the top and the loop from the leaf, which
-- src/service.rs repeats. Merkle/Spec is the description to compare with: a tree of hashes, its
-- root, the turns to a node, and the hashes beside a way. Merkle/Bounds and Merkle/Path prove what
-- the indices are, Merkle/Descend and Merkle/Proof what reading does, Merkle/Climb, Merkle/Snoc,
-- Merkle/Valid and Merkle/Update what writing does, Merkle/Rebuild and Merkle/Sound what
-- a proof determines, Merkle/Map a tree as a function from its leaves, and Merkle/Prune the part of
-- a tree that a walk reads. Merkle/Array is `MerkleAsArray`, the implementation in the tests of that
-- file, an array of 127 numbers with the sum for a hash; Merkle/Array/Reads, Merkle/Array/Beside,
-- Merkle/Array/Climb and Merkle/Array/Sums follow a write to a leaf of it. It keeps no history and
-- its nodes show no children, so the laws of the other modules are not its own.
--
-- Poseidon is src/poseidon.rs, with Poseidon/Input on the inputs that `hash` accepts, and Errors is
-- src/errors.rs. Kvpair is src/kvpair.rs: Kvpair/Hash, Kvpair/Record and Kvpair/Node have its types
-- and functions, Kvpair/Combine and Kvpair/Defaults the laws of the hash of two children and of the
-- default hashes. Kvpair/Bson has the conversions to and from BSON, and Kvpair/Stored their laws.
--
-- Service is src/service.rs. Service/Collection has the methods of `MongoCollection`,
-- Service/Session its opening and its commit, Service/Request the messages of proto/kvpair.proto and
-- the choice of the contract, and Service/Handlers and Service/Queries the handlers.
-- Service/Invariant, Service/Fetch, Service/Insert, Service/Parent, Service/Leaf, Service/Empty,
-- Service/RoundTrip, Service/Rollback and Service/Replies relate them to the tree of hashes.
-- Service/Writes compares a sequence of writes with a function from leaves to hashes, Service/Roots
-- the roots of two such sequences,
-- Service/History has the states that calls lead to and the trees on the way, and Service/Isolation
-- has two collections and Service/Interleaving two writes whose steps alternate.
-- Service/DataRecords, Service/LeafData and Service/DataLeaf are about the data behind a leaf,
-- Service/Conversions about the messages of nodes, Service/Refusal is about a request that is
-- refused, Service/Contract about the choice of the contract, and Service/Setup has the test
-- configuration. The handlers pass the driver's client on as
-- the names of the two collections.
--
-- Service/Faults is the service over a server whose calls can fail: `faulty` changes the calls of a
-- server by a schedule that says of each call, by its number, whether it works, is lost on the way,
-- or takes effect and loses its reply. Runs, Reads and Keeps there have a rule for each way to build
-- a call, Fetches, Writes, Climbs, OnWay, Tables, Upkeep and Lookups what the methods of a
-- collection do, Atomic, LeafSteps and Handler follow one request that sets a leaf, and Prefix many
-- writes. Requests, Writers and Records are about each handler with any request, Serving is the
-- service that answers one request after the other, with a panic ending one request only, and
-- Authentic is about what such a service replies.
--
-- Client is `MongoMerkle` of src/kvpair.rs. Client/Calls has its calls, Client/Tree its
-- implementation of `MerkleTree`, Client/Delivery a connection whose calls run the handlers, and
-- Client/Inner, Client/Parent, Client/Leaf and Client/SetLeaf what the client reads and writes over
-- it. Client/Walk is the walk of `MerkleTree` over the client, the handlers and the database together,
-- Client/Climb its climb, and Client/Update its `set_leaf_with_proof`.
--
-- What is not in the repository is a parameter. Crypto is the field and the Poseidon sponge;
-- `CryptoLaws` says that a field element has one representation and that 32 zeros are one, and
-- `CollisionFree` that the Merkle hash has no collisions, and `Sized` that an element is written as
-- 32 bytes. Service/Mongo is the driver and the server; `MongoLaws` says what a server that answers
-- does when calls follow one another, of several collections. `BsonApi` is the crate `bson` and
-- `KvPairClient` the generated gRPC client. Tests/Instances and Tests/Server give concrete
-- parameters with these laws.
--
-- A `u64` wraps as in a release build. The sum of `MerkleAsArray`, which only the tests use, wraps
-- or panics by whether the build checks overflows. `ilog2` gives 63 rounds to its loop, the most
-- that a `u64` needs; the loop of `get_path` has as many rounds as the depth, and the climbs one
-- for each level. The loop of `commit` is given its rounds, since it need not end. A record's
-- `data` field is named `bytes`, the field `data` of a message as well, and messages of errors
-- stand without the values that they show. Times, logs and write concerns are left out, and an
-- operation of the driver with and without a session is one operation.
--
-- A deserializer is the outcome of reading a BSON value, and a document is a list of names and
-- values in the order of the fields.
--
-- Not modelled: src/main.rs, the connection to the database in src/service.rs and `get_client` of
-- src/kvpair.rs, which are calls of other crates, and the programs in services/ and server/.
pub mod Prelude
pub mod Outcome
pub mod Action
pub mod Hash
pub mod Merkle
pub mod Crypto
pub mod Errors
pub mod Poseidon
pub mod Kvpair
pub mod Service
pub mod Client
pub mod Tests
