-- ===== src/Lib.antt =====
-- ontology-rosetta: the Rosetta API over an Ontology node, with a local index of the chain.
--
-- The program polls a node for blocks, turns the transfer events of each block into balance
-- changes, and writes them with the block into a key-value store (services/store.go, IndexBlocks
-- and setBlock). The endpoints answer from that store. A balance is found by a reverse seek, which
-- works because lexinum/lexinum.go encodes heights so that the byte order is the order of numbers.
--
-- The files and what they model:
--   Common           shared names and lemmas: tests, lists, integers, bytes, results, big numbers
--   Lexinum          lexinum/lexinum.go; the proofs on its order and its round trip are below it
--   Services/Ontology   the address and hash functions of the ledger's library, as parameters
--   Services/Address    the native addresses, addr2slice, slice2addr, decompressAddr (store.go)
--   Services/Keys       the keys of the data store (store.go)
--   Services/Errors     the error values (errors.go)
--   Services/Types      the records of services.go and the messages of model/model.proto
--   Services/Badger     the database and the protobuf code, as parameters, and what a healthy
--                       database does
--   Services/Store      the store and setBlock (store.go)
--   Services/Lookup     getBlockID, getBlockInfo and getBlockInfoRaw (store.go)
--   Services/Indexer    balanceCal and checkgasVerified; below it Decode has the event decoders,
--                       Build the state that IndexBlocks makes of a block, Poll a round of it, and
--                       Reconcile the way from a node's blocks to the balance endpoint (store.go)
--   Services/Account    getBalance (store.go) and account_service.go
--   Services/Operations appendOperations and the block endpoints (block_service.go), and below it
--                       Validate, validateOps (construction_service.go)
--   Services/Construction  constructTransfer, and below it Fields (the metadata of the requests),
--                       Payloads (Preprocess and Payloads), Metadata (getGasPrice and
--                       ConstructionMetadata), Wire (encoded transactions and signatures, as
--                       parameters), Signed (Combine, Derive, Hash and Submit) and Parse
--                       (ConstructionParse), all of construction_service.go
--   Services/Mempool    mempool_service.go
--   Services/Network    network_service.go
--   Services/Opening    NewStore (store.go)
--   Services/Validate   Validate (store.go): Keys has what it reads of a key, Round and Collect its loop
--                       over the keys, Compare the comparison with the node, and Agrees when it succeeds
--   Services/Examples   a small database, library, codec, chain and ledger, at which the theorems
--                       apply
--   Chain/Payload       chain/payload.go: the transfers that an invoke code makes
--   Chain/Balance       chain/chain.go: the balances that the node answers with
--   Process             process/process.go: the exit and signal handlers
--   Server              main.go; below it Config (initServerConfig) and Shutdown (the exit handlers of
--                       the server)
--   Model               model/transform.go: the texts of the messages
--
-- Services/Errors has the registration of the errors below it. A transaction goes through the
-- construction endpoints as the text that Payloads answers with, Combine signs, Parse reads and Submit
-- hands to the node; its code is built by the library, and read by Chain/Payload.
--
-- A uint32 and a byte wrap as `% 2 ^ 32` and `% 256`. A big.Int is an integer; its bytes are big
-- endian without leading zeros, and drop the sign. The loops of EncodeHeight run on a fuel of 5,
-- which every uint32 is under; that they end within it is part of the round trip. The loop of
-- getGasPrice, the loop of a round of IndexBlocks and the loop of Validate over the keys have their
-- fuel as an argument; a result on them says how much is enough, or that no fuel is. The mutex of the
-- store makes each access to the two heights one step.
--
-- The process is a step relation: the goroutines in Exit, that of the signals and the others take turns
-- in any order, and what they do under the mutex is one step. What a handler does to the rest of the
-- program is a parameter, a function that is none where the call cannot go on; the step of the call is
-- then not there. Server/Shutdown fills it: the handler that closes the store takes the report of
-- IndexBlocks out of a channel, and waits while it is empty.
--
-- setBlock stores a balance without its sign. What is stored is the sum of the changes as long as this
-- does not fall below zero; the results that speak of the sum have this as a condition.
--
-- Not modelled: the texts of error details and of log lines, which no decision reads; the wait between
-- the rounds of IndexBlocks and its context, but for the report at its end; the log package, an adapted
-- copy of the ledger's; the router, the commands and the start-up in main.go, which call libraries; and
-- the generated code of model/model.pb.go.
pub mod Chain
pub mod Common
pub mod Lexinum
pub mod Model
pub mod Process
pub mod Server
pub mod Services
