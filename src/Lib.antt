-- ===== src/Lib.antt =====
-- The verification library of rackkey, a key value store that spreads the blocks of its values over
-- storage nodes. It models the code of a storage node, from the bitmap of its disk to the handlers of
-- its requests, the code of the master, from the hash ring to the handlers of its requests, and what
-- the two share: blocks, payloads and helpers.
--
-- The parts, and the file of each:
--   Common         Boolean tests, lists, bits, results and actions that may throw. No code of the
--                  program.
--   Utils          src/shared/utils.cpp: ceilDiv, fixedSize, removeNullChars, parsePath, flatten and
--                  centerText; formatNumBytes (NumBytes).
--   FreeSpace      src/storage/free_space.cpp: the bitmap of used disk blocks.
--   ByteBuffer     The bytes of a uint32_t in memory, as the serializers copy them: little-endian.
--   OrderedMap     std::map, as far as the program uses it, over an interface for the order of keys.
--   HashRing       src/master/hash_ring.cpp: virtual nodes by hash.
--   Block          src/shared/block.cpp: the blocks that master and storage nodes exchange.
--   Payloads       src/shared/payloads.cpp: BlockNumList, SizeInfo and SyncInfo.
--   StoreFile      The store file as std::fstream shows it.
--   Bat            src/storage/disk_storage.cpp: Header, BATEntry and BAT with their bytes.
--   DiskStorage    src/storage/disk_storage.cpp: the object's state with readBlocks and getBlockNums
--                  (Reading), writeBlocks and deleteBlocks (Updating), and the constructor's work
--                  (Startup).
--   Http           Methods, status codes and replies, as far as both servers use them.
--   StorageServer  src/storage/storage_server.cpp: the handlers and the router.
--   StorageNode    src/master/storage_node.cpp: a storage node as the master sees it.
--   MasterServer   src/master/master_server.cpp: the state and what its handlers share, with the
--                  handlers of /store (Getting, Putting, Deleting), of /keys and /stats (Display),
--                  the router (Routing), the sync with the nodes and a round of health checks
--                  (Syncing), the threads of the sync as steps (Syncing.Interleaving), and
--                  the texts of showKbn and calculateAndShowBlockDistribution (Reports).
-- Function names are those of the source in snake case. The Laws and the other files below a part
-- hold what is proved of it, its Examples file the theorems at concrete inputs.
--
-- How a storage node works: the router cuts the request's path and calls a handler; the handler
-- turns the payload into blocks or block numbers, calls the disk storage, and replies. To write a
-- key, the disk storage frees the key's old section, searches the bitmap for a new one, writes the
-- section's bytes, allocates the blocks, changes or adds the key's row, and writes the table.
-- Consistent says which states are well formed, and gives the abstract view of a state: a map from
-- key hashes to byte strings. Placement is one section laid down, told apart from how the code does
-- it; Rows, Marks and Steps are the code's steps, and Writing joins them. Selection says which
-- blocks a reader is asked for. In StorageServer, Requests is on a put and a get (with Asked for
-- the numbers of its payload), Failure on a put without room, Removal on a delete. Restart is on
-- the bytes of header and table, Reopening on the start of a node from a file that has them.
--
-- How the master works: a put splits the payload into blocks, walks the ring clockwise from each
-- block's hash to healthy nodes for its replicas, sends every node its blocks, and, when all have
-- answered, stores which node has which block under the key. A get asks the first healthy node of
-- each block, and joins the answers by block number; a delete asks every node of the key. At its
-- start the master fills the map from what the nodes send. Placement says where the search for
-- nodes leads without the loop, with its proofs in Walk, Search and Starved. For a put, Splitting
-- is on the payload's blocks, Assigning and Placed on the nodes' lists, Sending on the map,
-- Requests on the state, and Storing on the handler; for a get, Choice and Available are on the
-- nodes asked, Receipt on the blocks received, and Reading and Unavailable on the handler.
-- RoundTrip joins put and get, with Belonging, Numbers and Keeping; Delivered is on what a put
-- sends to each node. Startup is on initialiseStorageNodes, Race and Reported on the sync.
--
-- Conventions of the model:
--   A uint32_t is a natural number, with the wrap-around written out. A byte is a number below 256.
--   A std::runtime_error is `throw`, with a constructor of Error in place of the text. An access out
--   of range, a failed assert and undefined behaviour are `fault`.
--   A method that changes the object and may throw is an action (Common.Exec): what was changed
--   before a throw stays changed.
--   SHA-256, from OpenSSL, is the parameter sha256_32, of which nothing is supposed.
--   What the operating system answers to a use of the store file is an argument Io. A throw leaves
--   the stream open, and then every later transfer fails: the field stream_stuck.
--   A handler of the master returns the list of the replies that it sends. A handler of a storage
--   node returns the reply that was sent and whether the handler then ended with an exception: a
--   second call of request.reply throws in cpprest, and on some paths the source makes one.
--   What a storage node answers to the master is the parameter Network, one for each handler: a
--   reply for a node and a request's body, or none if the node cannot be reached. The state has a
--   trace of the puts that went out to nodes, which the source has not: puts_sent. Keeping says of
--   a node that it answers from the latest of them. The master's tasks run one after another, in an
--   order that is a parameter, since the order of std::unordered_map is not specified; and no other
--   request or health check comes between. Only the sync is also modelled as threads, with steps of
--   one lookup, one filling of a map, or one store of a pointer.
--   A loop that does not end leaves its handler a `fault`: there is no reply.
--
-- Fuel: the loops that read a buffer take the buffer's length as fuel, and a round takes four bytes
-- at least; the loop over whole bytes of the bitmap takes one more than the number of bytes. The
-- round trips and the laws of the bitmap show that it is enough. A loop that runs out of fuel would
-- be a `fault`. The split of a payload takes the payload's length as fuel, which is enough for a
-- positive block size. The search for a block's nodes has any fuel: the number of the ring's entries
-- is enough where there are healthy nodes for all replicas, and no fuel is where there are not.
--
-- Not modelled: the configuration files (JSON of the library cpprest), toString and the messages
-- that the handlers print, the listeners and the process starts, the tests. Requests that the master
-- handles at the same time, and the health thread beside them, are not interleaved. A client of a
-- node is the node's address. The names of the storage node's directories are not kept: the store
-- file is a value.
pub mod Common
pub mod Utils
pub mod FreeSpace
pub mod ByteBuffer
pub mod OrderedMap
pub mod HashRing
pub mod Block
pub mod Payloads
pub mod StoreFile
pub mod Bat
pub mod DiskStorage
pub mod Http
pub mod StorageServer
pub mod StorageNode
pub mod MasterServer
