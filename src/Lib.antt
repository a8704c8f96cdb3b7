-- ===== src/Lib.antt =====
-- Three projects of the repository: the pages, page tables, processes and library of the kernel in
-- weensyos/, the debugging allocator of dmalloc/, and the distributed key-value store of kvstore/
-- with its parts: string helpers, shards and shard configurations (kvstore/common), the two stores
-- behind the interface KvStore (kvstore/kvstore), the requests, responses and their messages
-- (kvstore/net), the server with its work queue (kvstore/server), the clients (kvstore/client) and
-- the shardmaster (kvstore/shardmaster).
--
-- The files. Prelude and its children hold numbers, Booleans, lists, strings and machine words; a
-- std::string is a list of character codes, a size_t is a native number with its wrap-around at
-- 2^64 written out. Run has the state monad of the imperative code: a run is done with a result
-- and a state, is blocked on a lock for ever, or is undefined (a failed assertion, an index out of
-- range, an unlock of a free mutex). StdMap is std::map with string keys, as a sorted association
-- list.
--
-- Common.Utils models kvstore/common/utils.cpp, with a split that is stated on whole strings.
-- Common.Shard models kvstore/common/shard.hpp and the conversions of shard.cpp,
-- Common.Shard.Split its functions that divide the key space, Common.Shard.Overlap its
-- get_overlap, and Common.Config models kvstore/common/config.cpp. A failed assertion in these
-- files is none. A bucket of granularity g is a number below 36^g, and a shard is a range of
-- buckets; Common.Shard.Split.Tiles says when a list of shards covers a range without a gap or an
-- overlap.
--
-- Net.Commands has the data of kvstore/net. Store is the interface KvStore as a record of
-- operations; Store.Simple models kvstore/kvstore/simple_kvstore.cpp and Store.Concurrent models
-- kvstore/kvstore/concurrent_kvstore.cpp with its 60 buckets and their shared mutexes. std::hash
-- is a parameter. Every lock is part of the state, so that a method that does not release one is
-- seen. Store.Spec describes a store as a partial function from keys to values, Store.Contract
-- says what a server may rely on, and Store.Implementations has both stores as records of the
-- interface. Server models KvServer::process_request of kvstore/server/server.cpp over any store;
-- Server.Answers and Server.Runs relate its responses to the partial function. Tests has runs at
-- concrete inputs, with a serializer of its own.
--
-- Net.Messages models kvstore/net/network_messages.cpp over a codec for each struct, Net.Wire the
-- sendall and recvall of kvstore/net/network_helpers.cpp with send_message and recv_message over
-- the system calls send and recv (one call for each byte is enough fuel), Net.Connection the
-- requests and responses of kvstore/net/network_conn.cpp, Server.Worker the body of
-- KvServer::work_loop, Server.Queue the work queue of kvstore/server/synchronized_queue.cpp as a
-- step relation over its threads, and Client models kvstore/client/simple_client.cpp, with
-- Client.Sharded for shardkv_client.cpp. Shardmaster models the requests of
-- kvstore/shardmaster/static_shardmaster.cpp, whose operations are stubs. Client.Loopback puts a
-- client and a server on a network in which messages arrive whole and in order, and
-- Client.EndToEnd relates what the client gets to the partial function.
--
-- Dmalloc models dmalloc/dmalloc.hh and dmalloc/dmalloc.cc over base_malloc and base_free as an
-- interface; Dmalloc.Pointers is the map of the active pointers. Memory is a function from
-- addresses to words of eight bytes, and the header of a block is four of them. Dmalloc.Invariant
-- says what a heap looks like, Dmalloc.Allocation and Dmalloc.Release are about a new and a freed
-- block, Dmalloc.Writes about stores into a block, Dmalloc.Exact about the tests for overflow,
-- Dmalloc.Runs about calls of dfree, and Dmalloc.Programs has the programs over the allocator and
-- the contract of the base allocator; Dmalloc.Safety is about every state that they reach.
-- Dmalloc.Base models dmalloc/basealloc.cc, an implementation of that interface, over malloc and
-- free, and Dmalloc.Base.Contract relates it to the contract.
--
-- Weensyos has the constants of weensyos/kernel.hh and the arithmetic of x86-64.h; a bitwise
-- operation is division and remainder, or a recursion on bits. Weensyos.Pages models kalloc and
-- kfree of weensyos/kernel.cc with the test for allocatable addresses of k-hardware.cc; the end of
-- the kernel is a parameter. Weensyos.Vmiter models the class vmiter of k-vmiter.hh and
-- k-vmiter.cc on the words of the memory, and Weensyos.Map its try_map and syscall_page_alloc of
-- kernel.cc. Weensyos.Map.Walks has the entries that a walk visits. The loop of kalloc runs on a
-- fuel of the 512 pages of the memory, and that of try_map on four, one more than its highest
-- level; Weensyos.Schedule models schedule of kernel.cc with the number of its spins;
-- Weensyos.Vmiter.Range models low_perm and the loop of perm of k-vmiter.hh, with a fuel of one
-- round for each page of the range; Weensyos.Processes models ptiter, syscall_exit_assist and
-- syscall_fork. The loops of fork and exit over pages take their 768 and 512 rounds; those of
-- ptiter take a fuel that is an argument, of which the runs in Tests use 4000. A failed assertion
-- or a panic is none. kfree reads pages[] for any pointer, where the theorems are for pointers
-- below the end of the memory.
--
-- The library of weensyos is lib.cc with parts of lib.hh. Weensyos.Bytes models its functions on
-- memory and strings, byte by byte; Bytes.Copy is about copies and Bytes.Order about comparisons,
-- and their loops up to a NUL run on a fuel above the length of the string. Weensyos.Numbers
-- models strtoul, strtol and fill_numbuf on strings as lists of bytes; the fuel of fill_numbuf is
-- 64, one round for each bit. Weensyos.Printer models printer::vprintf over any function putc,
-- with Printer.Convert for one directive, Printer.Buffer for string_printer and vsnprintf, and
-- Weensyos.Console for console_printer; an argument of another kind than its directive, a width
-- that is no int and the negation of the least long are none. vprintf runs on a fuel of one more
-- than the length of the format.
--
-- Methods of a store run one after the other: a blocked run stands for a thread that waits for
-- ever if no other thread holds the lock. Loops are structural recursion over the list or the
-- count that the code loops over, and no fuel is used but that named above.
--
-- Not modelled: the opening of sockets and the threads of the server, the REPL, the connections of
-- the shardmaster, the serialization library kvstore/common/zpp_bits.hpp (third-party),
-- sort_shards, print_statistics, the start of processes, the dispatch of system calls and the
-- hardware of weensyos, and the C projects of the repository (snake, fileio).
pub mod Prelude
pub mod Common
pub mod Run
pub mod StdMap
pub mod Net
pub mod Store
pub mod Server
pub mod Shardmaster
pub mod Client
pub mod Dmalloc
pub mod Weensyos
pub mod Tests
