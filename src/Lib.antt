-- ===== src/Lib.antt =====
-- OliveHC is a cache of HTTP responses. The master thread configures it, accepts connections, reads
-- the headers of requests (http.c, request.c) and begins to serve them (server.c); worker threads
-- (worker.c, event.c) move the bodies between the sockets and the disks. An item of the cache is an
-- entry of a server's hash table (utils/hash.c), and its bytes lie on a device (device.c), at an
-- offset that the device module gives out. The free blocks of all devices hang on one bucketed list
-- (utils/ipbucket.h), which finds a block that is large enough at once; the blocks and items of a
-- device also stand on its order list, by offset. Devices are named by small indexes
-- (utils/idx_pointer.h).
--
-- The files model, bottom up:
-- - Prelude and below: lists with positions, Boolean tests, powers of 2, masks, counts.
-- - SizeClass: `bit_highest` of utils/string.h, `ipbucket_block_size` and `ipbucket_index` of
--   utils/ipbucket.h. The search of the highest bit halves the number at most 64 times, as many as
--   a 64-bit number has bits. Levels, Rounding and Fit are about its powers of 2, about the
--   rounding, and about the bucket of a request against the bucket of a block.
-- - Ipbucket: `ipbucket_init`, `_add`, `_del`, `_update`, `_get` and `_biggest` of
--   utils/ipbucket.h. A list of the code is a sequence of handles per bucket, from the head on.
-- - IdxPointer: utils/idx_pointer.h. The array is a list; the loop of `idx_pointer_add`, which has
--   no bound, is followed to the end of the array.
-- - Hash: `hash_init`, `hash_add`, `hash_get`, `hash_del` and `hash_expansion` of utils/hash.c. A
--   node is a handle with its id; MD5 is a parameter, of which nothing is assumed. `mem` says
--   whether `malloc` finds memory.
-- - Device: `device_get_free_block` of device.c; Device/Recycle: `device_return_free_block`. A
--   segment of an order list is a free block or an item. A pointer to a block is its handle, and
--   the device's index and the place on the list are found by a search for it. The rounds over
--   blocks of deleted devices are `LOOP_LIMIT` as in the code. Of `device_kick` the model has what
--   becomes of the device itself. Layout, Weight and Blocks say when a store is well formed; Taken
--   and Get follow the getting of a block, Merge, Rear, Branches and Return its return.
-- - Timer: the groups of utils/timer.c, `timer_add`, `timer_del`, `timer_update`, `timer_expire`
--   and `timer_closest`. The time is an argument. A node on a group's list knows its group by the
--   timeout; an update of another, whose group may be freed, is a result of its own. Order,
--   Expire, Change and Update are about the operations.
--
-- - Http: http.c. Http/Uri is `http_decode_uri`; Http/Number the decimal numbers; Http/Range
--   `http_parse_get_range`; Http/Headers the handlers of headers; Http/Parse `http_request_parse`;
--   Http/Response the headers and pages of responses. A pointer into the buffer is the text from
--   it on. The loop over the headers gets as many rounds as the text has bytes and one more, and
--   each takes at least one byte. `strtoul` and `sprintf` are the C library's;
--   `timer_parse_rfc1123` is an argument. The string of a range that is logged is left out.
-- - Server: server.c, and `device_free_block_extend` of device.c, which calls it. Server has the
--   data; Server/Remove the deletion and expiry of items; Server/Request the handlers of GET and
--   DELETE and the end of a request; Server/Request/Space the handler of PUT; Server/Load the
--   loading of a dumped item. An item is named by a handle, which is not used again within a
--   request. The rest of device.c is the interface `Blocks`, with the sizes of the blocks as its
--   laws. Accounts, Delete, Link and Keep are about the counters of a server, Holds about the
--   requests that hold an item, Put, Serve and Release about the handlers, Sound and History put
--   them together, Serves is about what GET gives, and Stored about what PUT gives. The search for
--   a block has 13 rounds: each counts `try` up, and it ends at 12. The rounds of
--   `device_free_block_extend` are `LOOP_LIMIT`, as in the code.
-- - Slab: utils/slab.c. A piece is its address with the leader before it. Held says for which held
--   pieces a slab stands; Alloc and Free are about the two operations.
-- - Format: format.c. A structure on the disk is a record, whose 64-bit words the checksum reads;
--   which calls on the file succeed is an input. `device_load_post` is an argument. Checksum is
--   about the checksum, Dump about the two loops over items, Again about the whole. A dump reaches
--   the file as `fclose` flushes it.
-- - Worker: of worker.c the ring of the workers, what a configuration and its rollback do to it,
--   and the choice of a worker. How each creation of a worker ends is an input. Ring is about the
--   rollback, Turns about the choice.
-- - Request: request.c, with what it calls of event.c and worker.c. Request/State has a connection
--   with its request and its events; Transfer the calls of `sendfile`, `send` and `pwrite`; Finish
--   the end of a request and its way between the threads; Body the handlers of a PUT, Answer those
--   of a GET, Header the reading of a header and what it begins; Run the turn of a handler, the
--   acceptance of a connection and its breaking off. What the system calls give in one turn, call
--   by call, is the record `Inputs`; the end of a list is EAGAIN. System has all connections and
--   the steps of the program: a handler's turn is one step, since only the master changes the
--   servers and a request is in one thread at a time, but for one whose timer has failed, which is
--   marked, and after which a step may go wrong. Range is about the range of a GET, Alike, Writes,
--   Stored and Sends about the transfers, Ends, Loop, Turns, Gives, Begins, Reads and Turn about
--   what a turn keeps, Right and Invariant about all connections, Faults about a disk that fails.
--
-- Counters are natural numbers; where one is reduced the model stops at 0, as the counter of a
-- well-formed state never has to. The bounds of the theorems are those of the code's types: an
-- item's length is a `uint32_t`, a device is at most as large as `sendfile` supports.
--
-- Not modelled: of server.c the cycle of configuration, the status page and the sockets; the other
-- operations of device.c; of worker.c and event.c the threads and their loops; conf.c; of
-- utils/timer.c the dates; utils/list.h, a copy of the list of the Linux kernel; the sockets, epoll
-- and the main program, which are input and output; the module of nginx under nginx-jstore.
pub mod Prelude
pub mod Device
pub mod Format
pub mod Hash
pub mod Http
pub mod IdxPointer
pub mod Ipbucket
pub mod Request
pub mod Server
pub mod SizeClass
pub mod Slab
pub mod Timer
pub mod Worker
