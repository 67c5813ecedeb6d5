-- ===== src/Lib.antt =====
-- Redis 2.6.12: the data structures under the key space, the requests that clients send, transactions,
-- publish and subscribe, and the append only file, modelled from redis-2.6.12/src.
--
-- Dict models dict.c and dict.h. Dict/Defs holds the structures and the operations on one table or
-- chain, Dict/Ops the functions (dictAddRaw is dict_add_raw, and so on), and the files beside them
-- the lemmas and theorems: Chain and Table on one chain and one table, Insert for an entry at the
-- head of a chain, Valid for the invariant and for the map that a dictionary stands for, Round and
-- Rehash for dictRehash, Power and Expand for the growth of the table, Find, Add, Delete and Replace
-- for the operations. Hash holds the hash functions, Iterator the iterators and the random picks,
-- whose draws are the list of what random() answers. The callbacks of a dictType are parameters;
-- what is asked of them is the record KeyLaws. A chain is a list, NULL the empty list. A failed
-- assertion, a loop without an end and a write to a bucket whose index is no int are `none` in the
-- result. A search in a bucket past the end of a table finds an empty chain; no slot of a valid table
-- is past its end. rehashidx is a number without a bound in the model, and an int in the code.
--
-- Adlist models adlist.c over a heap of nodes at addresses: Defs has the functions, Linked the
-- relation between a heap and the list of addresses and values that it holds, Relink what a write to
-- one pointer does, and Add, Insert, Delete, Rotate and Walk the theorems on each group of functions.
--
-- Intset models intset.c and intset.h over bytes in memory (Memory): Defs has the functions, Slots
-- the elements under writes, memmove and the upgrade loop, Search the invariant and the binary
-- search, Splice one value more or less, Encoding, Tail and Upgrade the parts of intsetAdd, and
-- Change the theorems on intsetAdd, intsetRemove and intsetFind.
--
-- Util models ll2string and string2ll of util.c: Number has the functions, Parse and Print the two
-- directions of the round trip, Units has memtoll and string2l, with strcasecmp and strtoll of the C
-- library as parameters, and Amounts is on what memtoll answers.
--
-- Glob models stringmatchlen of util.c: Defs has its loops, over pointers that carry the bytes up to
-- the terminating zero, so that a read past it is a fault; Literal is on patterns with no special
-- byte. Rdb models the lengths and integers of rdb.c over the buffer of rio.c: Defs has the
-- functions, Bytes the bit operations as arithmetic, Lengths and Integers the round trips.
--
-- Sides is on a relation between clients and keys that the server keeps on both sides: Defs has the
-- functions on the lists, Count counts values in them, and Agree says when both sides agree and that
-- they do after a key is added or removed. Pubsub and Multi use it. Pubsub models pubsub.c: Defs has
-- the subscriptions and the functions, Channels and Unsubscribe keep both sides in agreement, Publish
-- says what a message sends, and Order who receives it after subscriptions. Multi models multi.c: Defs
-- has the transactions and the watched keys, Watch keeps both sides in agreement and says whom a touch
-- marks, Doomed is on a client whose watched key was touched, Events on what may come between the touch
-- and EXEC, and Exec on EXEC then. Objects has the comparison of string objects of object.c, by strcmp
-- where one is encoded as an integer and by sdscmp else. Slowlog models slowlog.c: Defs
-- has the log and the functions, Bounds the theorems. The dictionary of channels is the map that Dict
-- shows a dictionary to be.
--
-- Protocol models how networking.c reads requests: Defs has processMultibulkBuffer, Input
-- processInlineBuffer and the loop of processInputBuffer, with processCommand as a parameter. The
-- buffer is the list of its bytes, and `pos` the list from it on. Lines and Resume are on a buffer with
-- more bytes behind it, Chunks on a request that comes in parts, Progress and Rounds on the end of the
-- loop. Aof is on aof.c: Defs has catAppendOnlyGenericCommand, and Lines and Read are on how Protocol
-- reads what it writes; Load has loadAppendOnlyFile, with fgets and strtol of the C library and the run
-- of a command as a parameter, and Numbers and Replay are on loading what was written.
--
-- Sds is on sds.c: Defs has the functions that make, clear and extend a string, over all the bytes of
-- its buffer; `len` and `free` keep 32 bits, and a read of one as a size_t extends its sign. Wide has
-- the functions with sizes of any length, Narrow shows both to agree on strings that are short enough,
-- Room has the text that a buffer holds and the free space, Content the text after a write of Wide, and
-- Writes that after a write of Defs.
--
-- Zset models the skip list of t_zset.c over a heap of nodes at addresses. Defs has zslCreate and
-- zslInsert, Removal zslDelete, Lookup the two functions on ranks, and Range those on ranges of scores.
-- Scores are a type with the two comparisons of doubles, and ScoreLaws what these guarantee for numbers;
-- the level of a new node is what zslRandomLevel answers, its address what zmalloc answers. Cells says
-- what every level of a node holds by the nodes behind it, Splice what one write does to that, Search
-- where a search ends, and Valid when a heap holds a list. Link, Grow, Attach, Insert, Added, Inserted
-- and Ordered are on the parts of zslInsert and on the whole; Unlink, Lower, Join, Removed and Deleted
-- on those of zslDelete; Create is on zslCreate. An object is its bytes, or those that are printed of
-- its integer, and the flag of its encoding; Texts has the tests of the functions by bytes alone, and
-- that they agree with those of the code where all objects are raw or none has a zero byte. Strings has
-- the order of the bytes, Order that of the nodes, Cut where a test changes its answer in it, All and Ends a test that all nodes answer
-- alike and the last node, and Element the element that is looked for. Rank and ByRank are on
-- zslGetElementByRank, GetRank and RankOf on zslGetRank, InRange, Ranged and LastRange on the ranges.
--
-- Bounds. Counters of entries cannot wrap, since entries take memory; where a sum of table sizes is
-- computed the theorems ask for fewer than 2 ^ 61 buckets and entries. Those on an addition to a
-- dictionary ask for fewer than 2 ^ 29, so that an index is an int, and those on dictRehash for fewer than
-- 2 ^ 31 buckets, so that rehashidx is one. An intset has fewer than 2 ^ 28 elements, so that byte counts
-- fit a uint32_t. The theorem on writes in Sds asks for a buffer of fewer than 2 ^ 31 bytes and texts
-- shorter than 2 ^ 31 - 2 ^ 20, which leaves the 1 MB that sdsMakeRoomFor adds. Aof takes the texts of
-- these strings, and a string that reaches that length is `none` there; an argument that is loaded has
-- fewer than 2 ^ 31 bytes. Spans and ranks in Zset are at most the number of nodes, of which zslInsert
-- and zslDelete leave fewer than 2 ^ 32 in their theorems, so that they fit an unsigned int; a span that
-- is lowered counts the node that leaves. zslRandomLevel takes the answers of random() as
-- a list. Loops run on fuel: 64 rounds for
-- _dictNextPower, one more than the nodes for a level of a skip list, the number of buckets left for the walk over empty buckets, one more than the
-- elements for the binary search, 20 digits for ll2string, one more than the bytes for
-- processInputBuffer, one more than the commands for loadAppendOnlyFile; the theorems show that
-- these are enough. stringmatchlen takes a round for each byte of the pattern at most, and dictNext
-- one for each bucket and two more.
--
-- Not modelled: the release of memory and reference counts, the timed rehash of dict.c, intsetRandom,
-- the other functions of util.c and sds.c, the rest of rdb.c, in networking.c the replies, the sockets
-- and the flag ASKING, in aof.c the rewrite and the writes of the file, in t_zset.c the removal of ranges,
-- the ziplist form and the commands, and ziplist.c, zipmap.c, the commands on keys (t_*.c, db.c, object.c), ae.c, replication, sentinel, scripting and configuration.
pub mod Adlist
pub mod Aof
pub mod Dict
pub mod Glob
pub mod Intset
pub mod Memory
pub mod Multi
pub mod Objects
pub mod Prelude
pub mod Protocol
pub mod Pubsub
pub mod Rdb
pub mod Sds
pub mod Sides
pub mod Slowlog
pub mod Util
pub mod Zset
