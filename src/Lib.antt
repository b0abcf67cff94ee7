-- ===== src/Lib.antt =====
-- Verification of the C utilities of this repository: data structures that its programs share.
--
-- Parts and files. The inotify sample passes its events through the event queue; the other
-- parts stand alone.
-- - bitlist.c, bitlist.h: Bitlist.antt has the record of a list and the operations on bits and
--   ranges, Bitlist/Find the searches, Bitlist/Combine the operations on whole lists, Bitlist/Count
--   the counts and comparisons, Bitlist/Copy the copies and the allocation, Bitlist/Parse the
--   parser and Bitlist/Print the printing. View, Edit, Whole and Range, and Laws and its neighbours below a part, are about what they do.
-- - sorted_array.c: SortedArray.antt has the functions; Insert, Add, Search and Pairs are
--   about them, and Compare has the comparison of two arrays.
-- - inotify-sample/event_queue.c: EventQueue.antt; Laws and Runs are about it.
-- - inotify-sample/inotify_utils.c, inotify-sample/inotify.h: Inotify.antt; Format is about the bytes of an
--   event, Message about the reports, Pending about the events in the queue, Reading about read_events and Flow about the rounds.
-- - circ_buffer.c, circ_buffer.h: CircBuffer.antt has the default operations and CircBuffer/Life
--   creation, destruction and the action vector; Laws, Queue, Drain and Life/Laws are about them.
-- - bsd_hash/hash.c, bsd_hash/hash.h: HashTable.antt; Key is about the hash, Chain about a chain, Map about
--   the table as a map and Size about its creation.
-- - ip_range.c: IpRange.antt; Align is about aligned addresses, Split about the split of a range and Join
--   about the join of networks.
-- - vam_time.h: Time.antt has absolute times, Time/Relative relative ones, Time/Arith the operations
--   on both and Time/Ntp NTP time; Convert, Order, Sums, Quotients, Scale and Ticks are about them.
-- - multimer.c: Timer.antt; Order is about the queue, Laws and Clients about timer_set, Fire, Get,
--   Ends and Calls about timer_get. It uses the struct timeval of Time.antt.
-- - baseconv.c, test_2pow.c, test_seqnum.c, test_avsm_hash.c: Util.antt; Digits is about the first, Power
--   about the second and Sequence about the others.
-- - Prelude passes shared names on: Boolean tests, lists read by native index, digits of native
--   numbers, integers, 32-bit and 64-bit words, memset and memcpy, circular arrays.
--
-- Names. A function keeps its C name without the prefix of its module (bitlist_test is test,
-- sorted_array_add is add, cbuf_enqueue_default is enqueue); what operates on several lists and
-- what belongs to the event queue keeps the whole name. Records are the structs.
--
-- State. A function on a struct takes and returns it. bitlist_or and its like take pointers any
-- two of which may be equal, so they work on a store. Functions of circ_buffer.c also return
-- the calls that they make outside, in order.
--
-- Numbers. An int or uint32 of bitlist.c is its 32-bit pattern and its arithmetic is modulo 2 ^
-- 32. The fields of vam_time.h and of struct timeval in multimer.c are 64-bit patterns with
-- arithmetic modulo 2 ^ 64. In the other files int counts and indices are native numbers that
-- are not negative, since nothing there makes them negative but `j` of the binary search, which
-- is modelled by `j + 1`; where a sum of the binary search, the count of sorted_array_add_2 or
-- a range of the parser overflows an int, the result is `none`, and hash takes the size of its
-- table as an int. The ushort count of sorted_array_add wraps.
--
-- Loops. A counted loop recurs on its rounds to go. The search of a sorted array takes as fuel
-- the count plus one, the loops over a circular buffer its number of cells, the end-around
-- carry of the hash 2 and the rounding of its size 65, the bits of a size_t plus one, the split
-- of a range 33, since every call lengthens the prefix, the parser the length of the string,
-- the printing one more than the number of bits, and baseconv the cells of its buffer. The loop
-- of timer_get takes the readings of the clock as its input, and that of process_inotify_events
-- the results of select and read. handle_events takes the size of the queue, and the loop of
-- read_events the number of bytes read. The theorems show that the fuel is enough, since they
-- give the result.
--
-- Accesses. Where the code could leave an array, a read gives `none` or 0 and a write `none` or
-- nothing, as the file says, and the theorems ask for the storage that is wanted.
--
-- Parameters. malloc is an argument; the hypothesis on it is that a block that it gives has the
-- number of elements that it is asked for. The comparison of cbuf_lookup is an argument, and so
-- is bcmp in the comparison of arrays, with the hypothesis that it compares elements. The
-- handlers that timer_get calls are an argument too: what they do to the timers. In multimer.c
-- and inotify_utils.c malloc is taken to succeed.
--
-- Not modelled: the texts of messages and the freeing of bit lists, the operations of
-- vam_time.h on double and its reads of the clock, the programs of the repository, system
-- calls, and copies of other projects.
pub mod Prelude
pub mod Bitlist
pub mod SortedArray
pub mod EventQueue
pub mod CircBuffer
pub mod HashTable
pub mod Inotify
pub mod IpRange
pub mod Time
pub mod Timer
pub mod Util
