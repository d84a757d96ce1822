-- ===== src/Lib.antt =====
-- shm-lru-aging-and-quotas: a cache in shared memory. Each tier of usage is a region of elements of a fixed
-- size, kept in a doubly linked list in the order of their last use with a free list beside it, a hopscotch
-- hash table that leads from a hash to the offset of an element, and a buffer of the times of last use.
--
-- The parts and how they interact. `LRU_cache` (src/node_shm_LRU.h) owns the region. It calls
-- `HMap_interface` (src/hmap_interface.h) to store, find and remove offsets under hashes; two tables stand
-- behind it, or a map of the process where there is none. `HH_map` (src/node_shm_HH.h) implements the
-- interface. `KeyValueManager` (src/holey_buffer.h) keeps the times, ordered and with holes where a time was
-- updated, and takes late updates from `UpdateSource` (src/updating_source.h). `TierAndProcManager` passes
-- messages of processes to the tiers. c_experiments/src has the parts of a later design: a queue between the
-- threads of a process, a stack of free elements, a queue between processes that takes its elements from
-- that stack, a bloom filter, and a hash table whose buckets are shared by threads, of which the words of taken
-- spots are modelled.
--
-- Files.
-- - Base: machine words with their wrap-around, bits of a word, memory as functions, lists of positions.
-- - Hopscotch: `HH_map`, one function for each of put_hh_hash, del_hh_hash, hunt_hash_set, _probe,
--   _hop_scotch, _swap, _next, _succ; Hopscotch/Api: the methods of the interface; Hopscotch/Setup:
--   set-up and clear; Hopscotch/RandomBits: Random_bits_generator; Hopscotch/Counters: bucket_counts
--   and bucket_count_incr; Counting is about these. Inv has the invariant of a table: each
--   slot is either 0 or owned by one bit of one bucket. The entries of a bucket are a multiset, given by how often a value stands in it.
-- - Lru: the element, the cache, the list writes and the operations that use the region alone; Lru/Hash:
--   store_in_hash, remove_key and check_for_hash; Lru/Elements: add_el, del_el and evict_least_used;
--   Lru/Flush: the evictions that hand out bytes; Lru/Setup: setup_region_free_list; Lru/Walk and
--   Lru/Recount: _walk_free_list and _walk_allocated_list; Lru/Basket: the stack of free memory, the flag
--   of the tail, attach_to_lru_list and lru_remove_last; Lru/Tail: the flag between processes, as a step
--   relation; Lru/Construct: the constructor of `LRU_cache`, with the set-up of its reserve; Lru/Tiers: the times of the tiers. Chain and Layout have the invariant
--   of a region: a list of use and a free list that share no place.
-- - Holey: the searches b_search, u32b_search, bin_search_with_blackouts_increasing, and
--   time_interval_b_search of src/time_bucket.h; Holey/Entries: entry_add, entry_key_upate, entry_remove;
--   Holey/Merge: sort_small_mostly_increasing, the merge, and `UpdateSource`; Holey/Manager: the methods of
--   `KeyValueManager`. Halving, Bucketing, Blackouts, Updating,
--   Reach, Lost and Faults are about these.
-- - Slot: the states of a message slot and the loops that wait for and set one
--   (src/atomic_proc_rw_state.h); Slot/Waiting: when they end. Slot/Protocol: put_method and
--   reader_operation of `TierAndProcManager` at one slot, as a step relation; Slot/Protocol/Copies: where the
--   data go.
-- - SharedQueue: the queue between two threads (c_experiments/src/entry_holder.h); Threads: its two threads as a step
--   relation; Ordered, Steps, Fifo, Calls and Searching are about these.
-- - AtomicStack: the stack of free elements (c_experiments/src/atomic_stack.h); AtomicStack/Setup: its region;
--   AtomicStack/Stash: the stack with indices (`FreeOperatorStashStack` of c_experiments/src/hmap_interface.h).
--   FreeList has its invariant: the list of free elements and their count; AtomicStack/Threads: threads that
--   pop and push at once, as a step relation; Handing is about these.
-- - AtomicQueue: the queue of processes above that stack (c_experiments/src/atomic_queue.h). Line has its
--   invariant: the elements in the order of the pops, apart from the free ones.
-- - Bloom: the bloom filter (c_experiments/src/bloom.h); Bloom/Members: which members it finds.
-- - ControlWords: the words in the buckets of the later hash table and what they count
--   (c_experiments/src/hmap_interface.h); ControlWords/Stash: the stash of the words of taken spots, and
--   the calls of readers and swappy operations (c_experiments/src/node_shm_HH.h); ControlWords/Counting:
--   the readers of a member. Visits has the calls as a relation on states, with their invariant.
-- - The modules named Tests: runs, and the theorems at concrete inputs.
--
-- Choices. The two arrays of a table, the region and the time buffer are functions from
-- positions, as the C code does not check bounds; the invariants say which positions are used. A
-- slot is a 64 bit number, and a pointer into the time buffer is an index. Where a C loop has no
-- bound in sight, the model runs on fuel and gives `none` when it is out of it: the distance
-- plus one for the hops of an insertion, 33 for a walk over the 32 bits of a bucket, the number
-- of pairs plus one for the searches of the time buffer, one more than `_max_count` for the
-- walks. Removals from the time buffer and merges take their fuel as an argument, as they need
-- not end. The loops of the evictions run for the number of rounds that max_evict allows. The
-- clock is an argument, and so are the values that other processes put into a slot between two
-- loads. `std::sort` is a parameter of the merge, and the draws of the bernoulli distribution
-- one of the generator of bits.
--
-- In the stack and the queue of c_experiments an exchange compares and writes in one step;
-- without another process two rounds of a loop around one are enough, and reduce_free_count
-- takes at most two rounds for each element that is counted. Steps of threads are single
-- accesses in some order, as with sequentially consistent loads and stores.
--
-- In the later hash table calls run one after the other, but for the exchange of
-- stash_taken_spots, before which another thread may come, and so in bucket_counts. Where
-- arguments of the code are in a wrong order, as in get(key,bucket), they are so here too.
--
-- Not modelled: the worker threads of add_key_value, the gathering of messages of many processes
-- and the evictions between tiers, the use of the reserve of a tier and the transfer of elements between
-- tiers, the Node binding, which is glue, the multi-word compare-and-swap headers, which are not
-- called, the rest of the later hash table, and the other headers of c_experiments, which repeat
-- the parts above in other stages.
pub mod AtomicQueue
pub mod AtomicStack
pub mod Base
pub mod Bloom
pub mod ControlWords
pub mod Holey
pub mod Hopscotch
pub mod Lru
pub mod SharedQueue
pub mod Slot
