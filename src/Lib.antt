-- ===== src/Lib.antt =====
-- A verification library for PGASUS, a C++ library for NUMA-aware programs: memory sources tied to
-- nodes, a task scheduler for each node, and a hash table that is distributed over nodes.
--
-- The parts and how they interact. Tasks are triggerables, for which other tasks wait, and
-- synchronizers, which wait (include/PGASUS/tasking/synchronizable.hpp). A task that is ready stands
-- in a queue of a task collection (src/tasking/task_collection.cpp), of which a scheduling domain
-- keeps one for each priority; a scheduler starts and stops the worker threads that a domain knows
-- (src/tasking/task_scheduler.cpp). The hash table (include/PGASUS/hashtable/hashtable.hpp) has bins
-- on nodes, and protects each bin and each bucket by a reader/writer lock
-- (include/PGASUS/base/rwlock.hpp). Memory comes from memory sources (src/msource/msource.cpp), of which each
-- thread uses the one that the top of its stack of places names (src/msource/stackedmalloc.cpp); a task
-- takes its places along when it goes to another thread.
--
-- Files and sources:
--   Common: names, Boolean tests, lists and bit masks that all parts share.
--   HashTable: hashtable.hpp. HashTable.Bins has BinData with its buckets, `resize` and
--     `operate_on_bin`; HashTable.Operations has GetOrCreate, Get and Remove; HashTable.Table has the
--     class HashTable. A table stands for a map from keys to values: HashTable.Placed says that nodes
--     are in their buckets and defines `view`, HashTable.Items treats one bucket, HashTable.Resize
--     rehashing, HashTable.Valid the invariant of a bin, HashTable.Writes and HashTable.Refines the
--     operations on a bin, and HashTable.Laws those on a table. HashTable.Iterators has the iterators of
--     buckets, spaces and tables, and ParallelIteration; HashTable.Traversal says what is left of an iterator,
--     HashTable.Visited is about a whole loop, HashTable.Shares and HashTable.Handed about the units, and
--     HashTable.Stale about a bucket that has changed.
--   Sync: synchronizable.hpp. A world has the clients and the state of each triggerable and the
--     dependencies of each synchronizer, all by number. Sync.Invariant links clients and
--     dependencies, Sync.Signal is about signaling, and Sync.Duplicates about a list that names a
--     triggerable twice.
--   Tasks: task_collection.cpp and task_scheduler.cpp. Tasks.Collection, Tasks.Domain and
--     Tasks.Scheduler have the operations of TaskCollection, SchedulingDomain and Scheduler.
--     Tasks.Content measures what a collection holds, Tasks.Threads says which threads have a queue,
--     Tasks.Taking is about `try_get`, Tasks.Valid has the invariant of a domain, Tasks.Putting and
--     Tasks.Dispatch are about putting and getting tasks, Tasks.Levels and Tasks.Workers about adding
--     and removing threads, and Tasks.Staff and Tasks.Resizing about the workers of a scheduler.
--     Tasks.Pool has all schedulers with the global domain and the sleeping threads, and Tasks.Spawning
--     is about spawning and getting tasks there.
--   Worker: src/tasking/worker_thread.cpp and src/tasking/context.hpp, the loop of a worker thread over the
--     tasks of Task; Worker.Rounds is about the parts of a round, and Worker.Resuming about a task that
--     waits, and its context.
--   Spin: include/PGASUS/base/spinlock.hpp, as steps of threads on the flag and the back-off;
--     Spin.Exclusion is about any schedule, Spin.Patience about the rounds of try_lock.
--   Lock: rwlock.hpp, as steps of threads on the atomic word; Lock.Word has the
--     invariant of a step, and Lock.Safety what follows for any schedule.
--   Mutex: include/PGASUS/mutex.hpp, with Mutex.Fifo on the order in which it is granted.
--   Threads: src/tasking/thread_manager.cpp, the states of threads and the lists of a manager;
--     Threads.Registering is about starting a thread, Threads.Ending about ending all of them.
--   References: include/PGASUS/base/ref_ptr.hpp, with References.Counting on the counters and
--     References.Deletions on the deletions that the end of a pointer causes.
--   Task: src/tasking/task_base.cpp and include/PGASUS/tasking/task.hpp, the states of a task over Sync and
--     the place stacks of Malloc. Task.Flags is about the word of state and flags, Task.Waiting about
--     blocking, Task.Finishing about what the end of a task wakes, and Task.Switching about a task that
--     goes from one thread to another.
--   Msource: src/msource/msource.cpp. Msource.Align has the masks, Msource.Counter the word with the
--     blocks and references of a source, Msource.World the memory with the footers of blocks,
--     Msource.Source allocation and release of blocks, and Msource.Release the life of a source.
--     Msource.Chunks, Msource.Linking and Msource.Unlinking treat the doubly linked list of mapped
--     blocks, Msource.Mapped mapped blocks, Msource.Small and Msource.Returned those of arenas,
--     Msource.Aligned aligned ones, Msource.Unmapping the destructor's loop over mapped blocks, and
--     Msource.Ending the last use of a source.
--   Paging: src/msource/mmaphelper.cpp, and the migration and statistics of src/msource/msource.cpp, with
--     Paging.Pages on the pages of a region, Paging.Masks on the mask of nodes, and Paging.Totals on the
--     loops over mapped blocks.
--   Malloc: src/msource/stackedmalloc.cpp and include/PGASUS/malloc.hpp. Malloc.Places, Malloc.Kept,
--     Malloc.Stack and Malloc.Moving are about the stack of places of a thread; Malloc.Calls has the
--     functions of the C library, and Malloc.Sizes is about the sizes they ask for.
--   Nodes: src/base/node.cpp, the choice of nodes by NUMA_NODES, with Nodes.Logical and Nodes.Chosen on
--     the logical ids, and Nodes.Ids on the way back. Nodes.Machine has the processors, threads and
--     neighbors of nodes over Topology, and Nodes.Nearest and Nodes.Ranked are about
--     which neighbors are found.
--   Topology: src/base/topology.cpp, with Topology.Vectors and Topology.Owners on the vectors that are built,
--     Topology.Cores on processors, and Topology.Neighbors on the sorted neighbors.
--   Iterating: include/PGASUS/hashtable/containers.hpp, RecursiveIterator, with Iterating.Visits on what an
--     iterator visits, and Iterating.Nested on iterators inside iterators. Iterating.Distributed has the
--     loop of DistributedIteration over the units that are handed out.
--   Containers: the adapters for standard containers in the same file; Containers.Chunks and Containers.Cutting
--     are about the chunks of a container, Containers.Reading about a thread that takes them.
--   Replicated: include/PGASUS/msource/node_replicated.hpp, the objects for each node; Replicated.Steps is
--     about one access of a thread, Replicated.Single about any schedule. What a thread writes is seen by
--     the others at once.
--   Tests in the parts, with HashTable.Loops and Tasks.PoolTests: the theorems at concrete values.
--
-- How the code is modelled. A number is a natural number, with the wrap-around of 64-bit values
-- written out where a value can reach it (generations of buckets, the word of the lock). A failed
-- assertion, or an access through a null pointer, is `none`, or the place `failed` of a thread. The
-- operations of the hash table, of synchronizers, mutexes and the scheduler are single steps, as if each
-- ran alone; only the two locks and the
-- objects for each node are modelled with interleavings. Loops over arrays recurse on the number
-- of rounds that are left, which is the number of elements, so no loop runs out of fuel.
--
-- Parameters for what is outside: the key type with its equality and hash (HashTable.Key), the
-- `notify` of a synchronizer, the priority of a task, the number of processors of a node, the
-- reference pointers that are members of an object, and the numbers that a random device draws.
--
-- What callMmap and dlmalloc's mspace_malloc return is passed to an allocation; the memory is a function
-- from addresses to words of 64 bits, and a header is read and written word by word. get_footer_for_mem
-- and the loop that unmaps the blocks of a source follow links on fuel: two steps are enough for the
-- former, and one more than the source has mapped blocks for the latter. The loops of migrate and stats
-- over these blocks need as much, and the loop over a unit of a parallel iteration one round more than
-- the node has pairs. A chain of deletions by reference pointers takes no more rounds than there are pointers,
-- and one for the first. What hwloc and the files of the system report is passed to Topology.
--
-- Not modelled: the switch of machine contexts, the wait of a worker for tasks and the tasks for each
-- thread, the handles of memory sources and the global sources, the set-up of thread-local storage, the
-- lock-free hash table, the output of the topology, and the copies of dlmalloc and ptmalloc3.
pub mod Common
pub mod HashTable
pub mod Sync
pub mod Tasks
pub mod Lock
pub mod Spin
pub mod Mutex
pub mod Threads
pub mod References
pub mod Msource
pub mod Paging
pub mod Nodes
pub mod Topology
pub mod Malloc
pub mod Task
pub mod Worker
pub mod Iterating
pub mod Containers
pub mod Replicated
