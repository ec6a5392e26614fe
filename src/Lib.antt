-- ===== src/Lib.antt =====
-- A verification library for the chained hash table (genstructs/htable), for the finite state
-- machines (fsm) that are built on it, for the buddy allocator (buddy), for programs with threads
-- (pthreads), for a character device (cdev), for hexdump (fileops), for two programs with lists
-- (genstructs), and for two programs of homework.
--
-- How the parts interact. A table (htable.c) is an array of tail queues and calls back to hash and
-- to compare keys. A state (states.c) is a table of events by their keys; an event has a
-- description, an action and a new state. A machine (fsm.c) is a table of states by their keys, a
-- current state, and an array of queues of waiting events, one for each priority. Processing an
-- event searches the table of the current state, runs the action, and searches the table of states.
-- The buddy allocator (mpool.c) stands alone: a pool is one piece of memory cut into blocks of
-- powers of 2, each with a header in it, and an array of lists of headers, one for each size. The
-- matrix product (matrixmul.c) has a thread for each cell of its result, which finds its row and
-- column in an array that main fills while the threads run. The barber and the customers
-- (sleepbarber.c) share a counter of seats and three semaphores. The handlers of the device
-- (mydev.c) are called by the kernel, share a counter of opens, and call back to uiomove and to
-- proplib. The programs of fileops and homework stand alone, and so do the two with lists.
--
-- Files.
--   Base           the shared names: the library's, passed on; Base/Logic tests and Option chains,
--                  Base/Lists arrays as lists, Base/Words machine integers and the bound of a mask,
--                  Base/Heap calls of malloc and free
--   Htable/Types, Htable/Table, Htable/Walk, Htable/Memory
--                  genstructs/htable/htable.h and htable.c, each function under its own name:
--                  Table has htable_insert, htable_search, htable_remove, htable_free_obj and
--                  htable_grow; Walk has htable_init, the iterator, htable_traverse, htable_print
--                  and the counters; Memory has htable_free and htable_free_all_obj
--   Htable/Chains, Htable/Layout, Htable/Flatten, Htable/Grow
--                  one chain, one write to the array, and the copy of a doubling
--   Htable/Validity, Htable/Effect, Htable/Removal, Htable/Load
--                  the invariant and the map that a table stands for, and what each operation does
--   Htable/Iteration, Htable/Missed, Htable/Loops, Htable/Members, Htable/Release
--                  the nodes that an iterator sees, the rule for loops over one, and what is freed
--   Fsm/Types, Fsm/States, Fsm/Machine, Fsm/Setup, Fsm/Output
--                  fsm/types.h, fsm/states.c and fsm/fsm.c, each function under its own name:
--                  Setup has fsm_init and fsm_free, Output the functions that print
--   Fsm/Keys, Fsm/Registry, Fsm/AddState, Fsm/Events
--                  the callbacks, and how states and events are registered
--   Fsm/Start, Fsm/Finish, Fsm/Export
--                  fsm_init and state_init, fsm_free, and where the lines of a graph go
--   Fsm/Queue, Fsm/Dequeue, Fsm/Served, Fsm/Process
--                  the queues of events and the transitions
--   Fsm/Reachability, Fsm/SetState
--                  the marks of reachable states, and entering a state by its key
--   Buddy/Types, Buddy/Blocks, Buddy/Pool, Buddy/Stat
--                  buddy/mpool.h, buddy/mpool.c and buddy/mstat.c, each function under its own name
--   Buddy/Unlink, Buddy/Find, Buddy/Sums, Buddy/Levels, Buddy/Bits, Buddy/Valid
--                  the list operations, sums over blocks, addresses as multiples of powers of 2, and
--                  what holds of a pool between calls
--   Buddy/Init, Buddy/Scan, Buddy/Split, Buddy/Alloc, Buddy/Bytes
--                  mpool_init, the search for a block, one split, mpool_alloc, mpool_stat_get_bytes
--   Buddy/Buddies, Buddy/Merge, Buddy/Coalesce, Buddy/Free
--                  the block at the buddy's address, the merge of two buddies, mpool_free
--   Matmul/Types, Matmul/Memory, Matmul/Setup, Matmul/Threads
--                  pthreads/matrixmul/matrixmul.c: Memory has matrix_alloc, matrix_free, matrix_read
--                  and matrix_print, Setup has main up to its threads and its cleanup, Threads the
--                  loops that create and join the threads, and mulvect
--   Matmul/Alloc, Matmul/Read, Matmul/Balance, Matmul/Cleanup
--                  the blocks that are allocated and freed, and the elements that are read
--   Matmul/Product, Matmul/Invariant, Matmul/Live, Matmul/Progress, Matmul/Cost, Matmul/Correct
--                  the sums behind the cells, what the threads keep, who can move, how much is left
--                  to do, and all of it together
--   Matmul/Columns, Matmul/Undefined
--                  where the program fails
--   Barber, Barber/Count, Barber/State, Barber/Invariant, Barber/Progress, Barber/Cost
--                  pthreads/sleepbarber.c, sums over the customers, what holds between steps and that
--                  they keep it, who can move, and how long a run is
--   Cdev, Cdev/Exclusive, Cdev/Read
--                  cdev/mydev.c, each handler under its own name, the device as a flag, and reads
--   Fileops/Hexdump, Fileops/Hexdump/Columns, Fileops/Hexdump/Addresses,
--   Fileops/Hexdump/Limit, Fileops/Hexdump/Whole
--                  fileops/hexdump.c, main after its arguments are read, the width of a line, its
--                  address, the bytes that may be shown, and the whole output
--   Genstructs, Genstructs/Lists
--                  genstructs/slinkedlist.c and genstructs/tailq.c, and what they print and free
--   Homework/Bitmap, Homework/Charfreq
--                  homework/bitmap.c and homework/charfreq.c, main after its argument is read
--   Tests          runs of the code and of the theorems on concrete input
--
-- Conventions. A function that C lets write through a pointer takes the old value and returns the
-- new one. `none` of an Option result is an access outside an array, or a read through a pointer
-- that is NULL or was never written. What malloc answers is a Boolean argument for each call, in
-- the order of the calls, and what is given to free is returned as a list where a theorem needs it; fsm_init and
-- state_init return their calls of malloc and free in order.
-- A tail queue is the list of its nodes; a pointer to a node is the list from that node on. The
-- callbacks of a table are an argument. A pointer to a state is a number and the memory a function
-- from numbers to states; the key that the table of states holds for a state is a pointer into that
-- state, so that writing the state's key changes what the table compares. The functions behind
-- evt_actionf are one parameter, which may change the machine. A program with
-- threads is a step relation between states, with the shared memory, a program counter for each
-- thread, and one access to shared memory or call of a semaphore to a step, but for the line of mulvect
-- that reads three cells and writes one, which is one step; a thread that would do
-- what C leaves undefined has no step. An address in a pool is its distance
-- from mem, and a header is what the list that it is on holds under its address.
--
-- Bounds and fuel. size_t has 64 bits and unsigned int 32; sums, products and `n - 1` are taken
-- modulo 2 to that number, and theorems assume room where the code does. The loop over an iterator
-- has one unit of fuel more than the table has nodes, which the theorem on the loop shows to be
-- enough. The splits of an allocation have one unit more than the exponent of the block, which the
-- theorem on mpool_alloc shows to be enough, and the merges of mpool_free one more than the
-- exponent of the pool, since each merge raises the exponent. A
-- doubled array has fewer than 2 ^ 60 heads, since no block takes more than half the addresses, so
-- that its size in bytes does not wrap around; that of a new table may. `1 << n` on an int has a value for n
-- below 31. sizeof(blknode_t) is 40, as where pointers have 8 bytes. hexdump has
-- one round for each line of 20 bytes and two more, and mydevread one for each 15 bytes and one
-- more, which their theorems show to be enough. In matrixmul the width of size_t and of pointers is
-- an argument, 4 bytes or 8, and an int is an integer of 32 bits, whose overflow has no value. All
-- other loops are recursions on the list, the array or the rounds that they run over.
--
-- Not modelled. What two calls of one machine do to its queues at once, and the lock of the queues:
-- the functions of a machine run alone. The text that printf
-- callbacks write, which is a parameter. An action that frees the event it belongs to. The clients
-- and tests of fsm and htable. mpool_printblks, which prints in debug builds, and the search that
-- mpool_free does under MPOOL_OPT_FOR_SECURITY. A failure of pthread_create or pthread_join in
-- matrixmul and sleepbarber. Errors of fread in hexdump, and files of 2 ^ 31 bytes or more. The log
-- messages of mydev.c; uiomove is a parameter with the law of its manual page, and the answers of
-- proplib are arguments. The other programs of the repository only call the system or a library, or
-- print what is written in them.
pub mod Matmul
pub mod Genstructs
pub mod Fileops
pub mod Barber
pub mod Cdev
pub mod Base
pub mod Htable
pub mod Fsm
pub mod Buddy
pub mod Homework
pub mod Tests
