-- ===== src/Lib.antt =====
-- EmbeddedMiddle: a C library of building blocks for embedded programs (src/em_*.c).
--
-- The parts modelled, and the file of each:
--   Semaphore       src/em_semaphore.c   a counting semaphore
--   Mempool         src/em_mempool.c     a pool of blocks of one size; its semaphore counts the free
--   Ring            src/em_ringbuf.c     a ring buffer that overwrites or refuses when it is full
--   Queue           src/em_queue.c       a blocking bounded queue over two semaphores
--   Oalloc          src/em_oalloc.c      an allocator that only moves forward
--   LinkedList      src/em_list.c        a doubly linked list of pointers, over a memory pool
--   Buf             src/em_buf.c         a byte buffer with a capacity
--   Time            src/em_time.c        sums, differences and conversions of time stamps
--   Gdatamng        src/em_gdatamng.c    a table of data by key, over a memory pool
--   Idatamng        src/em_idatamng.c    the same, by numbers
--   Semmng          src/em_semmng.c      semaphores by number, over a memory pool
--   Mutex           src/em_mutex.c       a mutex, by what the C library answers
--   Mtxmng          src/em_mtxmng.c      mutexes by number, over a memory pool
--   Timer           src/em_timer.c       timers of the operating system, by number
--   Event           src/em_eventflag.c   events, and events by number, over a memory pool
--   Eventflag       src/em_eventflag.c   a word of flags that tasks set and wait for
--   Task            src/em_task.c        tasks by number, each with a thread and a queue
--   Command         src/em_command.c     commands by name, and the loops that execute lines
--   Geojson         src/em_geojson.c     JSON and GeoJSON printed into a buffer
--   System          src/em_system.c      the managers made one after another, and given up
--   Upload          src/em_upload.c      data collected in a ring and posted together
--   Malloc          src/em_malloc.c      an allocator that merges free regions
--   Bytes           memcpy, memcmp and strncmp of the C library
--   Prelude         numbers, tests, lists, integers, and the result codes of src/em_cmndefs.h
--
-- Each C struct is a record with the struct's fields, and each C function a definition with the
-- function's name without its module prefix: em_mpool_alloc_block is `alloc_block` of Mempool. A
-- function that changes a struct takes it and returns the result and the new struct. A file's child
-- modules hold its invariant (Valid), what its operations do, and its tests (Examples).
--
-- Numbers: `uint` is a native natural number, and each addition, subtraction or product that could
-- wrap is taken modulo 2 ^ 32 (`add32`, `sub32`, `mul32`). A pointer is an address or the number of
-- the block record it points to; NULL is `none`. Memory is a function from addresses to contents. A
-- call of `alloc_func` is a call of a function argument on the state of the heap.
--
-- Buf, Oalloc and the counts of Gdatamng keep an `int` as its bit pattern. Time has integers, and Queue
-- and Malloc natural numbers, since C leaves an overflow of a signed number undefined; Malloc cuts
-- the counts, numbers and offsets of units to 32 bits. Where what the code does is undefined, a
-- definition says so or gives `none`: a free of a pointer that is not into the pool (`free_block` of
-- Mempool), a memory manager without a record for its first region (`create` of Malloc). That no
-- allocation gives NULL is a hypothesis of the theorems of System; the other theorems take the
-- tables that an initialiser allocates as given.
--
-- Calls of the C library's threads and of the operating system: what they answer is an argument, and
-- where it matters what they were asked is a result.
--
-- Loops: the loops of em_eventflag_wait and em_trymalloc go round once for each return of their wait,
-- that of em_cmd_start once for each input and that of em_cmd_start_bg once for each thing that other
-- tasks do; they are given a list of these. Every other loop of the modelled code runs a number of
-- rounds that is known when it starts, and is structural recursion on the rounds left.
--
-- Concurrency: a memory pool, a data manager and an allocator have a mutex that a call holds from its
-- first access to its last, so a call is one step, and a sequence of calls stands for any
-- interleaving. A ring, a list, a buffer and an Oalloc memory have no mutex, and their calls are
-- those of one task. A call on a queue is the claim on a semaphore, what it does under the mutex, and
-- a post: Queue/System interleaves these. A wait without a timeout on a semaphore at 0 is told apart
-- (`blocked`, or `none`) from an error.
--
-- A call of em_eventflag_wait or em_trymalloc is not one step: the calls of other tasks while it has given
-- up the mutex are an argument. Which waiting thread a condition variable wakes is left open.
--
-- Not modelled: output to the log; em_memmng_print and the other functions that only print; network
-- code (em_ether, em_httpc, em_mqttc).
pub mod Buf
pub mod Bytes
pub mod Command
pub mod Event
pub mod Eventflag
pub mod Gdatamng
pub mod Geojson
pub mod Idatamng
pub mod LinkedList
pub mod Malloc
pub mod Mempool
pub mod Mtxmng
pub mod Mutex
pub mod Oalloc
pub mod Prelude
pub mod Queue
pub mod Ring
pub mod Semaphore
pub mod Semmng
pub mod System
pub mod Task
pub mod Time
pub mod Timer
pub mod Upload
