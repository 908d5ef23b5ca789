-- ===== src/Lib.antt =====
-- Verification of kerosene, a small operating system: a 32-bit kernel and the C library of its programs.
--
-- The parts and the files that model them (paths from the root of the repository):
-- - Process: the process structure of kernel/include/process.h and the memory that holds processes.
--   Process/Queue: kernel/src/process/process_queue.c, with process_queue_push as `push`,
--   process_queue_sorted_push as `sorted_push` and process_queue_pop as `pop`. Chain says what a chain
--   of links stands for, Fifo and Sorted are about the two disciplines.
-- - Scheduler: kernel/src/process/scheduler.c. The static variables are the record `Scheduler`;
--   scheduler_to_next_process is `to_next_process`, and so on without the prefix. It calls the queue,
--   and the children are about one function each: Ready (push_ready), Dispatch (to_next_process), Wake
--   (the sleepers in scheduler_switch), Sleep (set_sleep) and Kill (kill_process).
-- - Semaphore: kernel/src/semaphore.c, which blocks and wakes processes through the scheduler.
--   Release and Acquire are about the two operations.
-- - Frames: kernel/src/mem/pmmngr.c, the bitmap of page frames. Search and Runs are about the two
--   searches, Count about the number of frames in use, Block and Blocks about the allocations,
--   Boot about the start of the kernel and the freeing of many frames.
-- - Heap: kernel/src/mem/heap.c, with heap_alloc as `alloc`, heap_free as `free`, heap_expand as `expand`
--   and heap_contract as `contract`. What it uses of the page frames and page tables is the record
--   `Pages`. Regions says how the regions follow one another, Fit and Grow are about the two ways an
--   allocation goes, Merge and Free about joining a freed region with its neighbours, Shrink about giving
--   pages back.
-- - Paging: kernel/src/mem/vmmngr.c, page directories and tables in page frames, reached through the last
--   entry of the current directory or through two temporary windows. vmmngr_map is `map`, and so on
--   without the prefix. Walk is the processor's walk of the tables, against which Map, Unmap, Translate
--   (vmmngr_to_physical_addr) and Directory (vmmngr_alloc_page_directory) are stated; it takes frames from
--   Frames.
-- - Keyboard: kernel/src/driver/kbd.c. Codes has its tables, Layout is kernel/src/locale.c. An interrupt
--   is `interrupt`, which calls the handler that is installed; the data port of the controller
--   (kernel/src/driver/ps2.c) is the record `Ps2`. Bounds is about the tables, Typing about the
--   characters, Discard about the bytes that are thrown away, Stroke about keys pressed and released, Wait
--   about kbd_wait_key.
-- - Fat: kernel/src/filesystem/fat32.c on a disk that is its bytes by address; accesses go through
--   ata_pio_LBA28_access. `Volume` is what does not change of an fs_t, `Fs` what does. set_FAT_entry is
--   `set_fat_entry`, and so on in this spelling. Entries is about the table as a function; Chains has the
--   operations on chains of clusters: Link says what a chain is, Free, Cut and Count are about freeing and
--   the counter of free clusters, Allocate, Extend and Allocated about new clusters. File has read_file
--   (Read and Whole are about it), File/Write write_file (Layout says where clusters lie, Within and Back
--   are about writes within a cluster), File/Position the operations on open files. Names has the short
--   names (Valid, RoundTrip), Dates the dates of directory entries, Nodes their attributes, fat32_node_reset
--   and the copy of a chain.
-- - Files: kernel/src/filesystem/file_op.c, over the record `Fs` of the operations of a file system.
--   Inside is about reading, Growth about writing.
-- - Ramfs: the chains of data nodes of kernel/src/filesystem/ramfs.c that hold the files, with
--   read_file and write_file as there, and ramfs_allocate_datanodes as `allocate_datanodes`.
--   Content is the list of bytes that a chain holds, Read and Update are about the two operations,
--   Write about the last loop of writing, RoundTrip about both together, Cut about writes over a
--   chain that lose its rest. Seek has ramfs_file_seek_absolute and ramfs_file_read for ordinary
--   files (Seek/Reading is about both), Pipe the loop of ramfs_pipe_read. The heap is the record
--   `Storage`.
-- - Kutils: the validation of user addresses in kernel/src/kutils.c.
-- - Libc/Time: libc/src/time/gmtime.c and mktime.c. Libc/Memory: memset.c, memcpy.c, memmove.c and
--   memcmp.c of libc/src/string. Libc/Strings: the functions on strings there, and libc/src/ctype.
--   Libc/Numbers: atoi.c and itoa.c of libc/src/stdlib. Libc/Tokens: strtok_r.c of libc/src/string.
--   Libc/Environment: getenv.c of libc/src/stdlib.
-- - Base: shared names, lemmas and number types. Tests: concrete runs and data.
--
-- Numbers are natural numbers; a 32-bit addition or subtraction that can wrap is written with its
-- modulus (Base/Words). A pointer is an address and NULL is 0. The memory of processes is a function from
-- addresses to structures, so two pointers to one process see the same writes; a write through NULL
-- is `none`. The scheduler, queues and semaphores run with interrupts off, so a call is one step.
-- The memory of the C library is a function from addresses to bytes.
--
-- Fuel: a walk or a loop over a queue runs on fuel, and one more than the length of the queue is
-- enough, as is one more than the number of regions for the search of the heap; a loop over a string
-- needs one more than its length, and one over a chain of data nodes as many rounds as there are nodes,
-- or one more for a pipe. A chain of clusters takes a round for each cluster (freeing it, one more), the
-- search for free clusters one more than the clusters it looks at, and atoi and itoa 12 rounds. The
-- loops of gmtime carry their own fuel, timer + 1 years and 12 months. The theorems say that the
-- functions end with this fuel. The wait for the keyboard's answer has as fuel the
-- number of bytes within which the answer comes, and the wait for a key the number of interrupts.
--
-- Not modelled: the fields of a process that no scheduler function reads (arguments, environment,
-- files); scheduler_spawn and the making of semaphores, which need the file system; the spin lock of
-- a semaphore or a heap, which is free at the start of each call; page-aligned allocations, which
-- nothing in the repository asks for; times before 1970; the iteration over directories; the flushes of
-- the translation buffer; the other devices, console output, the directories of both file systems
-- and long names, the writing and waiting of pipes, faults of the disk (whose
-- results the code ignores), and the programs.
pub mod Base
pub mod Process
pub mod Scheduler
pub mod Semaphore
pub mod Frames
pub mod Paging
pub mod Heap
pub mod Keyboard
pub mod Fat
pub mod Files
pub mod Ramfs
pub mod Kutils
pub mod Libc
pub mod Tests
