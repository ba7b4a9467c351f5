-- ===== src/Lib.antt =====
-- The laboratory programs of an operating systems course: user programs that share memory, talk
-- through sockets and walk directories, and kernel modules behind /proc, a keyboard interrupt and a
-- file system. The programs do not call one another; each part below is one of them, or two that
-- solve the same task.
--
-- What the parts share
--   Base (Lists, Tests, Family, Digits, Memory, Texts, Outcome): lists, Boolean tests and sums over
--     the native numbers; arrays of bytes and strings up to their NUL; and Outcome, the result of
--     code that can return, leave the process, abort, access memory that is not its own (`fault`)
--     or run out of the rounds that the model gives a loop (`out_of_fuel`).
--
-- The parts, by file
--   Semaphore (semop on a set of semaphores):
--     Semaphore/Buffer: os_01/lab_05/01.c. Shared and Process are the state; a Move is one step of
--       `prod` or `consum` (the call of `semop`, the access to the buffer, the increment of the
--       position, the second call); Step picks one of the five processes of `main`, and Reach is
--       what any order of steps gets to. Counts and Invariant have what all steps keep. Segment
--       has the layout of the shared memory in bytes, with ints of 4 bytes; the other files take
--       the buffer as it is addressed, wherever it lies.
--     Semaphore/ReadWrite: os_01/lab_05/02.c, in the same way, for any number of processes; the
--       increment of the shared number is a read and a write.
--   Monitor: os_01/lab_06/main.c, readers and writers with a mutex and two events; Move has one
--     step for each line of `start_read`, `stop_read`, `start_write` and `stop_write`.
--   Server: os_02/lab_08/src/net/server.c (`handle_connection`, `handle_client` and one round of
--     `main`); Server/Run: `main` and its rounds; Server/Datagram: os_02/lab_08/src/unix/server.c;
--     Server/Clients: net/client.c and unix/client.c beside them.
--   Daemon: os_02/lab_01/daemonise.c. Detach is `daemonize` on the table of descriptors, Lock is
--     `already_running` on the lock file, Signals is `thr_fn`, Start is `main`.
--   Tasks: os_02/lab_03/src/part_01/md.c.
--   Messages: os_02/lab_01/err.c; Messages/Walker: the same functions in
--     os_02/lab_dir_of_catalog/lab_own/main.c.
--   Fortune: the pot of cookies in os_02/lab_04/src/part_02. Proc is fort_proc.c, Seq is
--     fort_seq.c, Exam is temp/procfd_exam.c, Lifecycle is the load and unload of all three.
--   Keyboard: the decoding of scan codes; Tasklet is os_02/lab_09/src/tasklet/tasklet.c and
--     WorkQueue is os_02/lab_09/src/workseq/workseq.c; its child Order has interrupts and the worker
--     in any order.
--   Myfs: os_02/lab_07/src/myfs.c, from `myfs_init` to `myfs_exit`.
--   Pagemap: os_02/lab_04/src/part_01/pagemap.c: Parse is about the numbers of a line of the memory
--     map, Pages about the loop over the pages of a range; Maps is `parse_maps` with its buffer and
--     `pagemap_info`; Maps/Lines has the lines as the kernel prints them, and the scan over them.
--   ProcInfo: os_02/lab_04/src/part_01/main.c, which calls `pagemap_info` last. ProcInfo.antt has
--     the sections with arguments and links, Fields those with fields, Patterns the tables of
--     main.h, Report the other sections and `main`. Buffers is about arrays of NULs with a text at
--     their start; Arguments, Fields/Tokens, Links and Failures say what the sections print.
--   Pipes: os_01/lab_04/src. Pipes.antt has 01.c, 02.c, 03.c and 05.c as the run of one process,
--     parent or child, with the answers of `fork` and `wait`; Forks and Signals are about these.
--     Messages is 04.c, where Step is one step of the parent or of a child.
--   Files: os_02/lab_05/src. Files.antt has 01.c, 02.c and 03.c; Stream, Doubled and Letters are
--     about them. Shared, Own and Race are 01_thread.c, 02_thread.c and 03_thread.c, where a Move
--     is one step of a thread.
--   Stack: os_02/lab_dir_of_catalog/lab_own/stack_t.c on an explicit heap; Chain makes a list
--     of it.
--   Walk: os_02/lab_dir_of_catalog/lab_own/main.c. It takes the stack as that list. Tree says what
--     a directory tree is and when the answers of the system describe one; Report is about the
--     message for an entry that `lstat` does not answer, Count about `myftw_n`, and Summary is
--     `main`.
--   Dopath: os_02/lab_dir_of_catalog/temp/main.c, on the same trees; Summary is `main`.
--
-- Conventions
--   What the system or the kernel answers (descriptors, directories, copies from the user's
--   memory, allocations, forks) is an argument of the function that asks. Numbers are natural
--   numbers; the codes of errors are negative integers. A byte is a number, a text is a list of
--   them without its NUL. The sizes are those of the source: nine slots, a page of 4096 bytes,
--   1024 bytes for a line of err.c and 4095 for one of main.c, ten clients with 256 bytes each,
--   twelve objects, 256 bytes for a path; BUFSIZ, which the C library defines, is an argument of
--   ProcInfo and Pagemap. The text of a file under /proc is taken not to change while it is read.
--   Loops run over lists or over the numbers that the source counts; the loops of Walk and of
--   free_stack take a number of rounds and the recursion of Dopath a number of levels, and their
--   theorems say how many are enough: one round for every directory, one for every node, and the
--   height of the tree. The loops of Files and ProcInfo get a round for every byte and one more.
--
-- What is not modelled
--   Output to the terminal and the log, except where it is the result; sleeping; the assembly and
--   DOS programs; programs of a few lines that only start others or print; the modules of
--   os_02/lab_03/src/part_02, which print constants; the file of workseq.c under /proc, which
--   prints words of the kernel. The numbers of processes that the programs of os_01/lab_04 print
--   of themselves are left out of their lines.
pub mod Base
pub mod Keyboard
pub mod Fortune
pub mod Messages
pub mod Monitor
pub mod Pipes
pub mod ProcInfo
pub mod Server
pub mod Myfs
pub mod Pagemap
pub mod Stack
pub mod Tasks
pub mod Walk
pub mod Files
pub mod Dopath
pub mod Daemon
pub mod Semaphore
