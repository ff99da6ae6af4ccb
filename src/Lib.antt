-- ===== src/Lib.antt =====
-- A verification library for the Genesis OS kernel, a small preemptive kernel for the i386.
--
-- The kernel keeps a table of processes. The priority queues hold the runnable,
-- the sleeping, the dead, those that wait for input, and those that wait at a semaphore or a message
-- queue; the running process and one that waits for a child are in none. `ordonnanceur` elects the first of the runnable; every operation that blocks its
-- caller or makes a process of a higher priority runnable calls it. User programs reach the kernel by
-- one system call, which checks the addresses that it is given.
--
-- The files, and what they are about:
--   Base         native numbers, integers, lists, tests and the names that all files share
--   Queue        shared/queue.h. Queue.antt has the queues as lists, the front first; Queue/Links has
--                the same macros on the pointers `prev` and `next`, and Queue/Ring, Queue/Refine and
--                Queue/Remove relate the two; Queue/Order is about the order of the lists
--   Kernel       the shared data: kernel/processus.h, kernel/semaphore.h, kernel/files.h and the
--                globals; Kernel/Queues has the macros at the kernel's heads, with their assertions,
--                Kernel/Result the faults, and Kernel/Resume what becomes of a caller
--   Ordonnanceur the scheduler of kernel/processus.c: free_childs, free_mourant_queue, checkCanary,
--                ordonnanceur
--   Processus    the rest of kernel/processus.c: Processus.antt has the pids, sleeping, waking and
--                exit, Processus/Start start, Processus/Priority chprio, Processus/Filiation kill and
--                waitpid, and Processus/Boot init_ordonnanceur
--   Semaphore    kernel/semaphore.c
--   Files        kernel/files.c; Files/Transfer has psend and preceive
--   Console      the screen of kernel/console.c; Console/View shows the older lines
--   Keyboard     keyboard_data of kernel/kbd.c, and cons_read and the history of kernel/console.c
--   Horloge      the counters of kernel/horloge.c and what tic_PIT calls
--   Syscall      kernel/traitant_IT_49.c
--   Sound        kernel/sound.c, and the end of a sound in tic_PIT
--   User         the programs of user/: User/Philosophers for test_semaphore.c, User/Shell for the command line
--                of start.c, User/MoreLess and User/Pendu for the games, with User/Random and User/Utils
--                (random.c, utils.c), and User/Theme for theme.c and the melodies of theme_lib.c, one file
--                for each group of them
--   Coherence    what the parts share: Coherence.antt says how the structures, the table, the free pids
--                and the queues fit together, Coherence/Moves has the small changes, and
--                Coherence/Reaping, Coherence/Scheduler and Coherence/Caller the scheduler and its
--                callers; one file for each group of operations, Coherence/Handover and
--                Coherence/Refilling for messages that pass to and from processes that wait,
--                Coherence/Leaving and Coherence/Waiting for who runs and who waits after exit and the
--                operations on semaphores,
--                Coherence/Calls for the switch of the system calls, and Coherence/Reach for the
--                kernel as a system of steps, from init_ordonnanceur on
--   Tests        concrete states and calls at which the theorems apply
--
-- A function of the code has the same name here, in small letters with underscores (checkCanary is
-- check_canary). A function that can fail an assertion, use a null pointer or panic gives a `Result`.
--
-- How the state is represented:
--   - a pointer to a Processus is its pid, since the table's entry and the structure are made and freed
--     together; `linked` says that the field `chainage` is not null, which the assertions of queue.h
--     test; a list head is a `Head`, and a queue the list of its elements, the front first;
--   - `queue_out` takes from the back of a list, and `queue_add` inserts before the first element whose
--     key is not smaller;
--   - an `int` is an integer; the count of a semaphore, a `short int`, is brought back to 16 bits after
--     each operation by `to_short`;
--   - whether the allocator has memory is an argument where the code tests it (Memory, a Bool for
--     screate), and taken to be so where the code does not;
--   - `ctx_sw` is where a function ends here: what the caller does when it is elected again is a function
--     of its own (wait_end, psend_end, preceive_end, and again waitpid), named by the `Resume`
--     that the first part gives;
--   - a memory of bytes is a function from addresses.
--
-- Loops whose end is not evident run on fuel. free_mourant_queue has a round for each of the dead, one
-- for each process of the table, which can be a zombie that joins them, and one to find the list empty.
-- The loops over those who wait at a semaphore or a message queue have a round for each of them and one
-- more. The walk of queue_add on pointers has as many rounds as it is given, and needs one more than
-- there are elements. parse_command has as many rounds as it
-- is given, and needs two more than there are characters. The games and the philosophers need no fuel: the one has
-- ten tries, the other the letters that are typed, and a run of the philosophers is a list of steps.
--
-- In the programs of user/ a number that the clock gives, the memory behind a buffer and what is typed are
-- arguments. A semaphore of the philosophers is a counter that a process passes while it is not 0.
--
-- Not modelled: the allocator (shared/malloc.c.h) and the C library (shared/string.c, shared/doprnt.c,
-- shared/strtol.c), copies of other projects', of which strtok is a parameter and a copy of a text is
-- what the C library documents; the registers and the stack switch of ctx_sw.S, the programming of the
-- clock, the interrupts and the screen, the debugger, the keyboard's translation of scancodes, which is
-- Linux's, what the user programs print, the processes that play music, the piano, and the functions of
-- the single commands. In a system call what the drivers of the screen, the speaker and the power return
-- is a parameter (`Devices.drive`); cons_read is the code's.
--
-- The lines of screen_buffer (2500 in the code) are not bounded here, nor is `tampon`, where the theorem
-- on keyboard_data says that nothing is written behind its 256 bytes. A structure that free_mourant_queue
-- gave back to the allocator keeps its fields until its pid is used again. keyboard_data goes on after
-- verifie_es with the input as it is then, and what another process reads in between is not part of it.
pub mod Base
pub mod Queue
pub mod Kernel
pub mod Ordonnanceur
pub mod Processus
pub mod Semaphore
pub mod Files
pub mod Console
pub mod Keyboard
pub mod Horloge
pub mod Sound
pub mod User
pub mod Syscall
pub mod Coherence
pub mod Tests
