-- ===== src/Lib.antt =====
-- The kernel of x64barebones/Kernel: its memory, its processes and threads, and how they wait for
-- one another.
--
-- The program's parts, and the files that model them:
--
-- - Memory: the page allocator, x64barebones/Kernel/memoryManager.c with
--   x64barebones/Kernel/bitmap.c, x64barebones/Kernel/include/bitmap.h and
--   x64barebones/Kernel/include/myMath.h. `Allocator` has its globals. Memory/Bits and Memory/Map
--   are about the map of used blocks, Memory/Search about the loops of `allocate`, Memory/Blocks
--   about `allocate` and `deallocate`, Memory/Start about `memAllocatorInit`, Memory/Owned about
--   the blocks in use.
-- - Kernel: x64barebones/Kernel/scheduler.c, x64barebones/Kernel/process.c and
--   x64barebones/Kernel/threads.c, whose structs are records in a memory that each has, a
--   function from addresses, and whose globals are fields of `Kernel`. Kernel/Lookup has the
--   searches, Kernel/Threads and Kernel/Process have threads.c and process.c, Kernel/Blocking has
--   the functions that block, wake and end (Kernel/Blocking/Wake is about one thread,
--   Kernel/Blocking/All about all threads of a process), Kernel/Scheduler those that choose who runs
--   (runScheduler with its nextProcess part, threadCheck, nextThread, yieldSwitch).
-- - Mutex and Semaphores: x64barebones/Kernel/mutex.c and x64barebones/Kernel/semaphores.c. Both
--   keep their nodes in a list that Registry models, and the waiting threads in lists that
--   Waiting models. They call the kernel's `block_thread` and `unblock_thread`.
-- - Video: x64barebones/Kernel/videoDriver.c. A cursor that the code passes as `char **` is the
--   global one or a variable of the caller (`CursorPointer`). Video/Copying is about its loops,
--   Video/Backup about saving and scrolling, Video/Cursor and Video/Printing about the cursor,
--   Video/Shown about the text on the screen.
-- - Screens: x64barebones/Kernel/screenLoader.c, which holds the video and the kernel.
--   Screens/Linked is about the list, Screens/Added about a new screen, Screens/Switch and
--   Screens/Focus about what each process shows when the focus changes.
-- - Keyboard: x64barebones/Kernel/keyBoadDriver.c. Keyboard/Queue is about the buffer, a ring
--   buffer as in Ring, Keyboard/Handler about keyBoardHandler, which changes the screens.
-- - Pipes: x64barebones/Kernel/pipefs.c, whose names Text writes
--   (x64barebones/Kernel/myStdLib.c). Pipes/Names is about the names, Pipes/Buffer, Pipes/Reading
--   and Pipes/Writing about the buffer, a ring buffer as in Ring. Pipes too are kept in a list as
--   in Registry.
-- - SystemCalls: x64barebones/Kernel/systemCalls.c, over a `System` that has the state of all the
--   parts above. The kernel and the memory of characters are those of its screens, which the calls
--   put into the other parts and take back. SystemCalls/Io has reading and writing,
--   SystemCalls/Calls the other calls and the choice by number. SystemCalls/Reading is about the
--   loops, SystemCalls/Dispatch about the calls by number.
-- - Philosophers: the philosophers of x64barebones/Userland/SampleCodeModule/shell.c, as steps of
--   which one runs at a time, once all of them are seated; the parts that mainMutexId guards are one
--   step each, and takeForks may return to a philosopher that does not eat. Philosophers/Fairness is
--   about the states that they reach.
-- - Prodcons: the producer and the consumer of the same file, as steps of a first run of prodcons,
--   which does not set its globals back; Prodcons/Order is about the
--   states that they reach, with Prodcons/Counts about their semaphores.
-- - Shell: the loop of the shell, of the same file, and which command a line is. Shell/Choice is about
--   the texts, Shell/Line about reading.
-- - Console: x64barebones/Kernel/naiveConsole.c, which the start of the kernel prints with.
--   Console/Base is about numbers in a base, Console/Printing about what is printed. Its video
--   memory is a memory of its own.
-- - Packer: x64barebones/Toolchain/ModulePacker/main.c, which builds the image of the kernel and
--   its modules; Packer/Image is about the bytes of the image. What the files hold is a parameter.
-- - Loader: x64barebones/Kernel/moduleLoader.c and x64barebones/Kernel/lib.c, which take the modules
--   out of that image. Loader/Copying is about memcpy, Loader/Announce about what is printed,
--   Loader/Packing about one module, Loader/RoundTrip about the image.
-- - Strings: x64barebones/Userland/SampleCodeModule/string.c. Strings/Compare is about
--   strlen and strcmp, Strings/Reverse about strrev.
-- - Stdio: x64barebones/Userland/SampleCodeModule/stdio.c without scanf. Stdio/Format has printf,
--   Stdio/Numbers is about putNum, Stdio/ReadBack about reading what it prints, Stdio/Directives and Stdio/Printing about printf, Stdio/Input
--   about getchar and getline, Stdio/Prefix about startsWith.
-- - UserCalls: x64barebones/Userland/SampleCodeModule/systemCalls.c, over `system_call`.
--   UserCalls/Waiting is about its read, which asks until there is something to read.
-- - Network: x64barebones/Kernel/RTL8139.c, the driver of the network card. Network/Copying is about
--   its loops, Network/Inbox about the frames that it keeps, Network/Handler and Network/Received
--   about frames that arrive, Network/Wire about a message from one card to another.
-- - Pci: x64barebones/Kernel/pci.c without searchRTL; Pci/Address is about the addresses.
-- - Interruptions: x64barebones/Kernel/interruptions.c; Interruptions/Gates is about the table.
--
-- A C function is the definition of the same name in small letters and underscores:
-- `runScheduler` is `run_scheduler`. A function that changes state takes the state last and
-- returns the new one.
--
-- Numbers: an address is a natural number and NULL is 0. A value that the code computes in 64
-- bits is taken modulo 2 ^ 64, an `int` is the pattern of its 32 bits where only its bits matter,
-- and an integer where its sign does. Addresses are below 2 ^ 43, and an arena is smaller than 2
-- GB, since the code multiplies a block number with the page size as an `int`: the theorems that
-- need this say so.
--
-- Fuel: a loop or recursion that follows links takes fuel, and gives `none` when it runs out.
-- More fuel than the ring or list has nodes is enough, which the theorems on the searches prove.
-- A function also gives `none` where the code follows a pointer that it has not set.
--
-- What a device answers to a read of a port is a parameter, a function of the accesses before.
--
-- Not modelled: what the scheduler, the processes and searchRTL print; scanf, which reads behind the
-- line that it has read; the assembly, which saves and restores registers; what the commands of the
-- shell do, its pipe test, and the start of the kernel, which call the other parts; and the boot loader, which
-- is a copy of other projects. The network card is an interface of the system calls, which Network does
-- not fill. An interrupt is a call of `run_scheduler` between two operations: operations are not
-- interrupted half way.
pub mod Prelude
pub mod Memory
pub mod Kernel
pub mod Registry
pub mod Waiting
pub mod Mutex
pub mod Network
pub mod Semaphores
pub mod Ring
pub mod Keyboard
pub mod Text
pub mod Video
pub mod Screens
pub mod Pipes
pub mod Console
pub mod Packer
pub mod Loader
pub mod SystemCalls
pub mod Strings
pub mod Stdio
pub mod Shell
pub mod UserCalls
pub mod Interruptions
pub mod Pci
pub mod Philosophers
pub mod Prodcons
