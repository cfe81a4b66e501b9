-- ===== src/Lib.antt =====
-- ArcadeOS, a small x86-64 console operating system: the parts of its kernel that keep memory,
-- tasks, pipes, keys, gamepads, scores, the log and the files of the game volume, and that
-- record and rewind a running game.
--
-- Parts and files. The page allocator hands out the frames that the heap is built on; the heap
-- gives tasks their stacks and pipes their buffers; the scheduler runs the tasks of the table;
-- the keyboard's interrupt puts key events into a ring, and Ctrl+C goes to the task table as a
-- signal; the session keeps the scoreboard that running games report to. At each frame that a
-- game presents, the recorder keeps the gamepads it is given, and now and then the memory of the
-- game.
--
--   Pmm        src/pmm.c        the page bitmap as a list of bytes, pmm_alloc_page and its kin;
--                               Pmm/Init has pmm_init with the boot information as a record
--   Heap       src/heap.c       kmalloc and kfree on the chain of blocks, a list of headers with
--                               their addresses; Heap/Init has heap_init on the pages of Pmm
--   Scheduler  src/scheduler.c  schedule and scheduler_tick on the task table, and the two system
--                               calls of src/syscall.c that end and block a task, exit and wait
--   Tasks      src/task.c       create_kernel_thread on the heap, task_kill_foreground
--   Ring                        the rings of pipe.c and keyboard.c as queues
--   Pipe       src/pipe.c       pipe_read and pipe_write with their waiting loops
--   Keyboard   src/keyboard.c   keyboard_inject_scancode, keyboard_get_key and the blocking read;
--                               Keyboard/Layout the characters of a US keyboard to compare with
--   Session    src/session.c    session_set and session_score_report
--   Klog       src/klog.c       klog_putc, klog_read and the two flushes
--   Gamepad    src/gamepad.c    gamepad_kb_hook, gamepad_get_state, the assignment of pads
--   Fat32      src/fat32.c      the file allocation table and its cache; Fat32/Files has the
--                               directory, fat32_load and fat32_save, Fat32/Names the 8.3 names,
--                               Fat32/Layouts fat32_init; Fat32/Table to Fat32/Saves follow a save
--                               that fails, Fat32/Reference to Fat32/Survival a load after it
--   Rewind     src/rewind.c     the ring of snapshots, the recorder and rewind_on_present, with the
--                               system calls of a game that they answer; Rewind/Ring the choice of
--                               a snapshot, Rewind/Scrub the scrub menu, Rewind/Filter the guard of
--                               the menu buttons, Rewind/Demos the demo of the attract screen,
--                               Rewind/Games a whole run of a game frame by frame
--   Vfs        src/vfs.c        the mount table, vfs_open and the calls that pass on to a node, with a
--                               file system as a record of its operations
--   Fs         src/fs.c         the table of the console file system, a list of files, and the calls
--                               that read and change it; Fs/Paths its paths
--   Net        src/net.c        the queue of game datagrams, from handle_udp to net_udp_recv, the
--                               cache of hardware addresses; Net/Checksum checksum16
--   Text       src/string.c     num_to_str
--   Base                        shared names, Boolean tests, lists, optional results
--
-- An operation of the C code is a function of the same name, less a prefix for its module, from
-- the state before to the answer and the state after. A pointer is a number; 0 is NULL. Where
-- the C code would write to memory that is not its own, as kfree of a foreign pointer does, the
-- function answers `none`; so do the calls of src/fs.c for a path or a text that does not fit in
-- its buffer, and num_to_str for more digits than its own has room for.
--
-- Machine integers. Additions and subtractions that can wrap in the C code are written with
-- their modulus: size_t in kmalloc and kfree, uint32_t in pmm.c, in the tick counter and in the
-- task ids. The byte counts of a pipe stay within its 4096 bytes and need none. The number of
-- num_to_str is a uint32_t. A score is a number, and 0 stands for every score that
-- session_score_report ignores. The counts that pipe_write answers as int32_t are those of fewer
-- than 2 ^ 31 bytes.
--
-- A mask of buttons is a function from the number of the bit. A sector is a function from the
-- offset to the byte, and the disk one from the sector's number. Sector numbers are taken modulo
-- 2 ^ 32.
--
-- Loops over an array are recursion on the number of rounds left, and always end. Three
-- functions run on fuel, because in the C code they call `schedule` and go round again.
-- `schedule` calls itself after each task that it kills; as many rounds as there are living
-- tasks and one more are enough. `pipe_write` needs two rounds for each byte, and `pipe_read`
-- two in all, if the other tasks make progress when they run. `keyboard_read_blocking` needs a
-- round for each waiting event up to the first character. The digit loop of `num_to_str` runs on
-- fuel 10, one round for each digit of a 32-bit number, and the loop for the carries of
-- `checksum16` on fuel 2. The walk of `vfs_open` takes a character of the path in each round, so
-- that the length of the path is enough. Where src/fat32.c follows a chain, the fuel is one
-- round more than the volume has clusters, or, for a read, a round for each byte; a chain that
-- comes back to a cluster, over which the C code can go round for ever, is followed that far.
--
-- The other tasks and the interrupts, which run in the middle of a blocking call, are a
-- parameter of that call: a function on the state that the call shares with them, under named
-- assumptions (`Reads`, `Writes`, `Types`). The raw hook of the keyboard and the calls of
-- src/fat32.c that the log makes are parameters too. The drive behind src/fat32.c is one that
-- says of each operation, by its number, whether it is carried out; an operation that is not
-- leaves the disk, and a drive without power carries out none. A sector is written whole or not
-- at all. disk_flush has no part in it, for the drive has no cache of its own.
--
-- A game under src/rewind.c is a function, a parameter, from its memory and the two gamepads of
-- a frame to its memory after it: all that a deterministic game of sdk/arcade.c takes in. A
-- snapshot holds that memory in place of the copies of its pages. A demo file is the record of
-- its fields. The loop of the menu that waits for the buttons to be let go has one entry for
-- each round, `none` while they are held.
--
-- Not modelled: assembly (the start-up code, the interrupt stubs, the register switch), port and
-- memory-mapped input and output (disks, USB, sound, network card, display), texts that are only
-- printed, and the user programs. Of src/fs.c, the search and the listing, which print, and the
-- nodes for the virtual file system are left out. Of src/rewind.c, the copying of pages, the
-- pictures and texts of the menu and the transfer of a game to another machine are left out. Of
-- src/fat32.c, the nodes for the virtual file system, the listing of directories and the counter
-- of fat32_busy are left out, as are the checks for NULL and for a volume that is not mounted.
-- Of src/net.c, the two protocols that handle_udp passes datagrams on to are parameters, and the
-- headers of a packet are given by their fields; TCP, the web server and DHCP are not modelled,
-- nor are the device nodes and paging.
pub mod Base
pub mod Heap
pub mod Pmm
pub mod Scheduler
pub mod Tasks
pub mod Ring
pub mod Pipe
pub mod Keyboard
pub mod Session
pub mod Klog
pub mod Text
pub mod Vfs
pub mod Fs
pub mod Gamepad
pub mod Fat32
pub mod Rewind
pub mod Net
