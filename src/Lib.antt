-- ===== src/Lib.antt =====
-- A model of some low level tasks: the C programs of an operating systems course, with theorems.
--
-- The programs are separate. Each has its part of this library; a path below is from the root of the
-- repository.
--
-- Prelude: the names of the libraries that the parts share, Boolean tests, lists, integers.
--
-- Text: bytes, `%d` and `atoi`, and lines of fields with commas.
--
-- System: error numbers, runs that end early, the options that `getopt_long` (a parameter) returns, and
--   the messages that three programs share.
--
-- Timer: `PreciseTimer.c` of projects 2b and 4c. The clock is a parameter, a function from the number of
--   a call to what `clock_gettime` stores, or none where it fails. An operation returns none where the
--   source exits with 2.
--
-- SortedList: `project 2b/SortedList.c` with `SortedList.h` and `ListInfo.h`.
--   Memory has the nodes at addresses and the commands on their fields, `strcmp` included; an access
--   through NULL is a fault. World has the locks, the options and the clock around them. Bodies has
--   the critical sections and Operations the whole functions: `sorted_list_insert` is
--   `SortedList_insert`, and so on. Options has `yield_by`, `sync_by` and the
--   initialisation. Chain says which list the nodes stand for. A loop runs on the
--   rounds that its own test of `limiter` against `num_elements` allows, so no fuel is added. One
--   thread moves at a time: a lock that is held when it is asked for is the outcome `blocked`.
--   `limiter` and `num_elements` are natural numbers: they count nodes in memory.
--
-- Adder: `project 2a/lab2_add.c` from `add_wrapper` on. Worker has the places of a thread and its
--   steps, one shared access each; System interleaves any number of threads in any order. The
--   counter is an integer, and the bounds say how far it goes from 0; the variable of the loops is an
--   `int` that wraps around, so that it never gets to a bound from 2^31 on. Options, Report and Main have
--   `process_args`, `append_csv` and `main` around the threads; numbers that leave an `int` or a `long`
--   are not modelled there.
--
-- ListBench: `project 2b/lab2_list.c`, the program around SortedList. Bins has `get_bin`, Options
--   `process_args`, State the global variables, Threads `list_operations` of one thread (a wait for
--   another one is `blocked`), Main the set-up and the end, Report the line of results. The addresses of
--   the arrays, `rand` and what the threads do together are parameters of `main`.
--
-- OneList: `project 2a/lab2_list.c` and its `SortedList.c`, which are those of 2b with one list and one
--   lock. What becomes of a lock of the mutex when it is destroyed is a parameter. Operations has the list, Options the options and the line of results, Threads and Main the rest;
--   Laws, Counts and Emptied are the proofs about what one thread leaves, InTurn those about threads that
--   run one after the other.
--
-- Console: `project 4b/lab4b.c` with `EdisonSensors.c`. Device has the sensors, the flags and the output,
--   and `report`; the MRAA library, the clock and floating point are the parameter `Board`. Line has
--   `store_buffer` and `process_command` with the C arrays `line_buf`, `proc_buf` and `period`, where an
--   access out of bounds is the outcome `overflow`; Editor has the same keys and commands on a text.
--   Loop has `process_args`, `main` and its rounds, Logged the proofs about its log, Pressed the button.
--   `time_str` and `temp_str` of `report` are the texts written from them, so the terminator that
--   `sprintf` puts behind `time_str` is not in the model.
--
-- NetConsole: `project 4c/lab4c.c`. Connect has the start, Host `report` and the writes to the host, Loop the
--   commands received and the rounds of `main`, Logged the proofs about its log; the arrays and commands
--   are those of Console. The socket, the SSL library and the timers are parameters.
--
-- Ext2: `project 3a/ImgReader.c` with `ImgReader.h`, and `main` of `lab3a.c`. The image is a function
--   from positions to bytes (Image), 0 past its end; a failed `pread` and the offsets that overflow an
--   `int` (images of 2 GiB and more) are not modelled. Free, Inode, Dirent and Indirect have the four
--   readers, each with its theorems below it, and Scan has `scan_image`. The loop over a directory
--   block runs on fuel: 1025 rounds, as a block has 1024 bytes and each entry takes at least one.
--   Csv has `CsvWriter.c`: each printing function as the bytes that it writes, where a line that is
--   longer than its buffer is the outcome `overflow`.
--
-- Copy: `project 0/lab0.c`, its options, the files by their names, and the copy.
--
-- Relay: `project 1b/lab1b-server.c` and `lab1b-client.c`, whose texts are the same: the parameter
--   `is_server` says which of the two runs. Check has `check`, Options `process_option`, Pipes the
--   descriptors of the two processes, Socket the log, the encryption and the shutdown, Loop `poll_inputs`
--   on what `poll` finds in each round, Start `main`. `num_digits` runs for as many rounds as its
--   argument says, which is enough, as each divides by ten. The mcrypt library and the calls of the
--   system are parameters; a write that does not fail writes all its bytes.
--
-- Shell: `project 1a/lab1a.c`, its options, what it does with each character of the keyboard and of the
--   shell, and the status of the shell at its end.
--   Start is `main` up to its loop, on the descriptors of Relay.Pipes.
--
-- Not modelled: what is freed, closed and printed at the exit of the two `lab2_list.c`, the interleaving
-- of their threads, the settings of the terminal and the messages on stderr in 4b, the settings of the
-- terminal, the `execvp` of the shell and the SIGPIPE handler of 1a and what it does at its exit, the
-- moment of a signal and what is closed at the exit in 1b, `print_error.c`, `destroy_sync`, the Ruby and
-- shell scripts, and the code of pthreads, the MRAA and the SSL libraries, which the programs only call.
pub mod Prelude
pub mod Text
pub mod System
pub mod Timer
pub mod SortedList
pub mod Adder
pub mod ListBench
pub mod OneList
pub mod Console
pub mod Ext2
pub mod Relay
pub mod Shell
pub mod NetConsole
pub mod Copy
