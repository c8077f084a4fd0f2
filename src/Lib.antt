-- ===== src/Lib.antt =====
-- kuu: a model of the parts of the kuu runtime that decide things by themselves.
--
-- kuu is one Windows executable: a Lua 5.4 interpreter with modules in C (src/*.c), an event loop
-- on a completion port (src/loop.c) that resumes coroutines, and Lua code on top (lua/). A script
-- calls a module; a call that must wait parks its coroutine on a waiter with a timer, and the loop
-- fires timers, takes completions and resumes. Programs are launched from arguments that
-- src/cmdline.c makes into command lines; the text module converts what they print.
--
-- Cmdline and its children: src/cmdline.c. Cmdline.Buffer has the growing buffer `sb_t` (sb_init,
-- sb_ensure, sb_puts, sb_putc; the same names), with malloc and realloc as a test on sizes;
-- Cmdline.Escape has ku_escape_arg and ku_make_cmdline, and Cmdline.Batch ku_is_batch_target,
-- append_batch_arg and ku_make_batch_cmdline. Cmdline.Convention is the argument convention of
-- CommandLineToArgvW, written for this development from its documentation, and Cmdline.Shell what cmd.exe leaves alone
-- on a line; the theorems relate the code to these two. A C string is its bytes without the NUL.
--
-- Timers and its children: the timer heap of src/loop.c (heap_swap, heap_up, heap_down,
-- ku_timer_init, ku_timer_arm, ku_timer_cancel, fire_due_timers; the same names without `ku_`).
-- A timer is a number, the array of the heap and the fields of the timers are functions. The loop
-- of heap_up has `i` rounds of fuel from index `i`, that of heap_down `len` rounds, and that of
-- fire_due_timers one round more than there are timers: an index falls or rises in each round, and
-- each round removes a timer.
--
-- Launch and its children: src/launch.c. Launch has ku_resolve_exe and its searches (the same names
-- without `ku_`), Launch.Block ku_env_block, and Launch.Handles the duplication of handles in
-- launch_common. Launch.Entries and Launch.Quotes are about the entries of PATH, Launch.Candidates says
-- what a name stands for. What Windows answers is the records Launch.Host and Launch.Block.System; qsort is given env_compare, and permutes and sorts by it. The search has
-- a round for each unit of PATH, and each takes one at least.
--
-- Loop and its children: the rest of src/loop.c, over that heap. Loop has the ready queue, requests and
-- waiters, Loop.Waiting ku_wait and wait_finish, Loop.Pump resume_driver, drain_ready, dispatch,
-- pump_once and ku_loop_run (the same names without `ku_`). What coroutines and owners do is the record
-- Loop.Pump.World, and Loop.Rounds.IsFair that they change the loop by its operations alone, which Loop.Steps
-- shows to be harmless. The loops that run coroutines need not end; fuel bounds them, and `none` is the
-- result of those that it ends. The hook on_wake is multi_sub_woken of src/proc.c, the one that there is, with
-- its multi_wait; a timer that is not a waiter's, as those of src/proc.c and src/http.c, fires a function of World.
--
-- Deadlines and its children: src/deadline.c (scope_enter, scope_close, ku_deadline_current as
-- deadline_current), against a stack of instants for each coroutine.
--
-- Locks and its children: src/sync.c (l_sync_try as sync_try, lock_release, forget_held), with the work
-- of the collector as steps beside the calls. What Windows' mutexes answer is an argument of sync_try.
--
-- Text and its children: src/text.c, and ku_utf8_valid of src/wintext.c. Text.Base64, Text.Hex and
-- Text.Trim have the functions of those names, Text.Wide has to_wide and from_wide, Text.Encoding
-- has resolve_encoding, text.decode, text.encode. What Windows does in a conversion is the record
-- Text.Wide.Windows, and the hypothesis Text.Encoding.RoundTrip.IsLossless is what Windows documents of UTF-8.
-- Arguments arrive as bytes, without the Lua stack.
--
-- FsPath and its children: src/fspath.c (ku_wpath_make, ku_wpath_join, ku_wpath_show, ku_fs_code; the
-- same names without `ku_`), over the record Win32 of what Windows and the C library answer. The
-- loop that strips separators has a round for each unit.
--
-- FsWatch and its children: src/fs_watch.c. FsWatch has the queue and the line of readers,
-- FsWatch.Batch the parsing of what Windows reports, FsWatch.Drain the coalescing, FsWatch.Live the
-- entry points and the relation of their steps. The loop of parse_batch has a round for each byte,
-- and moves by twelve bytes at the least.
--
-- WinText: the conversions of C strings and the system messages of src/wintext.c.
--
-- Zone and its child: parse_offset and offset_text of src/time.c. The rest of that file is not
-- modelled.
--
-- Re and its children: src/re.c, with PCRE2 as the field `run` of a pattern and as the parameter of
-- Re.Cache. Re has find, match and exec, Re.Scan next_match, Re.Expand and Re.Replace gsub, Re.Split
-- split, Re.Cache the table of compiled patterns, Re.Escape escape, Re.Functions the functions of the
-- module. Re.IsLawful is what PCRE2 documents of a match. next_match has fuel for two rounds, gsub and
-- split for a round for each match that a scan of the subject can find and one more.
--
-- Not modelled: the rest of launch_common and processes, files, the network, the registry and services, the
-- binding of JSON, and the Lua code; most of it is calls of Windows.
--
pub mod Prelude
pub mod Cmdline
pub mod FsPath
pub mod FsWatch
pub mod Zone
pub mod Launch
pub mod Deadlines
pub mod Locks
pub mod Loop
pub mod Re
pub mod Timers
pub mod Text
pub mod WinText
