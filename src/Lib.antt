-- ===== src/Lib.antt =====
-- mpiP is a profiler for MPI programs. It wraps the MPI calls of a program, keeps statistics for
-- every call site in every thread, merges the threads of a task when a report is made, and collects
-- the records of all tasks at one of them. The files named below stand at the root of the
-- repository.
--
-- How the parts interact. A generated wrapper takes the stack and the time of an MPI call and
-- passes both to the statistics of its thread (mpiP-stats.c). These hold a hash table (mpiP-hash.c)
-- of records (mpiP-callsites.c), keyed by operation, rank and stack, and two arrays of message
-- statistics that are indexed by histogram bins. In a multi-threaded task the states of the threads
-- hang in a lock-free list (mpiP-tslist.c), over which a report walks to merge them into one state.
--
-- Which file models what:
--   Prelude      shared names, Boolean tests, lists, signed integers, and runs that may abort
--   Chain        the loops of mpiP-hash.c over one chain
--   Hash         mpiP-hash.c: h_open, h_close, h_count, h_insert, h_search, h_delete, h_gather_data,
--                h_drain under their names; Hash/Buckets has the invariant and the view as a map
--   Globals      the settings of the global mpiPi (mpiPi.h)
--   Callsites    mpiP-callsites.c: mpiPi_cs_init, _reset_stat, _update and _merge on one record;
--                Callsites/Keys has the hash keys and comparators of mpiP-stats.c and mpiPi.c
--   Histogram    mpiP-stats.c: get_histogram_bin, init_histogram, get_histogram_bin_str
--   Grid         the arrays time_stats and the loops that merge two of them
--   ThreadStat   mpiP-stats.c: the state of a thread, mpiPi_stats_thr_init, _fini, the timers, the
--                nesting switch
--   CallRecords  mpiP-stats.c: mpiPi_stats_thr_cs_upd, _cs_gather, _cs_reset, _cs_merge, _cs_lookup
--   Messages     mpiP-stats.c: mpiPi_stats_thr_coll_upd, _coll_merge, _pt2pt_upd, _pt2pt_merge
--   Aggregate    mpiP-stats.c: mpiPi_stats_thr_merge_all and mpiPi_stats_thr_reset_all
--   TsList       mpiP-tslist.c, with the loops over the list of mpiP-mt-stats.c
--   AddrRanges   pc_lookup_dwarf.c: struct AddrRangeMap, its rotations, _Init, _Add, _Find and _Destroy
--   Dwarf        pc_lookup_dwarf.c: UniqueFileName_Get, AddrToSourceMap_Add, _PatchRanges, FunctionMap_Add,
--                HandleFunctionDIE, open_dwarf_executable, close_dwarf_executable, mpiP_find_src_loc
--   Regions      mpiP-API.c: mpiP_region_enter and mpiP_region_exit
--   Options      util.c: mpiPi_getenv and GetBaseAppName, with the defaults of mpiPi_init (mpiPi.c);
--                Options/Scan has strtok, getopt and atoi
--   Threads      mpiP-mt-stats.c: mpiPi_stats_mt_init, _gettls, _merge and the timers; Threads/Calls has
--                the operations on one handler, _cs_reset and _fini
--   Sources      mpiP-callsites.c: mpiPi_query_pc, mpiPi_query_src, mpiPi_cs_cache_init and caches
--   Collector    mpiPi.c: mpiPi_insert_callsite_records, mpiPi_insert_MPI_records, mpiPi_mergeResults
--   Report       report.c: the comparators; Report/Top the sections on the top twenty, Report/Sites those
--                with all records, Report/Concise those by call site, Report/Collective those that all
--                tasks make together (mpiPi_coll_*), Report/Profile mpiPi_profile_print, Report/Stacks
--                mpiPi_print_callsites
--   Control      pcontrol.c: mpiPi_MPI_Pcontrol and mpiPi_reset_callsite_data; mpiPi_generateReport
--   Tests        examples of the theorems, and runs at concrete inputs
--
-- Conventions. A function has the name of the C function less its prefix mpiPi_, mpiPi_stats_ or
-- mpiPi_tslist_; a field has its C name in lower case. State is passed in and returned. A pointer
-- that may be NULL is an Option, an abort is a `Run` with its message, and memory can always be
-- allocated. A depth above the length of the stack arrays, which no setting leaves, writes behind
-- them. The callbacks of a table are a parameter of its operations, since nothing changes them. A
-- double is a natural number of a fixed unit, as the values are durations and sizes that are not
-- negative; sums are exact. Addresses, ids and counters are natural numbers, hash values and
-- histogram labels have their 32-bit wrap. The asserts on the cookie of a record, which every
-- record carries, are left out, and those that a sum is not negative hold. What MPI does is an
-- argument: the translation of ranks of a communicator, its size, the clock. What a local record
-- leaves unset is taken as zero. The threshold of reports is in thousandths of a percent, `atof` is
-- an argument, and `atoi` reads numbers that an int can hold. A report is a list of lines with the
-- values that are printed, where a mean or a percentage is given by its operands.
--
-- Bounds. Loops over arrays and chains are structural recursions. The loops over the thread list
-- have fuel, and one round more than there are elements is enough; the waiting loop of a dequeue
-- has fuel because it need not end. The balancing of the address ranges and the walks through them
-- are recursions over the tree or over the path to its root. The loops over tasks and array cells
-- count down the rounds that are left.
--
-- Not modelled: the layout of reports, their header and the deviations (report.c); the lookup by
-- libbfd (pc_lookup.c) and stack walking (record_stack.c), which are output or calls of other
-- libraries; what libdwarf answers, which is an argument; the generated wrappers; timers and atomic
-- instructions (mpip_timers, arch); the start of the tool, and the calls of its API but for the
-- regions; the exchange of messages between tasks.
pub mod Prelude
pub mod Chain
pub mod Hash
pub mod Globals
pub mod Callsites
pub mod Histogram
pub mod Grid
pub mod ThreadStat
pub mod CallRecords
pub mod Messages
pub mod Aggregate
pub mod TsList
pub mod AddrRanges
pub mod Collector
pub mod Control
pub mod Dwarf
pub mod Options
pub mod Regions
pub mod Report
pub mod Sources
pub mod Threads
pub mod Tests
