-- ===== src/CallRecords.antt =====
-- The call-site records of one thread in mpiP-stats.c: the hash table of records, the trace, and
-- the merge of two tables. A communicator is the translation of its ranks to those of
-- MPI_COMM_WORLD that the MPI library makes, `none` where it is NULL or MPI_COMM_NULL. The static
-- counter of `mpiPi_cs_init` and the lines of the trace file are passed on.
pub mod Table
pub mod Update
pub mod Runs
pub mod Merge
use a_mpi_p.Prelude.{
  ℕ, ◌+◌, ◌-◌, ◌≡◌, Bool, true, false, not, ◌&&◌, ◌||◌, Option, none, some, List, [], ◌∷◌, ◌++◌,
  if◌then◌else◌, ◌==◌, ltb, ℤ, pos, negsuc, ◌+ℤ◌, is_zero, eqb_ℤ, Run, ok, ◌>>=◌,
}
use a_mpi_p.Hash.{
  HashFns, HashTable, h_open, h_close, h_insert, h_search, h_gather_data, h_drain, write_through,
}
use a_mpi_p.Globals.{Globals}
use a_mpi_p.Callsites.{
  CallsiteStats, zero_stats, stats_cookie, copy_pcs, cs_init, cs_update, cs_merge, cs_reset_stat,
}
use a_mpi_p.Callsites.Keys.{thread_fns, thrd_pc_hashkey, trd_pc_comparator}
use a_mpi_p.Histogram.{Histogram, init_histogram, get_histogram_bin, get_histogram_bin_str}
use a_mpi_p.Grid.{Grid, histcnt, zero_grid, add_at, add_planes}
use a_mpi_p.ThreadStat.{MsgStat, ThreadStat, thr_is_on}

-- a line that `emit_trace_p2p` writes
pub record TraceLine : Type 0 where
  pub callsite : ℕ
  pub op : ℕ
  pub dur_us : ℕ
  pub send_size : ℕ
  pub dest_group : ℤ
  pub dest_global : ℤ

-- `tmpCtr` of `mpiPi_cs_init`, and the trace file
pub record Tracing : Type 0 where
  pub tmp_ctr : ℕ
  pub lines : List TraceLine

abbrev pub Comm : Type 0
Comm = Option (ℤ → ℤ)

-- The record that is made for a call site that has none.
unfoldable pub new_record : Globals → (pc : List ℕ) → (op rank ctr : ℕ) → CallsiteStats
unfolding zero_stats cs_init
new_record g pc op rank ctr =
    (cs_init g.full_stack_depth (zero_stats g.stack_depth_max) pc op rank ctr).0

created :
    Globals
    → HashTable CallsiteStats
    → (pc : List ℕ) → (op rank ctr : ℕ) → Option CallsiteStats
    → Run (CallsiteStats × HashTable CallsiteStats × ℕ)
unfolding new_record
created g table pc op rank ctr (some csp) = ok (csp, table, ctr)
created g table pc op rank ctr none = do
  let csp = new_record g pc op rank ctr
  (_, table') ← h_insert (thread_fns g.full_stack_depth) (some table) (some csp)
  ok (csp, table', ctr + 1)

-- The search for a key, and the creation of its record where it fails, which `cs_upd` and
-- `cs_merge` begin with; the counter is the one of `mpiPi_cs_init`.
unfoldable pub find_or_create :
    Globals
    → HashTable CallsiteStats
    → (key : CallsiteStats) → (pc : List ℕ) → (op rank ctr : ℕ)
    → Run (CallsiteStats × HashTable CallsiteStats × ℕ)
unfolding created
find_or_create g table key pc op rank ctr =
    h_search (thread_fns g.full_stack_depth) (some table) (some key)
    >>= created g table pc op rank ctr

-- the local `key` of `mpiPi_stats_thr_cs_upd`; what it leaves unset is taken as zero
unfoldable pub call_key : Globals → (pc : List ℕ) → (op rank : ℕ) → CallsiteStats
unfolding zero_stats copy_pcs
call_key g pc op rank = record (zero_stats g.stack_depth_max) {
  op = op;
  rank = rank;
  cookie = stats_cookie;
  pc = copy_pcs g.full_stack_depth (zero_stats g.stack_depth_max).pc pc;
}

-- The lines of one call: none for a collective one; the global rank where it can be translated.
unfoldable pub trace_call : (tmpid op dur_us send_size : ℕ) → Bool → Comm → ℤ → List TraceLine
trace_call tmpid op dur_us send_size true comm dest = []
trace_call tmpid op dur_us send_size false none dest =
    record {
      callsite = tmpid;
      op = op;
      dur_us = dur_us;
      send_size = send_size;
      dest_group = negsuc 0;
      dest_global = negsuc 0;
    }
    ∷ []
trace_call tmpid op dur_us send_size false (some translate) dest =
    record {
      callsite = tmpid;
      op = op;
      dur_us = dur_us;
      send_size = send_size;
      dest_group = if eqb_ℤ dest (negsuc 0) then negsuc 0 else dest;
      dest_global = if eqb_ℤ dest (negsuc 0) then negsuc 0 else translate dest;
    }
    ∷ []

-- what the wrapper of one MPI call passes
pub record Call : Type 0 where
  pub op : ℕ
  pub rank : ℕ
  pub pc : List ℕ
  pub dur : ℕ
  pub send_size : ℕ
  pub io_size : ℕ
  pub rma_size : ℕ
  pub is_coll : Bool
  pub comm : Comm
  pub dest : ℤ

-- the update that a call makes of its record
abbrev pub update_by : Globals → Call → CallsiteStats → CallsiteStats
update_by g c csp = cs_update csp c.dur c.send_size c.io_size c.rma_size g.message_count_threshold

-- The state after the record `csp` of the call has been found: `now` and `later` are the two
-- readings of the clock, and the counter is the one that creating the record has left.
after_call :
    Globals
    → (now later : ℕ) → ThreadStat
    → Tracing
    → Call
    → CallsiteStats × HashTable CallsiteStats × ℕ
    → ThreadStat × Tracing
unfolding call_key trace_call
after_call g now later stat w c (csp, table, ctr) = (
  record stat {
    cs_stats =
        write_through (thread_fns g.full_stack_depth) table (call_key g c.pc c.op c.rank)
          (update_by g c);
    prev_csid = csp.tmpid;
    prev_time = later;
  },
  record {
    tmp_ctr = ctr;
    lines =
        w.lines
        ++ trace_call csp.tmpid c.op (now - stat.prev_time) c.send_size c.is_coll c.comm c.dest;
  },
)

-- The part of `mpiPi_stats_thr_cs_upd` behind its two early returns.
record_call : Globals → (now later : ℕ) → ThreadStat → Tracing → Call → Run (ThreadStat × Tracing)
unfolding find_or_create after_call
record_call g now later stat w c = do
  found ← find_or_create g stat.cs_stats (call_key g c.pc c.op c.rank) c.pc c.op c.rank w.tmp_ctr
  ok (after_call g now later stat w c found)

-- `mpiPi_stats_thr_cs_upd`
unfoldable pub cs_upd :
    Globals → (now later : ℕ) → ThreadStat → Tracing → Call → Run (ThreadStat × Tracing)
unfolding record_call
cs_upd g now later stat w c =
    if not (thr_is_on g stat)
    then ok (stat, w)
    else if not (c.rank == 0) && not g.trace_all_ranks
    then ok (stat, w)
    else record_call g now later stat w c

-- `mpiPi_stats_thr_cs_gather`
unfoldable pub cs_gather : ThreadStat → Run (ℕ × List CallsiteStats)
cs_gather stat = h_gather_data (some stat.cs_stats)

-- `mpiPi_stats_thr_cs_reset`
unfoldable pub cs_reset : ThreadStat → Run ThreadStat
cs_reset stat = do (_, table) ← h_drain (some stat.cs_stats); ok (record stat { cs_stats = table })

-- The loop of `mpiPi_stats_thr_cs_merge` over the gathered records.
unfoldable pub merge_records :
    Globals → List CallsiteStats → HashTable CallsiteStats → ℕ → Run (HashTable CallsiteStats × ℕ)
merge_records g [] table ctr = ok (table, ctr)
merge_records g (src ∷ av) table ctr = do
  (_, table', ctr') ← find_or_create g table src src.pc src.op src.rank ctr
  merge_records g av
      (write_through (thread_fns g.full_stack_depth) table' src (λ dst. cs_merge dst src)) ctr'

-- `mpiPi_stats_thr_cs_merge`
unfoldable pub thr_cs_merge : Globals → (dst src : ThreadStat) → ℕ → Run (ThreadStat × ℕ)
unfolding merge_records
thr_cs_merge g dst src ctr = do
  (_, av) ← cs_gather src
  (table, ctr') ← merge_records g av dst.cs_stats ctr
  ok (record dst { cs_stats = table }, ctr')

-- the minima of a record that stands for no call, unless the caller wants DBL_MAX there
zero_minima : Bool → CallsiteStats → CallsiteStats
zero_minima true r = r
zero_minima false r = record r { min_dur = 0; min_data_sent = 0; min_io = 0 }

-- `mpiPi_stats_thr_cs_lookup`: the record of the table, or the caller's buffer made empty
unfoldable pub cs_lookup :
    Globals
    → ThreadStat
    → (task_stats dummy_buf : CallsiteStats) → (init_max : Bool) → Run CallsiteStats
unfolding zero_minima
cs_lookup g stat task_stats dummy_buf init_max = do
  found ← h_search (thread_fns g.full_stack_depth) (some stat.cs_stats) (some task_stats)
  ok (elim found [
    | some r ↦ r
    | none ↦ record (zero_minima init_max (cs_reset_stat dummy_buf)) { rank = g.rank }
  ])
