-- ===== src/Tests.antt =====
-- Data for the tests and the examples: a run of four tasks with small tables, and its calls.
mod Records
mod Tables
mod Queues
mod Shared
mod Reports
mod Printing
mod Settings
mod Addresses
mod Flags
use a_mpi_p.Prelude.{
  ℕ, ◌≤◌, ◌≡◌, refl, true, none, List, [], ◌∷◌, arith, ℤ, pos, negsuc, Bool, false,
}
use a_mpi_p.Globals.{Globals}
use a_mpi_p.Callsites.{CallsiteStats, zero_stats}
use a_mpi_p.Callsites.Keys.{thread_fns, thread_fns-IsHashable}
use a_mpi_p.Hash.{HashTable, empty_table}
use a_mpi_p.Hash.Buckets.{empty_table-IsValid}
use a_mpi_p.Hash.Insert.{h_insert-Inserted}
use a_mpi_p.Histogram.{Histogram}
use a_mpi_p.Histogram.Bins.{set_up}
use a_mpi_p.Grid.{zero_grid}
use a_mpi_p.ThreadStat.{MsgStat, ThreadStat, thr_is_on}
use a_mpi_p.CallRecords.{Call, Tracing}
use a_mpi_p.CallRecords.Table.{IsTable}

abbrev pub job : Globals
job = record {
  rank = 0;
  size = 4;
  collector_rank = 0;
  enabled = true;
  table_size = pos 5;
  report_stack_depth = 1;
  full_stack_depth = 2;
  stack_depth_max = 3;
  calc_cov = true;
  do_lookup = false;
  message_count_threshold = pos 64;
  collective_report = false;
  do_collective_stats_report = true;
  do_pt2pt_stats_report = true;
  trace_all_ranks = false;
  base = 1000;
  nfunc = 60;
}

abbrev pub histogram : Histogram
histogram = set_up (record { first_bin_max = 0; hist_size = 0; bin_intervals = none })

abbrev pub messages : MsgStat
messages = record { comm_hist = histogram; size_hist = histogram; time_stats = zero_grid }

abbrev pub no_records : HashTable CallsiteStats
no_records = empty_table 5

-- a thread that has made no call
abbrev pub idle : ThreadStat
idle = record {
  disabled = pos 0;
  ts_start = 100;
  ts_end = 0;
  cum_time = 0;
  prev_csid = 0;
  prev_time = 100;
  cs_stats = no_records;
  coll = messages;
  pt2pt = messages;
}

pub no_records-IsTable : IsTable job no_records
no_records-IsTable = empty_table-IsValid (thread_fns 2) 5 (omega arith)

pub idle_on : thr_is_on job idle ≡ true
unfolding thr_is_on
idle_on = refl

abbrev pub untraced : Tracing
untraced = record { tmp_ctr = 1; lines = [] }

abbrev pub site : List ℕ
site = 4096 ∷ 8192 ∷ 0 ∷ []

-- a send and a collective call of rank 0, and a call of another rank
abbrev pub send : Call
send = record {
  op = 1010;
  rank = 0;
  pc = site;
  dur = 7;
  send_size = 128;
  io_size = 0;
  rma_size = 0;
  is_coll = false;
  comm = none;
  dest = pos 1;
}

abbrev pub barrier : Call
barrier = record send { op = 1020; send_size = 0; is_coll = true; dest = negsuc 0 }

abbrev pub foreign : Call
foreign = record send { rank = 2 }

-- a record and its key
abbrev pub send_record : CallsiteStats
send_record = record (zero_stats 3) { op = 1010; pc = site; count = 2; cumulative_time = 9 }

-- a thread whose table holds that record
abbrev pub busy : ThreadStat
busy = record idle {
  cum_time = 40;
  cs_stats =
      (h_insert-Inserted (thread_fns 2) (thread_fns-IsHashable 2) no_records no_records-IsTable
        send_record).0.1;
}

pub busy-IsTable : IsTable job busy.cs_stats
busy-IsTable =
    (h_insert-Inserted (thread_fns 2) (thread_fns-IsHashable 2) no_records no_records-IsTable
      send_record).2.valid
