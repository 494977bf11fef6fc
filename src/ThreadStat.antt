-- ===== src/ThreadStat.antt =====
-- The per-thread state `mpiPi_thread_stat_t` of mpiP-stats.h, with its initialisation, its timer
-- and the switch against nested calls, of mpiP-stats.c. Times are microseconds of a clock that does
-- not run backwards; the readings of the clock are arguments.
use a_mpi_p.Prelude.{
  ℕ, ◌+◌, ◌-◌, Bool, true, false, ◌&&◌, none, some, ℤ, pos, negsuc, ◌+ℤ◌, is_zero, Run, ok, ◌>>=◌,
}
use a_mpi_p.Hash.{HashTable, h_open, h_close}
use a_mpi_p.Globals.{Globals}
use a_mpi_p.Callsites.{CallsiteStats}
use a_mpi_p.Callsites.Keys.{thrd_pc_hashkey, trd_pc_comparator}
use a_mpi_p.Histogram.{Histogram, init_histogram}
use a_mpi_p.Grid.{Grid, histcnt, zero_grid}

-- `mpiPi_msg_stat_t`
pub record MsgStat : Type 0 where
  pub comm_hist : Histogram
  pub size_hist : Histogram
  pub time_stats : Grid

-- `mpiPi_thread_stat_t`
pub record ThreadStat : Type 0 where
  pub disabled : ℤ
  pub ts_start : ℕ
  pub ts_end : ℕ
  pub cum_time : ℕ
  pub prev_csid : ℕ
  pub prev_time : ℕ
  pub cs_stats : HashTable CallsiteStats
  pub coll : MsgStat
  pub pt2pt : MsgStat

set_up_hist : Bool → MsgStat → MsgStat
set_up_hist false m = record m { time_stats = zero_grid }
set_up_hist true m = record m {
  time_stats = zero_grid;
  comm_hist = init_histogram m.comm_hist 7 histcnt none;
  size_hist = init_histogram m.size_hist 7 histcnt none;
}

-- the state that `mpiPi_stats_thr_init` leaves, with the table that it has opened
unfoldable pub initialised : Globals → ThreadStat → HashTable CallsiteStats → ThreadStat
unfolding set_up_hist
initialised g stat table = record stat {
  cs_stats = table;
  coll = set_up_hist g.do_collective_stats_report stat.coll;
  pt2pt = set_up_hist g.do_pt2pt_stats_report stat.pt2pt;
}

-- `mpiPi_stats_thr_init`
unfoldable pub thr_init : Globals → ThreadStat → Run ThreadStat
unfolding initialised
thr_init g stat = do
  (_, table) ←
      h_open g.table_size (some (thrd_pc_hashkey g.full_stack_depth))
        (some (trd_pc_comparator g.full_stack_depth))
  ok (initialised g stat table)

-- `mpiPi_stats_thr_fini`
unfoldable pub thr_fini : ThreadStat → Run (Unit {0})
thr_fini stat = h_close (some stat.cs_stats)

-- `mpiPi_stats_thr_timer_start` and `mpiPi_stats_thr_timer_stop`, at a reading of the clock
unfoldable pub timer_start : ℕ → ThreadStat → ThreadStat
timer_start now s = record s { ts_start = now }

unfoldable pub timer_stop : ℕ → ThreadStat → ThreadStat
timer_stop now s = record s {
  ts_end = now;
  cum_time = s.cum_time + (now - s.ts_start);
  prev_csid = 0;
  prev_time = now;
}

-- `mpiPi_stats_thr_exit` and `mpiPi_stats_thr_enter`
unfoldable pub thr_exit : ThreadStat → ThreadStat
thr_exit stat = record stat { disabled = stat.disabled +ℤ pos 1 }

unfoldable pub thr_enter : ThreadStat → ThreadStat
thr_enter stat = record stat { disabled = stat.disabled +ℤ negsuc 0 }

-- `mpiPi_stats_thr_is_on`
unfoldable pub thr_is_on : Globals → ThreadStat → Bool
thr_is_on g stat = is_zero stat.disabled && g.enabled

-- `mpiPi_stats_thr_cum_time`
unfoldable pub thr_cum_time : ThreadStat → ℕ
thr_cum_time s = s.cum_time
