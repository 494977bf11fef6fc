-- ===== src/Messages.antt =====
-- The message statistics of mpiP-stats.c: what a collective or a point-to-point call adds to the
-- array of its histogram bins, and the merge of two arrays.
pub mod Totals
use a_mpi_p.Prelude.{
  ℕ, ◌+◌, ◌-◌, ◌≡◌, Bool, true, false, not, ◌&&◌, ◌||◌, Option, none, some, List, [], ◌∷◌, ◌++◌,
  if◌then◌else◌, ◌==◌, ltb, ℤ, pos, negsuc, ◌+ℤ◌, is_zero, eqb_ℤ, Run, ok, ◌>>=◌,
}
use a_mpi_p.Hash.{
  HashFns, HashTable, h_open, h_close, h_insert, h_search, h_gather_data, h_drain, write_through,
}
use a_mpi_p.Globals.{Globals}
use a_mpi_p.Callsites.{
  CallsiteStats, zero_stats, stats_cookie, copy_pcs, cs_init, cs_update, cs_merge, cs_reset_stat,
}
use a_mpi_p.Callsites.Keys.{thread_fns, thrd_pc_hashkey, trd_pc_comparator}
use a_mpi_p.Histogram.{Histogram, init_histogram, get_histogram_bin, get_histogram_bin_str}
use a_mpi_p.Grid.{Grid, histcnt, zero_grid, add_at, add_planes}
use a_mpi_p.ThreadStat.{MsgStat, ThreadStat, thr_is_on}

-- `_update_dur_stat`, and `_update_msize_stat` which adds the size in place of the duration;
-- `comm_size` is what `PMPI_Comm_size` gives
abbrev pub update_stat : Globals → MsgStat → (op comm_size size v : ℕ) → MsgStat
update_stat g m op comm_size size v = record m {
  time_stats =
      add_at m.time_stats (op - g.base) (get_histogram_bin m.comm_hist (pos comm_size))
        (get_histogram_bin m.size_hist (pos size)) v;
}

-- `mpiPi_stats_thr_coll_upd`
unfoldable pub coll_upd : Globals → ThreadStat → (op dur size comm_size : ℕ) → ThreadStat
coll_upd g stat op dur size comm_size =
    if not (thr_is_on g stat)
    then stat
    else record stat { coll = update_stat g stat.coll op comm_size size dur }

-- `mpiPi_stats_thr_pt2pt_upd`
unfoldable pub pt2pt_upd : Globals → ThreadStat → (op dur size comm_size : ℕ) → ThreadStat
pt2pt_upd g stat op dur size comm_size =
    if not (thr_is_on g stat)
    then stat
    else record stat { pt2pt = update_stat g stat.pt2pt op comm_size size size }

-- `_merge_msize_stat`
abbrev pub merge_msize : Globals → MsgStat → MsgStat → MsgStat
merge_msize g dst src = record dst { time_stats = add_planes dst.time_stats src.time_stats g.nfunc }

-- `mpiPi_stats_thr_coll_merge` and `mpiPi_stats_thr_pt2pt_merge`
unfoldable pub coll_merge : Globals → (dst src : ThreadStat) → ThreadStat
coll_merge g dst src = record dst { coll = merge_msize g dst.coll src.coll }

unfoldable pub pt2pt_merge : Globals → (dst src : ThreadStat) → ThreadStat
pt2pt_merge g dst src = record dst { pt2pt = merge_msize g dst.pt2pt src.pt2pt }

-- `mpiPi_stats_thr_coll_binstrings` and `mpiPi_stats_thr_pt2pt_binstrings`
unfoldable pub binstrings : MsgStat → (comm_idx size_idx : ℕ) → (ℤ × ℤ) × (ℤ × ℤ)
binstrings m comm_idx size_idx =
    (get_histogram_bin_str m.comm_hist comm_idx, get_histogram_bin_str m.size_hist size_idx)
