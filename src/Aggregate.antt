-- ===== src/Aggregate.antt =====
-- `mpiPi_stats_thr_merge_all` and `mpiPi_stats_thr_reset_all` of mpiP-stats.c.
pub mod Sums
use a_mpi_p.Prelude.{ℕ, ◌+◌, Run, ok, ◌>>=◌}
use a_mpi_p.Globals.{Globals}
use a_mpi_p.Grid.{zero_grid}
use a_mpi_p.ThreadStat.{ThreadStat}
use a_mpi_p.CallRecords.{cs_reset, thr_cs_merge}
use a_mpi_p.Messages.{coll_merge, pt2pt_merge}

-- The sums of a merge, where the call-site records of `dst` are merged already.
add_sums : Globals → (dst src : ThreadStat) → ThreadStat
add_sums g dst src =
    let sums = pt2pt_merge g (coll_merge g dst src) src in
    record sums { cum_time = sums.cum_time + src.cum_time }

-- `mpiPi_stats_thr_merge_all`
unfoldable pub merge_all : Globals → (dst src : ThreadStat) → ℕ → Run (ThreadStat × ℕ)
unfolding add_sums
merge_all g dst src ctr = do
  (dst', ctr') ← thr_cs_merge g dst src ctr
  ok (add_sums g dst' src, ctr')

-- `mpiPi_stats_thr_reset_all`: its line on `pt2pt.time_stats` calls no function
unfoldable pub reset_all : ThreadStat → Run ThreadStat
reset_all s = do
  s' ← cs_reset s
  ok (record s' { coll = record (s'.coll) { time_stats = zero_grid }; cum_time = 0 })
