-- ===== src/Collector/Results.antt =====
-- `mpiPi_mergeResults` of mpiPi.c at the collecting task.
use a_mpi_p.Prelude.{ℕ, ◌+◌, ◌≡◌, true, ◌==◌, List}
use a_mpi_p.Chain.{matches}
use a_mpi_p.Globals.{Globals}
use a_mpi_p.Callsites.{CallsiteStats}
use a_mpi_p.Callsites.Keys.{src_id_fns}
use a_mpi_p.CallRecords.Runs.{count_in, time_in}
use a_mpi_p.Sources.{SrcLoc}
use a_mpi_p.Sources.Lookup.{Sources}
use a_mpi_p.Collector.{Collected}
use a_mpi_p.Collector.Inserts.{sum_where, agg_of, IsCollected}
use a_mpi_p.Collector.All.{AllLocated}

module _ (g : Globals) (find : ℕ → SrcLoc) where
  -- what a report has collected from the records `ps`, which are located as `qs`
  pub record Merged (ps : List CallsiteStats) (c : Collected) (r : ℕ × Collected × Sources)
      : Type 0 where
    pub code : r.0 ≡ 1
    pub qs : List CallsiteStats
    pub located : AllLocated ps qs
    pub valid : IsCollected r.1
    pub counts :
        (q : CallsiteStats)
        → count_in (agg_of r.1 q) ≡ sum_where (λ p. matches src_id_fns.hc p q) (λ p. p.count) qs
    pub times :
        (q : CallsiteStats)
        → time_in (agg_of r.1 q)
          ≡ sum_where (λ p. matches src_id_fns.hc p q) (λ p. p.cumulative_time) qs
    pub mpi_time : r.1.mpi_time ≡ sum_where (λ p. true) (λ p. p.cumulative_time) qs
    pub mpi_size : r.1.mpi_size ≡ sum_where (λ p. true) (λ p. p.cumulative_data_sent) qs
    pub task_time :
        (t : ℕ)
        → r.1.task_mpi_time t
          ≡ c.task_mpi_time t + sum_where (λ p. t == p.rank) (λ p. p.cumulative_time) qs
