-- ===== src/Tests/Flags.antt =====
-- The theorem on `MPI_Pcontrol` at a single-threaded task that disables the profiling twice.
use a_mpi_p.Prelude.{ℕ, refl, Bool, true, false, none, List, [], ◌∷◌}
use a_mpi_p.Threads.{mode_st, MtStat}
use a_mpi_p.TsList.{create}
use a_mpi_p.Grid.{zero_grid}
use a_mpi_p.Control.{Control, Delivery}
use a_mpi_p.Control.Intervals.{run_flags, Measured, run_flags-Measured}
use a_mpi_p.Tests.{job, idle}
use a_mpi_p.Tests.Reports.{lines, caches, nothing}

abbrev alone : MtStat
alone = record {
  mode = mode_st;
  rank_stats = idle;
  tls_list = create 10;
  handlers = λ a. record { is_active = false; stat = idle };
  tls_this = λ t. none;
}

abbrev control : Control
control = record {
  mt = alone;
  enabled = true;
  enabled_count = 1;
  cumulative_time = 0;
  app_time = 0;
  sources = caches;
  collected = nothing;
  mpi_stats_agg = none;
  coll_time_stats = zero_grid;
  pt2pt_send_stats = zero_grid;
  tmp_ctr = 1;
}

abbrev delivery : Delivery
delivery = record {
  stopped = 0;
  started = 0;
  total = 0;
  remote = [];
  sort = λ av. av;
  find = lines;
  reduce_coll = λ grid. grid;
  reduce_pt2pt = λ grid. grid;
}

abbrev flags : List (Bool × ℕ)
flags = (false, 130) ∷ (false, 150) ∷ (true, 200) ∷ (false, 210) ∷ []

run_flags-Measured_example : Measured flags control (run_flags job delivery 1 flags control)
run_flags-Measured_example = run_flags-Measured job delivery 1 flags control refl
