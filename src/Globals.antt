-- ===== src/Globals.antt =====
-- The fields of the global `mpiPi_t mpiPi` of mpiPi.h (declared in glob.c) that the modelled
-- functions read as settings, with the constants of the configured build.
use a_mpi_p.Prelude.{ℕ, Bool, ℤ}

pub record Globals : Type 0 where
  pub rank : ℕ
  pub size : ℕ
  pub collector_rank : ℕ
  -- `mpiPi.enabled`, set by `MPI_Pcontrol` and the option -o
  pub enabled : Bool
  pub table_size : ℤ
  pub report_stack_depth : ℕ
  pub full_stack_depth : ℕ
  -- MPIP_CALLSITE_STACK_DEPTH_MAX, the length of the stack arrays
  pub stack_depth_max : ℕ
  pub calc_cov : Bool
  pub do_lookup : Bool
  pub message_count_threshold : ℤ
  pub collective_report : Bool
  pub do_collective_stats_report : Bool
  pub do_pt2pt_stats_report : Bool
  -- `traceAllRanks` of util.c
  pub trace_all_ranks : Bool
  -- `mpiPi_BASE` of the generated mpiPi_def.h
  pub base : ℕ
  -- `MPIP_NFUNC`, the number of operations of mpiPi_def.h
  pub nfunc : ℕ
