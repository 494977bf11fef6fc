-- ===== src/Options/Settled.antt =====
-- What every setting of the environment variable MPIP leaves of the limits that the other parts
-- rely on.
use a_mpi_p.Prelude.{ℕ, ◌+◌, ◌≤◌, ◌<◌, ◌≡◌, ℤ, pos}
use a_mpi_p.Options.{Build, Settings}

-- a table size of at least 2
abbrev pub IsTableSize : ℤ → Type 0
IsTableSize size = (n : ℕ) × (size ≡ pos n) × (2 ≤ n)

-- from 0 below 100 percent
abbrev pub IsThreshold : ℤ → Type 0
IsThreshold threshold = (n : ℕ) × (threshold ≡ pos n) × (n < 100000)

pub record IsSettled (b : Build) (s : Settings) : Type 0 where
  pub table_size : IsTableSize s.globals.table_size
  pub depth : s.globals.report_stack_depth ≤ b.report_depth_max
  pub full : s.globals.full_stack_depth ≡ s.globals.report_stack_depth + b.internal_depth
  pub arrays : s.globals.full_stack_depth ≤ s.globals.stack_depth_max
  pub room : s.globals.stack_depth_max ≡ b.report_depth_max + b.internal_depth
  pub threshold : IsThreshold s.report_print_threshold
