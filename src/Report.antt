-- ===== src/Report.antt =====
-- The reports of report.c at the collecting task, as lists of lines. A line has the values that are
-- printed; a mean and a percentage are given by their operands, the name of an operation by its
-- number. The layout, the headings of columns, the header of a report and the coefficient of
-- variation are left out. `qsort` is the parameter `sort`, and memory can be allocated.
pub mod Top
pub mod Ranks
pub mod Sites
pub mod Totals
pub mod Concise
pub mod Collective
pub mod Profile
pub mod Spans
pub mod Sections
pub mod Arrays
pub mod Summaries
pub mod Stacks
pub mod Frames
use Prim.Native.String.{String}
use a_mpi_p.Prelude.{
  ℕ, zero, suc, Bool, Option, none, some, List, ltb, if◌then◌else◌, Run, ok, ◌>>=◌, ℤ, pos, negsuc,
}
use a_mpi_p.Hash.{HashTable, h_gather_data}
use a_mpi_p.Globals.{Globals}
use a_mpi_p.Grid.{Grid}
use a_mpi_p.Callsites.{Text, CallsiteStats}
use a_mpi_p.Collector.{Collected}
use a_mpi_p.Sources.{strcmp}

-- what the reports read of `mpiPi`: with the tables of the collector, the times of the application,
-- `reportPrintThreshold` in thousandths of a percent, `callsite_src_id_cache->count`, the number of
-- tasks, the report style and the names of the operations
pub record Report : Type 0 where
  pub collected : Collected
  pub mpi_stats_agg : Option (HashTable CallsiteStats)
  pub global_app_time : ℕ
  pub task_app_time : ℕ → ℕ
  pub print_threshold : ℕ
  pub src_id_count : ℕ
  pub coll_time_stats : Grid
  pub pt2pt_send_stats : Grid
  pub print_callsite_detail : Bool
  pub op_name : ℕ → Text

-- `mpiPi_callsite_summary_t`; a rank that is not set is `none`
pub record SiteSummary : Type 0 where
  pub name : ℕ
  pub site : ℕ
  pub tasks : ℕ
  pub largest : ℕ
  pub smallest : ℕ
  pub cumulative : ℕ
  pub max_rnk : Option ℕ
  pub min_rnk : Option ℕ

-- the values of one line
pub data Line : Type 0 where
  heading : String → (number : Option ℕ) → Line
  message : String → Line
  blank : Line
  site_line : (op csid value count : ℕ) → Line
  threshold_line : (count total : ℕ) → Line
  cell_line : (op comm size value : ℕ) → Line
  rank_line : (op csid rank count largest sum smallest : ℕ) → Line
  summary_line : (op csid count largest sum smallest : ℕ) → Line
  concise_line : SiteSummary → Line
  task_line : (label : String) → (app mpi : ℕ) → Line
  extreme_line : (label : String) → (app mpi : ℕ) → (app_rank mpi_rank : Option ℕ) → Line

-- a descending order by a value
abbrev pub descending {ℓ} : {A : Type ℓ} → (A → ℕ) → A → A → ℤ
descending f a b = if ltb (f a) (f b) then pos 1 else if ltb (f b) (f a) then negsuc 0 else pos 0

unfoldable pub sort_by_cumulative_time : CallsiteStats → CallsiteStats → ℤ
sort_by_cumulative_time = descending (λ a. a.cumulative_time)

unfoldable pub sort_by_cumulative_size : CallsiteStats → CallsiteStats → ℤ
sort_by_cumulative_size = descending (λ a. a.cumulative_data_sent)

unfoldable pub sort_by_cumulative_io : CallsiteStats → CallsiteStats → ℤ
sort_by_cumulative_io = descending (λ a. a.cumulative_io)

unfoldable pub sort_by_cumulative_rma : CallsiteStats → CallsiteStats → ℤ
sort_by_cumulative_rma = descending (λ a. a.cumulative_rma)

-- callsite_stats_sort_by_cumulative
unfoldable pub sort_by_cumulative : SiteSummary → SiteSummary → ℤ
sort_by_cumulative = descending (λ a. a.cumulative)

-- one comparison, and the next one if it gives 0
unfoldable pub or_next : ℤ → ℤ → ℤ
or_next (pos zero) next = next
or_next (pos (suc n)) next = pos (suc n)
or_next (negsuc n) next = negsuc n

-- express (f)
unfoldable pub ascending {ℓ} : {A : Type ℓ} → (A → ℕ) → A → A → ℤ
ascending f a b = if ltb (f b) (f a) then pos 1 else if ltb (f a) (f b) then negsuc 0 else pos 0

-- callsite_sort_by_name_id_rank
unfoldable pub sort_by_name_id_rank : (ℕ → Text) → CallsiteStats → CallsiteStats → ℤ
unfolding or_next ascending
sort_by_name_id_rank name a b =
    or_next (strcmp (name a.op) (name b.op))
      (or_next (ascending (λ c. c.csid) a b) (ascending (λ c. c.rank) a b))

-- `qsort` with a comparator
abbrev pub Sort : Type 0
Sort = (CallsiteStats → CallsiteStats → ℤ) → List CallsiteStats → List CallsiteStats

-- h_gather_data (mpiPi.global_callsite_stats, …), and qsort by name, id and rank
unfoldable pub gather_sites : Sort → Report → Run (List CallsiteStats)
gather_sites sort r = do
  (_, av) ← h_gather_data (some (r.collected.callsite_stats))
  ok (sort (sort_by_name_id_rank r.op_name) av)

-- the aggregate records, by call site or by operation
unfoldable pub gather_aggregate : Globals → Report → Run (List CallsiteStats)
gather_aggregate g r = do
  (_, av) ← h_gather_data (
      if ltb 0 (g.report_stack_depth)
      then some (r.collected.callsite_stats_agg)
      else r.mpi_stats_agg)
  ok av
