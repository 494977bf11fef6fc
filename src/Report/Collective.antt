-- ===== src/Report/Collective.antt =====
-- The sections of report.c that all tasks make together, at the collecting task. What MPI delivers
-- is an argument: `tasks` gives the records that PMPI_Gather collects for a call site, one of each
-- task, and `Reduce` has the reductions MPI_MINLOC, MPI_MAXLOC and MPI_SUM.
-- The record of a task has the operation of the call site, and the total time of a task with calls
-- is not 0. The rank that the source writes into the aggregate records is left out.
use a_mpi_p.Prelude.{
  ℕ, ◌*◌, ◌&&◌, none, some, List, [], ◌∷◌, ◌++◌, map, ltb, leb, if◌then◌else◌, Run, ok, ◌>>=◌,
  length, to_nat, ℤ,
}
use Prim.Native.String.{String}
use a_mpi_p.Hash.{h_gather_data}
use a_mpi_p.Callsites.{dbl_max, CallsiteStats}
use a_mpi_p.Report.{
  Report, Line, heading, blank, rank_line, concise_line, Sort, sort_by_name_id_rank,
  sort_by_cumulative_time, sort_by_cumulative_size, sort_by_cumulative_io, sort_by_cumulative_rma,
  summary_line,
}
use a_mpi_p.Report.Sites.{
  Measure, time, sent, io, rma, Tally, zero_tally, add_tally, above_threshold,
}

-- the aggregate records in the order of a comparator
unfoldable pub gather_sorted :
    Sort → (CallsiteStats → CallsiteStats → ℤ) → Report → Run (List CallsiteStats)
gather_sorted sort cmp r = do
  (_, av) ← h_gather_data (some (r.collected.callsite_stats_agg))
  ok (sort cmp av)

-- the line of one task for the call site `site`
abbrev pub task_line_of : Measure → (site : CallsiteStats) → CallsiteStats → Line
task_line_of m site a =
    rank_line site.op site.csid a.rank a.count (m.largest a) (m.amount a) (m.smallest a)

-- the loop over the tasks of mpiPi_coll_print_all_callsite_time_info
unfoldable pub coll_time_lines :
    Report → (site : CallsiteStats) → Tally → List CallsiteStats → List Line
unfolding add_tally above_threshold
coll_time_lines r site t [] =
    if ltb 0 t.count
    then summary_line site.op site.csid t.count t.largest t.sum t.smallest ∷ blank ∷ []
    else []
coll_time_lines r site t (a ∷ tasks) =
    (if ltb 0 a.count
        && leb (r.print_threshold * r.collected.task_mpi_time a.rank) (100000 * a.cumulative_time)
      then task_line_of time site a ∷ []
      else [])
    ++ coll_time_lines r site (add_tally time a t) tasks

-- the lines of all call sites
unfoldable pub each_site : (CallsiteStats → List Line) → List CallsiteStats → List Line
each_site f [] = []
each_site f (a ∷ av) = f a ++ each_site f av

-- mpiPi_coll_print_all_callsite_time_info
unfoldable pub coll_print_all_callsite_time_info :
    Sort → (tasks : CallsiteStats → List CallsiteStats) → Report → Run (List Line)
unfolding coll_time_lines gather_sorted
coll_print_all_callsite_time_info sort tasks r = do
  av ← gather_sorted sort (sort_by_name_id_rank r.op_name) r
  ok (
      heading "Callsite Time statistics (all, milliseconds)" (some r.collected.time_callsite_count)
      ∷ each_site (λ site. coll_time_lines r site zero_tally (tasks site)) av)

-- the loop over the tasks of the sections on sizes
unfoldable pub coll_size_lines :
    Measure → (site : CallsiteStats) → Tally → List CallsiteStats → List Line
unfolding add_tally
coll_size_lines m site t [] =
    (if ltb 0 t.sum
      then summary_line site.op site.csid t.count t.largest t.sum t.smallest ∷ []
      else [])
    ++ blank ∷ []
coll_size_lines m site t (a ∷ tasks) =
    (if ltb 0 (m.amount a) then task_line_of m site a ∷ [] else [])
    ++ coll_size_lines m site (if ltb 0 (m.amount a) then add_tally m a t else t) tasks

-- a call site without an amount is passed over
unfoldable pub coll_size_section :
    Measure → (tasks : CallsiteStats → List CallsiteStats) → List CallsiteStats → List Line
unfolding each_site coll_size_lines
coll_size_section m tasks av =
    each_site
      (λ site. if ltb 0 (m.amount site) then coll_size_lines m site zero_tally (tasks site) else [])
      av

-- mpiPi_coll_print_all_callsite_sent_info
unfoldable pub coll_print_all_callsite_sent_info :
    Sort → (tasks : CallsiteStats → List CallsiteStats) → Report → Run (List Line)
unfolding coll_size_section gather_sorted
coll_print_all_callsite_sent_info sort tasks r =
    if ltb 0 (r.collected.sent_count)
    then (do
      av ← gather_sorted sort (sort_by_name_id_rank r.op_name) r
      ok (
          heading "Callsite Message Sent statistics (all, sent bytes)" none
          ∷ coll_size_section sent tasks av))
    else ok []

-- mpiPi_coll_print_all_callsite_io_info
unfoldable pub coll_print_all_callsite_io_info :
    Sort → (tasks : CallsiteStats → List CallsiteStats) → Report → Run (List Line)
unfolding coll_size_section gather_sorted
coll_print_all_callsite_io_info sort tasks r =
    if ltb 0 (r.collected.mpi_io)
    then (do
      av ← gather_sorted sort (sort_by_name_id_rank r.op_name) r
      ok (heading "Callsite I/O statistics (all, I/O bytes)" none ∷ coll_size_section io tasks av))
    else ok []

-- mpiPi_coll_print_all_callsite_rma_info
unfoldable pub coll_print_all_callsite_rma_info :
    Sort → (tasks : CallsiteStats → List CallsiteStats) → Report → Run (List Line)
unfolding coll_size_section gather_sorted
coll_print_all_callsite_rma_info sort tasks r =
    if ltb 0 (r.collected.mpi_rma)
    then (do
      av ← gather_sorted sort (sort_by_name_id_rank r.op_name) r
      ok (
          heading "Callsite RMA statistics (all, origin bytes)" none
          ∷ coll_size_section rma tasks av))
    else ok []

-- reductions of a value and a rank of each task, and of a number of each task
pub record Reduce : Type 0 where
  pub minloc : List (ℕ × ℕ) → ℕ × ℕ
  pub maxloc : List (ℕ × ℕ) → ℕ × ℕ
  pub sum : List ℕ → ℕ

-- local_min: a task without an amount gives DBL_MAX
abbrev pub local_min : Measure → CallsiteStats → ℕ × ℕ
local_min m a = (if ltb 0 (m.amount a) then m.amount a else dbl_max, a.rank)

abbrev pub local_max : Measure → CallsiteStats → ℕ × ℕ
local_max m a = (m.amount a, a.rank)

-- one line of a concise section; `flag` tells which tasks are counted
unfoldable pub coll_concise_line :
    Reduce
    → Measure
    → (flag : CallsiteStats → ℕ) → (site : CallsiteStats) → List CallsiteStats
    → Line
coll_concise_line d m flag site tasks =
    let least = d.minloc (map (local_min m) tasks) in
    let most = d.maxloc (map (local_max m) tasks) in
    concise_line (record {
      name = site.op;
      site = site.csid;
      tasks = d.sum (map (λ a. to_nat (ltb 0 (flag a))) tasks);
      largest = most.0;
      smallest = least.0;
      cumulative = d.sum (map (m.amount) tasks);
      max_rnk = some (most.1);
      min_rnk = some (least.1);
    })

-- mpiPi_coll_print_concise_callsite_time_info
unfoldable pub coll_print_concise_callsite_time_info :
    Reduce → Sort → (tasks : CallsiteStats → List CallsiteStats) → Report → Run (List Line)
unfolding coll_concise_line gather_sorted each_site
coll_print_concise_callsite_time_info d sort tasks r = do
  av ← gather_sorted sort sort_by_cumulative_time r
  ok (
      heading "Callsite Time statistics (all callsites, milliseconds)" (some (length av))
      ∷ each_site (λ site. coll_concise_line d time (λ a. a.count) site (tasks site) ∷ []) av)

-- the call sites with an amount
unfoldable pub with_amount : Measure → List CallsiteStats → List CallsiteStats
with_amount m [] = []
with_amount m (a ∷ av) = (if ltb 0 (m.amount a) then a ∷ [] else []) ++ with_amount m av

-- the sections on sizes, which skip the call sites without an amount
unfoldable pub coll_concise_section :
    Reduce
    → Measure
    → String
    → (tasks : CallsiteStats → List CallsiteStats) → List CallsiteStats
    → List Line
unfolding coll_concise_line with_amount each_site
coll_concise_section d m title tasks av =
    let sites = with_amount m av in
    if ltb 0 (length sites)
    then heading title (some (length sites))
      ∷ each_site (λ site. coll_concise_line d m (m.amount) site (tasks site) ∷ []) sites
    else []

-- mpiPi_coll_print_concise_callsite_sent_info
unfoldable pub coll_print_concise_callsite_sent_info :
    Reduce → Sort → (tasks : CallsiteStats → List CallsiteStats) → Report → Run (List Line)
unfolding coll_concise_section gather_sorted
coll_print_concise_callsite_sent_info d sort tasks r = do
  av ← gather_sorted sort sort_by_cumulative_size r
  ok (
      coll_concise_section d sent "Callsite Message Sent statistics (all callsites, bytes sent)"
        tasks av)

-- mpiPi_coll_print_concise_callsite_io_info
unfoldable pub coll_print_concise_callsite_io_info :
    Reduce → Sort → (tasks : CallsiteStats → List CallsiteStats) → Report → Run (List Line)
unfolding coll_concise_section gather_sorted
coll_print_concise_callsite_io_info d sort tasks r = do
  av ← gather_sorted sort sort_by_cumulative_io r
  ok (coll_concise_section d io "Callsite I/O statistics (all callsites, bytes)" tasks av)

-- mpiPi_coll_print_concise_callsite_rma_info
unfoldable pub coll_print_concise_callsite_rma_info :
    Reduce → Sort → (tasks : CallsiteStats → List CallsiteStats) → Report → Run (List Line)
unfolding coll_concise_section gather_sorted
coll_print_concise_callsite_rma_info d sort tasks r = do
  av ← gather_sorted sort sort_by_cumulative_rma r
  ok (coll_concise_section d rma "Callsite RMA Target statistics (all callsites, bytes)" tasks av)
