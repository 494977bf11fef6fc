-- ===== src/Report/Profile.antt =====
-- The times of the tasks, and the order of the sections of a report: mpiPi_profile_print of
-- report.c.
use a_mpi_p.Prelude.{
  ℕ, zero, suc, ◌+◌, Option, none, some, List, [], ◌∷◌, ◌++◌, ltb, if◌then◌else◌, Run, ok, ◌>>=◌,
}
use a_mpi_p.Globals.{Globals}
use a_mpi_p.Callsites.{dbl_max, CallsiteStats}
use a_mpi_p.Report.{Report, Line, heading, blank, task_line, extreme_line, SiteSummary, Sort}
use a_mpi_p.Report.Top.{
  Cell, print_top_time_sites, print_top_sent_sites, print_top_io_sites, print_top_rma_sites,
  print_top_collective_sent_sites, print_top_pt2pt_sent_sites,
}
use a_mpi_p.Report.Sites.{
  print_all_callsite_time_info, print_all_callsite_sent_info, print_all_callsite_io_info,
  print_all_callsite_rma_info,
}
use a_mpi_p.Report.Concise.{
  print_concise_callsite_time_info, print_concise_callsite_sent_info,
  print_concise_callsite_io_info, print_concise_callsite_rma_info,
}
use a_mpi_p.Report.Collective.{
  Reduce, coll_print_all_callsite_time_info, coll_print_all_callsite_sent_info,
  coll_print_all_callsite_io_info, coll_print_all_callsite_rma_info,
  coll_print_concise_callsite_time_info, coll_print_concise_callsite_sent_info,
  coll_print_concise_callsite_io_info, coll_print_concise_callsite_rma_info,
}

-- the smallest and the largest value of the tasks with their ranks, and the sum
pub record Span : Type 0 where
  pub smallest : ℕ
  pub largest : ℕ
  pub total : ℕ
  pub min_rank : Option ℕ
  pub max_rank : Option ℕ

unfoldable pub no_span : Span
no_span = record { smallest = dbl_max; largest = 0; total = 0; min_rank = none; max_rank = none }

unfoldable pub add_span : (rank value : ℕ) → Span → Span
add_span i v s = record {
  smallest = if ltb v s.smallest then v else s.smallest;
  largest = if ltb s.largest v then v else s.largest;
  total = s.total + v;
  min_rank = if ltb v s.smallest then some i else s.min_rank;
  max_rank = if ltb s.largest v then some i else s.max_rank;
}

-- for (i = 0; i < mpiPi.size; i++), of which `n` rounds are left
unfoldable pub span_of : (ℕ → ℕ) → (i n : ℕ) → Span → Span
unfolding no_span add_span
span_of values i zero s = s
span_of values i (suc n) s = span_of values (suc i) n (add_span i (values i) s)

-- mpiPi_print_concise_task_info, without the deviations, and the new `global_app_time`
unfoldable pub print_concise_task_info : Globals → Report → List Line × ℕ
unfolding span_of
print_concise_task_info g r =
    let app = span_of r.task_app_time 0 g.size no_span in
    let mpi = span_of r.collected.task_mpi_time 0 g.size no_span in
    (
      heading "Task Time Statistics (seconds)" none
          ∷ extreme_line "Max" app.largest mpi.largest app.max_rank mpi.max_rank
          ∷ task_line "Mean" app.total mpi.total
          ∷ extreme_line "Min" app.smallest mpi.smallest app.min_rank mpi.min_rank
          ∷ task_line "Aggregate" app.total mpi.total
          ∷ [],
      r.global_app_time + app.total,
    )

-- the lines of the tasks, of which `n` are left
unfoldable pub task_lines : Report → (i n : ℕ) → List Line
task_lines r i zero = []
task_lines r i (suc n) =
    task_line "" (r.task_app_time i) (r.collected.task_mpi_time i) ∷ task_lines r (suc i) n

-- mpiPi_print_verbose_task_info and the new `global_app_time`
unfoldable pub print_verbose_task_info : Globals → Report → List Line × ℕ
unfolding span_of task_lines
print_verbose_task_info g r =
    let total = (span_of r.task_app_time 0 g.size no_span).total in
    (
      heading "MPI Time (seconds)" none ∷ task_lines r 0 g.size
          ++ task_line "*" total r.collected.mpi_time ∷ [],
      total,
    )

-- what a report takes from `qsort` and from MPI
pub record Printing : Type 0 where
  pub sort : Sort
  pub sort_summaries : List SiteSummary → List SiteSummary
  pub sort_cells : List Cell → List Cell
  pub reduce : Reduce
  pub tasks : CallsiteStats → List CallsiteStats

-- one section behind another
infixr 5 ◌then_print◌
abbrev pub ◌then_print◌ : Run (List Line) → Run (List Line) → Run (List Line)
a then_print b = a >>= (λ xs. b >>= (λ ys. ok (xs ++ ys)))

-- the sections on the top twenty
unfoldable pub print_top_sections : Globals → Printing → Report → Run (List Line)
print_top_sections g p r =
    print_top_time_sites g p.sort r
    then_print print_top_sent_sites g p.sort r
    then_print ok (
        if g.do_collective_stats_report
        then print_top_collective_sent_sites g p.sort_cells r
        else [])
    then_print ok
        (if g.do_pt2pt_stats_report then print_top_pt2pt_sent_sites g p.sort_cells r else [])
    then_print print_top_io_sites g p.sort r
    then_print print_top_rma_sites g p.sort r

-- mpiPi_profile_print_concise, but for the list of call sites
unfoldable pub profile_print_concise : Globals → Printing → Report → Run (List Line × ℕ)
unfolding print_top_sections
profile_print_concise g p r =
    let (info, app_time) = print_concise_task_info g r in
    do
      top ← print_top_sections g p (record r { global_app_time = app_time })
      sites ←
          if r.print_callsite_detail
          then (if g.collective_report
              then coll_print_concise_callsite_time_info p.reduce p.sort p.tasks r
                then_print coll_print_concise_callsite_sent_info p.reduce p.sort p.tasks r
                then_print coll_print_concise_callsite_io_info p.reduce p.sort p.tasks r
                then_print coll_print_concise_callsite_rma_info p.reduce p.sort p.tasks r
              else print_concise_callsite_time_info p.sort p.sort_summaries r
                then_print print_concise_callsite_sent_info p.sort p.sort_summaries r
                then_print print_concise_callsite_io_info p.sort p.sort_summaries r
                then_print print_concise_callsite_rma_info p.sort p.sort_summaries r)
          else ok []
      ok (blank ∷ info ++ top ++ sites, app_time)

-- mpiPi_profile_print_verbose, but for the hosts of the tasks and the list of call sites
unfoldable pub profile_print_verbose : Globals → Printing → Report → Run (List Line × ℕ)
unfolding print_top_sections
profile_print_verbose g p r =
    let (info, app_time) = print_verbose_task_info g r in
    do
      top ← print_top_sections g p (record r { global_app_time = app_time })
      sites ←
          if r.print_callsite_detail
          then (if g.collective_report
              then coll_print_all_callsite_time_info p.sort p.tasks r
                then_print coll_print_all_callsite_sent_info p.sort p.tasks r
                then_print coll_print_all_callsite_io_info p.sort p.tasks r
                then_print coll_print_all_callsite_rma_info p.sort p.tasks r
              else print_all_callsite_time_info p.sort r
                then_print print_all_callsite_sent_info p.sort r
                then_print print_all_callsite_io_info p.sort r
                then_print print_all_callsite_rma_info p.sort r)
          else ok []
      ok (blank ∷ info ++ top ++ sites, app_time)

-- mpiPi_style_verbose and mpiPi_style_concise
pub data Style : Type 0 where
  verbose : Style
  concise : Style

-- mpiPi_profile_print at the collecting task, but for the header
unfoldable pub profile_print : Style → Globals → Printing → Report → Run (List Line × ℕ)
profile_print verbose g p r =
    profile_print_verbose g p r >>= (λ o. ok (o.0 ++ heading "End of Report" none ∷ [], o.1))
profile_print concise g p r =
    profile_print_concise g p r >>= (λ o. ok (o.0 ++ heading "End of Report" none ∷ [], o.1))
