-- ===== src/Report/Concise.antt =====
-- The concise sections of report.c: for every call site one line over all tasks.
use Prim.Native.String.{String}
use a_mpi_p.Prelude.{
  ℕ, ◌+◌, ◌-◌, Bool, true, false, ◌||◌, Option, none, some, List, [], ◌∷◌, ◌++◌, map, ltb, leb,
  if◌then◌else◌, Run, ok, abort, ◌>>=◌, length,
}
use a_mpi_p.Callsites.{dbl_max, CallsiteStats}
use a_mpi_p.Report.{Report, Line, heading, concise_line, SiteSummary, Sort, gather_sites}
use a_mpi_p.Report.Sites.{Measure, time, sent, io, rma, turns}

-- the local variables of the loop
pub record Extremes : Type 0 where
  pub tasks : ℕ
  pub largest : ℕ
  pub smallest : ℕ
  pub sum : ℕ
  pub max_rank : Option ℕ
  pub min_rank : Option ℕ

unfoldable pub no_extremes : Extremes
no_extremes = record {
  tasks = 0;
  largest = 0;
  smallest = dbl_max;
  sum = 0;
  max_rank = none;
  min_rank = none;
}

unfoldable pub add_extremes : Measure → CallsiteStats → Extremes → Extremes
add_extremes m a e =
    let v = m.amount a in
    record {
      tasks = e.tasks + 1;
      largest = if ltb e.largest v then v else e.largest;
      smallest = if ltb v e.smallest then v else e.smallest;
      sum = e.sum + v;
      max_rank = if ltb e.largest v then some a.rank else e.max_rank;
      min_rank = if ltb v e.smallest then some a.rank else e.min_rank;
    }

-- callsite_stats[csidx]
unfoldable pub site_summary : CallsiteStats → Extremes → SiteSummary
site_summary p e = record {
  name = p.op;
  site = p.csid;
  tasks = e.tasks;
  largest = e.largest;
  smallest = e.smallest;
  cumulative = e.sum;
  max_rnk = e.max_rank;
  min_rnk = e.min_rank;
}

-- what is stored when the call site changes: `none` if the array is full. With `all` also a sum of
-- 0 is stored
unfoldable pub stored :
    (all : Bool)
    → (limit : ℕ) → Option CallsiteStats
    → Extremes
    → List SiteSummary
    → Option (List SiteSummary)
unfolding site_summary
stored all limit none e done = some done
stored all limit (some p) e done =
    if all || ltb 0 e.sum
    then (if leb limit (length done) then none else some (done ++ site_summary p e ∷ []))
    else some done

-- what is stored behind the loop: the source does not look at the limit there, and a store with
-- csidx at the limit is behind the array, which is an error of its own here
unfoldable pub stored_last :
    (all : Bool)
    → (limit : ℕ) → Option CallsiteStats
    → Extremes
    → List SiteSummary
    → Run (List SiteSummary)
unfolding site_summary
stored_last all limit none e done = if all || ltb 0 e.sum then abort "av[-1]" else ok done
stored_last all limit (some p) e done =
    if all || ltb 0 e.sum
    then (if leb limit (length done)
        then abort "callsite_stats[csidx]"
        else ok (done ++ site_summary p e ∷ []))
    else ok done

-- the loop over the records; `none` is the return out of the function
unfoldable pub concise_sites :
    (all : Bool)
    → Measure
    → (limit : ℕ) → (prev : Option CallsiteStats) → Extremes
    → List SiteSummary
    → List CallsiteStats
    → Run (Option (List SiteSummary))
unfolding no_extremes add_extremes stored stored_last
concise_sites all m limit prev e done [] = stored_last all limit prev e done >>= (λ l. ok (some l))
concise_sites all m limit prev e done (a ∷ av) =
    elim (if turns prev a then stored all limit prev e done else some done) [
      | none ↦ ok none
      | some done' ↦
          concise_sites all m limit (some a)
            (add_extremes m a (if turns prev a then no_extremes else e)) done' av
    ]

-- mpiPi_print_concise_callsite_time_info; `sort_summaries` is qsort by the cumulative value
unfoldable pub print_concise_callsite_time_info :
    Sort → (List SiteSummary → List SiteSummary) → Report → Run (List Line)
unfolding concise_sites
print_concise_callsite_time_info sort sort_summaries r = do
  av ← gather_sites sort r
  found ← concise_sites true time r.src_id_count none no_extremes [] av
  elim found [
    | none ↦ ok []
    | some sites ↦ ok (
        heading "Callsite Time statistics (all callsites, milliseconds)" (some (length sites))
        ∷ map concise_line (sort_summaries sites))
  ]

-- the lines of the sections on sizes: only if csidx > 0, where csidx + 1 sites are stored
unfoldable pub size_section :
    String → List SiteSummary → (List SiteSummary → List SiteSummary) → List Line
size_section title sites sort_summaries =
    if ltb 0 (length sites - 1)
    then heading title (some (length sites)) ∷ map concise_line (sort_summaries sites)
    else []

-- mpiPi_print_concise_callsite_sent_info
unfoldable pub print_concise_callsite_sent_info :
    Sort → (List SiteSummary → List SiteSummary) → Report → Run (List Line)
unfolding concise_sites size_section
print_concise_callsite_sent_info sort sort_summaries r = do
  av ← gather_sites sort r
  found ← concise_sites false sent r.src_id_count none no_extremes [] av
  elim found [
    | none ↦ ok []
    | some sites ↦ ok (
        size_section "Callsite Message Sent statistics (all callsites, sent bytes)" sites
          sort_summaries)
  ]

-- mpiPi_print_concise_callsite_io_info
unfoldable pub print_concise_callsite_io_info :
    Sort → (List SiteSummary → List SiteSummary) → Report → Run (List Line)
unfolding concise_sites size_section
print_concise_callsite_io_info sort sort_summaries r =
    if ltb 0 (r.collected.mpi_io)
    then (do
      av ← gather_sites sort r
      found ← concise_sites false io r.src_id_count none no_extremes [] av
      elim found [
        | none ↦ ok []
        | some sites ↦
            ok (size_section "Callsite I/O statistics (all callsites, bytes)" sites sort_summaries)
      ])
    else ok []

-- mpiPi_print_concise_callsite_rma_info
unfoldable pub print_concise_callsite_rma_info :
    Sort → (List SiteSummary → List SiteSummary) → Report → Run (List Line)
unfolding concise_sites size_section
print_concise_callsite_rma_info sort sort_summaries r =
    if ltb 0 (r.collected.mpi_rma)
    then (do
      av ← gather_sites sort r
      found ← concise_sites false rma r.src_id_count none no_extremes [] av
      elim found [
        | none ↦ ok []
        | some sites ↦ ok (
            size_section "Callsite RMA Target statistics (all callsites, bytes)" sites
              sort_summaries)
      ])
    else ok []
