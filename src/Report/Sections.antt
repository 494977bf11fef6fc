-- ===== src/Report/Sections.antt =====
-- The sections with all records of report.c as wholes: what their summaries show of the table.
use mathlib.Core.List.{Permᴰ}
use Prim.Native.String.{String}
use a_mpi_p.Prelude.{
  suc, subst, abort, ℕ, ◌<◌, ◌≡◌, refl, ◌∙◌, ap, List, [], ◌∷◌, true, none, some, not, ◌==◌,
  Returns, length, arith, lt→ltb, ok, ◌>>=◌, Run,
}
use a_mpi_p.Callsites.{CallsiteStats}
use a_mpi_p.Callsites.Keys.{src_fns}
use a_mpi_p.Hash.Buckets.{IsValid}
use a_mpi_p.Hash.Gather.{Gathered, h_gather_data-Gathered}
use a_mpi_p.Collector.Inserts.{sum_where}
use a_mpi_p.Collector.Operations.{sum_where-perm}
use a_mpi_p.Report.{Report, heading, Line, Sort, gather_sites, sort_by_name_id_rank}
use a_mpi_p.Report.Sites.{
  Measure, sent, io, rma, print_all_callsite_io_info, print_all_callsite_rma_info, zero_tally,
  time_lines, size_lines, print_all_callsite_time_info, print_all_callsite_sent_info,
}
use a_mpi_p.Report.Totals.{sum_for, is_empty, time_lines-Sum, size_lines-Sum}

-- the lines of a section against the table of the collector
pub record ShowsTable (amount : CallsiteStats → ℕ) (r : Report) (ls : List Line) : Type 0 where
  pub sites : List CallsiteStats
  pub gathered :
      Gathered src_fns r.collected.callsite_stats (r.collected.callsite_stats.count, sites)
  pub sums : (c : ℕ) → sum_for c ls ≡ sum_where (λ a. a.csid == c) amount sites

is_empty-length : (av : List CallsiteStats) → 0 < length av → not (is_empty av) ≡ true
is_empty-length [] h = absurd (omega arith)
is_empty-length (a ∷ av) h = refl

length-perm : {xs ys : List CallsiteStats} → Permᴰ xs ys → length xs ≡ length ys
length-perm Permᴰ.nil = refl
length-perm (Permᴰ.cons e p) = ap suc (length-perm p)
length-perm (Permᴰ.swap e k) = refl
length-perm (Permᴰ.trans p q) = length-perm p ∙ length-perm q

-- a run that returns what holds for each number returns what holds for all of them
Returns-all :
    {A : Type 0} (run : Run A) (P : ℕ → A → Type 0)
    → ((c : ℕ) → Returns run (P c))
    → Returns run (λ a. (c : ℕ) → P c a)
Returns-all (abort m) P h = (let (a, e, p) = h 0 in absurd cc)
Returns-all (ok a) P h =
    (a, refl, λ c. (let (b, e, p) = h c in let same : b ≡ a = cc in subst (P c) same p))

-- what is gathered and sorted
gather_sites-Gathered :
    (sort : Sort) (r : Report)
    → ((l : List CallsiteStats) → Permᴰ (sort (sort_by_name_id_rank r.op_name) l) l)
    → IsValid src_fns r.collected.callsite_stats
    → (sites : List CallsiteStats) × Gathered src_fns r.collected.callsite_stats
        (r.collected.callsite_stats.count, sites)
      × Returns (gather_sites sort r) (λ av. Permᴰ av sites)
unfolding gather_sites
gather_sites-Gathered sort r permutes v =
    let (av, run, got) = h_gather_data-Gathered src_fns r.collected.callsite_stats v in
    (
      av.1,
      record { number = refl; filled = got.filled; once = got.once; reads = got.reads },
      (sort (sort_by_name_id_rank r.op_name) (av.1), rw run refl, permutes (av.1)),
    )

module _ (sort : Sort) (r : Report)
    (permutes : (l : List CallsiteStats) → Permᴰ (sort (sort_by_name_id_rank r.op_name) l) l)
    (v : IsValid src_fns r.collected.callsite_stats) where
  -- Let the sort return a permutation of its array, and let the table of the collector be valid
  -- and not empty. Then the section on the times of all records is printed. There is an array that
  -- holds every record of the table once, such that for every call site the summary lines of the
  -- section add up to the times of the records of that call site in the array.
  pub print_all_callsite_time_info-ShowsTable :
      0 < r.collected.callsite_stats.count
      → Returns (print_all_callsite_time_info sort r) (ShowsTable (λ a. a.cumulative_time) r)
  unfolding print_all_callsite_time_info zero_tally
  print_all_callsite_time_info-ShowsTable filled =
      let (sites, got, (av, run, p)) = gather_sites-Gathered sort r permutes v in
      let counted = length-perm p in
      let enough : 0 < length av = omega (arith, counted, got.filled, filled) in
      let (ls, printed, sums) =
        Returns-all (time_lines r none zero_tally av) _
          (λ c. time_lines-Sum r c none zero_tally av (is_empty-length av enough) refl) in
      (
        heading "Callsite Time statistics (all, milliseconds)" (some (length av)) ∷ ls,
        rw run (rw printed refl),
        record {
          sites = sites;
          gathered = got;
          sums = λ c.
              let same = sum_where-perm (λ a. a.csid == c) (λ a. a.cumulative_time) p in
              omega (arith, sums c, same);
        },
      )

  -- the loop of a section on sizes, under any heading
  size_lines-ShowsTable :
      (m : Measure) (title : String)
      → Returns
          (gather_sites sort r
            >>= (λ av. size_lines m none 0 zero_tally av >>= (λ ls. ok (heading title none ∷ ls))))
          (ShowsTable m.amount r)
  unfolding zero_tally
  size_lines-ShowsTable m title =
      let (sites, got, (av, run, p)) = gather_sites-Gathered sort r permutes v in
      let (ls, printed, sums) =
        Returns-all (size_lines m none 0 zero_tally av) _
          (λ c. size_lines-Sum m c none 0 zero_tally av refl) in
      (
        heading title none ∷ ls,
        rw run (rw printed refl),
        record {
          sites = sites;
          gathered = got;
          sums = λ c.
              let same = sum_where-perm (λ a. a.csid == c) (m.amount) p in
              omega (arith, sums c, same);
        },
      )

  -- Let the sort return a permutation of its array, let the table of the collector be valid, and
  -- let there be sent, read and put bytes. Then the three sections on the sizes of all records are
  -- printed. For each there is an array that holds every record of the table once, such that for
  -- every call site the summary lines of the section add up to the bytes of the records of that
  -- call site in the array.
  pub print_all_callsite_sent_info-ShowsTable :
      0 < r.collected.mpi_size
      → 0 < r.collected.mpi_io
      → 0 < r.collected.mpi_rma
      → Returns (print_all_callsite_sent_info sort r) (ShowsTable (λ a. a.cumulative_data_sent) r)
        × Returns (print_all_callsite_io_info sort r) (ShowsTable (λ a. a.cumulative_io) r)
        × Returns (print_all_callsite_rma_info sort r) (ShowsTable (λ a. a.cumulative_rma) r)
  unfolding print_all_callsite_sent_info print_all_callsite_io_info print_all_callsite_rma_info
  print_all_callsite_sent_info-ShowsTable h i j = (
    rw (lt→ltb 0 (r.collected.mpi_size) h) (size_lines-ShowsTable sent _),
    rw (lt→ltb 0 (r.collected.mpi_io) i) (size_lines-ShowsTable io _),
    rw (lt→ltb 0 (r.collected.mpi_rma) j) (size_lines-ShowsTable rma _),
  )
