-- ===== src/Aggregate/Sums.antt =====
-- What `mpiPi_stats_thr_merge_all` and `mpiPi_stats_thr_reset_all` of mpiP-stats.c do to the whole
-- state of a thread.
use a_mpi_p.Prelude.{ℕ, ◌+◌, ◌≤◌, ◌≡◌, refl, none, ltb, ◌&&◌, if◌then◌else◌, Returns, ap}
use a_mpi_p.Globals.{Globals}
use a_mpi_p.Callsites.{CallsiteStats}
use a_mpi_p.Grid.{Grid, histcnt, zero_grid, add_planes_lem}
use a_mpi_p.ThreadStat.{ThreadStat}
use a_mpi_p.Messages.{coll_merge, pt2pt_merge}
use a_mpi_p.CallRecords.Table.{records, IsTable}
use a_mpi_p.CallRecords.Merge.{combine, thr_cs_merge-MergedTables, cs_reset-empty}
use a_mpi_p.Aggregate.{add_sums, merge_all, reset_all}

-- the sum of two arrays inside the bounds
abbrev pub IsSum : Globals → (dst src sum : Grid) → Type 0
IsSum g dst src sum =
    (a b c : ℕ)
    → sum a b c
      ≡ dst a b c + (if ltb a g.nfunc && ltb b histcnt && ltb c histcnt then src a b c else 0)

-- every part of the destination's state after a merge with a source
pub record MergedAll (g : Globals) (dst src : ThreadStat) (r : ThreadStat × ℕ) : Type 0 where
  pub valid : IsTable g r.0.cs_stats
  pub sites :
      (q : CallsiteStats)
      → (k : ℕ) × (records g r.0.cs_stats q
          ≡ combine g k (records g dst.cs_stats q) (records g src.cs_stats q))
  pub coll : IsSum g dst.coll.time_stats src.coll.time_stats r.0.coll.time_stats
  pub pt2pt : IsSum g dst.pt2pt.time_stats src.pt2pt.time_stats r.0.pt2pt.time_stats
  pub time : r.0.cum_time ≡ dst.cum_time + src.cum_time
  pub disabled : r.0.disabled ≡ dst.disabled

-- If the stack depth fits the stack arrays and both tables are valid, the merge of the whole state
-- of a thread returns, leaves for every key what `combine` makes of its records in the two tables,
-- adds the collective and the point-to-point array cell by cell inside their bounds and nothing
-- outside, adds the cumulative times, and leaves the nesting level of the destination alone.
pub merge_all-MergedAll :
    (g : Globals) (dst src : ThreadStat) (ctr : ℕ)
    → g.full_stack_depth ≤ g.stack_depth_max
    → IsTable g dst.cs_stats
    → IsTable g src.cs_stats
    → Returns (merge_all g dst src ctr) (MergedAll g dst src)
unfolding merge_all coll_merge pt2pt_merge
merge_all-MergedAll g dst src ctr deep v w =
    let (r, run, m) = thr_cs_merge-MergedTables g deep dst src ctr v w in
    (
      (add_sums g r.0 src, r.1),
      rw run,
      record {
        valid = m.valid;
        sites = m.reads;
        coll = λ a b c.
            rw m.rest (add_planes_lem dst.coll.time_stats src.coll.time_stats g.nfunc a b c);
        pt2pt = λ a b c.
            rw m.rest (add_planes_lem dst.pt2pt.time_stats src.pt2pt.time_stats g.nfunc a b c);
        time = rw m.rest;
        disabled = rw m.rest;
      },
    )

-- The reset of the whole state of a thread with a valid table returns, and leaves no record, a
-- zero collective array and the time 0, but the point-to-point statistics as they were.
pub reset_all-keeps_pt2pt :
    (g : Globals) (s : ThreadStat)
    → IsTable g s.cs_stats
    → Returns (reset_all s) λ r.
      ((q : CallsiteStats) → records g r.cs_stats q ≡ none)
      × (r.coll.time_stats ≡ zero_grid)
      × (r.cum_time ≡ 0)
      × (r.pt2pt ≡ s.pt2pt)
unfolding reset_all
reset_all-keeps_pt2pt g s v =
    let (r, run, (valid, empty, e)) = cs_reset-empty g s v in
    (
      record r { coll = record (r.coll) { time_stats = zero_grid }; cum_time = 0 },
      rw run,
      (empty, refl, refl, ap (λ (t : ThreadStat). t.pt2pt) e),
    )
