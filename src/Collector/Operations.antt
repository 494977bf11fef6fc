-- ===== src/Collector/Operations.antt =====
-- `mpiPi_insert_MPI_records` of mpiPi.c: the table by operation against the aggregate table.
use a_mpi_p.Prelude.{ℕ, ◌≤◌, ◌≡◌, refl, Bool, List, arith, ok, Returns, ◌∙◌, ap, pos, some}
use mathlib.Core.List.{Permᴰ}
use a_mpi_p.Chain.{matches}
use a_mpi_p.Hash.{HashTable, empty_table, h_open}
use a_mpi_p.Hash.Buckets.{view, IsValid, view-empty_table, h_open-IsValid}
use a_mpi_p.Hash.Gather.{Gathered, h_gather_data-Gathered}
use a_mpi_p.Globals.{Globals}
use a_mpi_p.Callsites.{CallsiteStats}
use a_mpi_p.Callsites.Keys.{op_fns, src_id_fns}
use a_mpi_p.CallRecords.Runs.{count_in, time_in}
use a_mpi_p.Collector.{Collected, insert_mpi_records}
use a_mpi_p.Collector.Inserts.{sum_where}
use a_mpi_p.Collector.All.{add_ops-AddedOps}

pub sum_where-perm :
    (test : CallsiteStats → Bool) (f : CallsiteStats → ℕ) {xs ys : List CallsiteStats}
    → Permᴰ xs ys
    → sum_where test f xs ≡ sum_where test f ys
sum_where-perm test f Permᴰ.nil = refl
sum_where-perm test f (Permᴰ.cons e p) = rw (e, sum_where-perm test f p)
sum_where-perm test f (Permᴰ.swap e k) = rw (e, k) (omega arith)
sum_where-perm test f (Permᴰ.trans p q) = sum_where-perm test f p ∙ sum_where-perm test f q

-- the table by operation, against the records `sites` of the aggregate table
pub record ByOperation (c : Collected) (table : HashTable CallsiteStats) : Type 0 where
  pub valid : IsValid op_fns table
  pub sites : List CallsiteStats
  pub gathered : Gathered src_id_fns c.callsite_stats_agg (c.callsite_stats_agg.count, sites)
  pub counts :
      (q : CallsiteStats)
      → count_in (view op_fns table q) ≡ sum_where (λ p. matches op_fns.hc p q) (λ p. p.count) sites
  pub times :
      (q : CallsiteStats)
      → time_in (view op_fns table q)
        ≡ sum_where (λ p. matches op_fns.hc p q) (λ p. p.cumulative_time) sites

-- If the sort returns a permutation of its array, tables are opened with at least the size 2, and
-- the aggregate table is valid, the aggregation by operation returns a valid table. For an array
-- that holds every record of the aggregate table once, every key has in it the sums of the counts
-- and of the times of the array's records of its operation.
pub insert_mpi_records-ByOperation :
    (g : Globals) (sort : List CallsiteStats → List CallsiteStats) (c : Collected) (n : ℕ)
    → ((l : List CallsiteStats) → Permᴰ (sort l) l)
    → g.table_size ≡ pos n
    → 2 ≤ n
    → IsValid src_id_fns c.callsite_stats_agg
    → Returns (insert_mpi_records g sort c) (ByOperation c)
unfolding insert_mpi_records
insert_mpi_records-ByOperation g sort c n permutes size two v =
    let (opened, valid) = h_open-IsValid op_fns n two in
    let by_op : h_open g.table_size (some op_fns.hf) (some op_fns.hc) ≡ ok (op_fns, empty_table n) =
      rw size opened in
    let (av, run, got) = h_gather_data-Gathered src_id_fns c.callsite_stats_agg v in
    let (table, added, a) = add_ops-AddedOps g (sort av.1) (empty_table n) valid in
    let gone = view-empty_table op_fns n in
    (
      table,
      rw by_op (rw run added),
      record {
        valid = a.valid;
        sites = av.1;
        gathered = record {
          number = refl;
          filled = got.filled;
          once = got.once;
          reads = got.reads;
        };
        counts = λ q.
            let same = sum_where-perm (λ p. matches op_fns.hc p q) (λ p. p.count) (permutes av.1) in
            omega (arith, a.counts q, ap count_in (gone q), same);
        times = λ q.
            let same =
              sum_where-perm (λ p. matches op_fns.hc p q) (λ p. p.cumulative_time)
                (permutes av.1) in
            omega (arith, a.times q, ap time_in (gone q), same);
      },
    )
