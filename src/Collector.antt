-- ===== src/Collector.antt =====
-- mpiPi.c at the collecting task: the records of all tasks are aggregated by call site and rank, by
-- call site, and by operation. What MPI delivers is an argument: the records that each remote task
-- sends, in the order in which they arrive, and the number of records that a reduction gives.
pub mod Accumulate
pub mod Inserts
pub mod All
pub mod Results
pub mod Operations
use a_mpi_p.Prelude.{
  ℕ, zero, suc, ◌+◌, ◌-◌, ◌^◌, Bool, true, false, Option, none, some, List, [], ◌∷◌, ltb,
  if◌then◌else◌, Run, ok, ◌>>=◌, set, replicate, ◌==◌,
}
use a_mpi_p.Hash.{HashFns, HashTable, h_open, h_insert, h_search, h_gather_data, write_through}
use a_mpi_p.Globals.{Globals}
use a_mpi_p.Callsites.{CallsiteStats, cs_merge}
use a_mpi_p.Callsites.Keys.{src_fns, src_id_fns, op_fns}
use a_mpi_p.Sources.{SrcLoc}
use a_mpi_p.Sources.Lookup.{Sources, query_src}

-- the fields of `mpiPi` that the collecting task accumulates
pub record Collected : Type 0 where
  pub callsite_stats : HashTable CallsiteStats
  pub callsite_stats_agg : HashTable CallsiteStats
  pub task_mpi_time : ℕ → ℕ
  pub mpi_time : ℕ
  pub mpi_size : ℕ
  pub mpi_io : ℕ
  pub mpi_rma : ℕ
  pub msize_threshold_count : ℕ
  pub sent_count : ℕ
  pub time_callsite_count : ℕ

-- If the search for `p` fails, insert `fresh p`, and else write the merge of what was found with `p`.
unfoldable pub accumulate :
    HashFns CallsiteStats
    → (fresh : CallsiteStats → CallsiteStats)
    → (merge : CallsiteStats → CallsiteStats → CallsiteStats) → HashTable CallsiteStats
    → CallsiteStats
    → Run (HashTable CallsiteStats)
accumulate fns fresh merge table p = do
  found ← h_search fns (some table) (some p)
  elim found [
    | none ↦ do (_, table') ← h_insert fns (some table) (some (fresh p)); ok table'
    | some csp ↦ ok (write_through fns table p (λ dst. merge dst p))
  ]

-- newp->rank = -1, an `unsigned`
abbrev pub no_rank : ℕ
no_rank = 2 ^ 32 - 1

-- the new record of the aggregate table
unfoldable pub fresh_agg : Globals → CallsiteStats → CallsiteStats
fresh_agg g p =
    if g.calc_cov
    then record p {
      rank = no_rank;
      site_data = set (replicate g.size 0) 0 p.cumulative_time;
      site_data_idx = 1;
    }
    else record p { rank = no_rank }

-- the merge into a record of the aggregate table; a write behind the array is no write
unfoldable pub merge_agg : Globals → CallsiteStats → CallsiteStats → CallsiteStats
merge_agg g csp p =
    let merged = cs_merge csp p in
    if g.calc_cov
    then record merged {
      site_data = set merged.site_data merged.site_data_idx p.cumulative_time;
      site_data_idx = merged.site_data_idx + 1;
    }
    else merged

-- the sums of the end of `mpiPi_insert_callsite_records`
unfoldable pub add_globals : CallsiteStats → Collected → Collected
add_globals p c = record c {
  task_mpi_time =
      λ r. if r == p.rank then c.task_mpi_time r + p.cumulative_time else c.task_mpi_time r;
  mpi_time = c.mpi_time + p.cumulative_time;
  mpi_size = c.mpi_size + p.cumulative_data_sent;
  mpi_io = c.mpi_io + p.cumulative_io;
  mpi_rma = c.mpi_rma + p.cumulative_rma;
  time_callsite_count =
      if ltb 0 p.cumulative_time then c.time_callsite_count + 1 else c.time_callsite_count;
  msize_threshold_count =
      if ltb 0 p.cumulative_data_sent
      then c.msize_threshold_count + p.arbitrary_message_count
      else c.msize_threshold_count;
  sent_count = if ltb 0 p.cumulative_data_sent then c.sent_count + p.count else c.sent_count;
}

-- the table by rank, which a collective report does without
insert_by_rank : Globals → HashTable CallsiteStats → CallsiteStats → Run (HashTable CallsiteStats)
unfolding accumulate
insert_by_rank g table p =
    if g.collective_report then ok table else accumulate src_fns (λ q. q) cs_merge table p

-- `mpiPi_insert_callsite_records` once `mpiPi_query_src` has been called
unfoldable pub insert_queried : Globals → Collected → CallsiteStats → Run Collected
unfolding insert_by_rank add_globals
insert_queried g c p = do
  by_rank ← insert_by_rank g c.callsite_stats p
  by_site ← accumulate src_id_fns (fresh_agg g) (merge_agg g) c.callsite_stats_agg p
  ok (add_globals p (record c { callsite_stats = by_rank; callsite_stats_agg = by_site }))

-- `mpiPi_insert_callsite_records`
unfoldable pub insert_callsite_records :
    Globals → (ℕ → SrcLoc) → Sources → Collected → CallsiteStats → Run (Collected × Sources)
unfolding insert_queried
insert_callsite_records g find s c p = do
  (p', s') ← query_src g find s p
  c' ← insert_queried g c p'
  ok (c', s')

-- for (ndx = 0; ndx < count; ndx++) mpiPi_insert_callsite_records (…)
unfoldable pub insert_all :
    Globals → (ℕ → SrcLoc) → List CallsiteStats → Sources → Collected → Run (Collected × Sources)
insert_all g find [] s c = ok (c, s)
insert_all g find (p ∷ ps) s c = do
  (c', s') ← insert_callsite_records g find s c p
  insert_all g find ps s' c'

-- The loop over the remote tasks: the records that each has sent, in the order of arrival.
unfoldable pub insert_batches :
    Globals
    → (ℕ → SrcLoc)
    → List (List CallsiteStats)
    → Sources
    → Collected
    → Run (Collected × Sources)
insert_batches g find [] s c = ok (c, s)
insert_batches g find (batch ∷ rest) s c = do
  (c', s') ← insert_all g find batch s c
  insert_batches g find rest s' c'

-- the state in which the insertions of a report begin
abbrev pub cleared : Collected → (by_rank by_site : HashTable CallsiteStats) → Collected
cleared c by_rank by_site = record c {
  callsite_stats = by_rank;
  callsite_stats_agg = by_site;
  mpi_time = 0;
  mpi_size = 0;
}

-- `mpiPi_mergeResults` at the collecting task, with its return code: `local` is what the task has
-- gathered itself, `remote` what the others send, and `total` the number of records that
-- `PMPI_Allreduce` gives. The caches of `s` are open.
unfoldable pub merge_results :
    Globals
    → (ℕ → SrcLoc)
    → (total : ℕ) → (local : List CallsiteStats) → (remote : List (List CallsiteStats)) → Sources
    → Collected
    → Run (ℕ × Collected × Sources)
unfolding insert_all insert_batches
merge_results g find total local remote s c = if ltb total 1 then ok (0, c, s) else do
  (_, by_rank) ← h_open g.table_size (some src_fns.hf) (some src_fns.hc)
  (_, by_site) ← h_open g.table_size (some src_id_fns.hf) (some src_id_fns.hc)
  (c', s') ← insert_all g find local s (cleared c by_rank by_site)
  (c'', s'') ← insert_batches g find remote s' c'
  ok (1, c'', s'')

-- the record of an operation that is made from one of its call sites
abbrev pub fresh_op : Globals → CallsiteStats → CallsiteStats
fresh_op g p = record p { rank = no_rank; csid = p.op - g.base }

-- the loop of `mpiPi_insert_MPI_records`
unfoldable pub add_ops :
    Globals → List CallsiteStats → HashTable CallsiteStats → Run (HashTable CallsiteStats)
add_ops g [] table = ok table
add_ops g (p ∷ ps) table = do
  table' ← accumulate op_fns (fresh_op g) cs_merge table p
  add_ops g ps table'

-- `mpiPi_insert_MPI_records` at the collecting task; `sort` is `qsort` by operation
unfoldable pub insert_mpi_records :
    Globals
    → (sort : List CallsiteStats → List CallsiteStats) → Collected
    → Run (HashTable CallsiteStats)
unfolding add_ops
insert_mpi_records g sort c = do
  (_, table) ← h_open g.table_size (some op_fns.hf) (some op_fns.hc)
  (_, av) ← h_gather_data (some c.callsite_stats_agg)
  add_ops g (sort av) table
