-- ===== src/Collector/All.antt =====
-- The loops of `mpiPi_mergeResults` and `mpiPi_insert_MPI_records` of mpiPi.c over all records.
use a_mpi_p.Prelude.{
  ℕ, ◌+◌, ◌≡◌, refl, true, if◌then◌else◌, Option, none, some, List, [], ◌∷◌, arith, Returns, ◌∙◌,
  ap, inl, inr, Bool-cases,
}
use a_mpi_p.Chain.{matches}
use a_mpi_p.Hash.{HashTable}
use a_mpi_p.Hash.Buckets.{view, IsValid}
use a_mpi_p.Globals.{Globals}
use a_mpi_p.Callsites.{CallsiteStats, cs_merge}
use a_mpi_p.Callsites.Keys.{op_fns, op_comparator, op_fns-IsHashable}
use a_mpi_p.CallRecords.Runs.{count_in, time_in}
use a_mpi_p.Sources.{SrcLoc}
use a_mpi_p.Sources.Lookup.{Sources}
use a_mpi_p.Sources.Cache.{IsCache}
use a_mpi_p.Sources.Query.{IsLocated, query_src-IsLocated}
use a_mpi_p.Collector.{Collected, fresh_op, add_ops, insert_callsite_records, insert_all}
use a_mpi_p.Collector.Accumulate.{joined, accumulate-Accumulated}
use a_mpi_p.Collector.Inserts.{sum_where, IsCollected, Added, insert_queried-Added}

Added-nil : (c : Collected) → IsCollected c → Added [] c c
Added-nil c v = record {
  valid = v;
  counts = λ q. omega arith;
  times = λ q. omega arith;
  mpi_time = omega arith;
  mpi_size = omega arith;
  task_time = λ t. omega arith;
}

Added-cons :
    (p : CallsiteStats) (ps : List CallsiteStats) (c m r : Collected)
    → Added (p ∷ []) c m
    → Added ps m r
    → Added (p ∷ ps) c r
Added-cons p ps c m r a b = record {
  valid = b.valid;
  counts = λ q. omega (arith, a.counts q, b.counts q);
  times = λ q. omega (arith, a.times q, b.times q);
  mpi_time = omega (arith, a.mpi_time, b.mpi_time);
  mpi_size = omega (arith, a.mpi_size, b.mpi_size);
  task_time = λ t. omega (arith, a.task_time t, b.task_time t);
}

-- the records of the second list are those of the first, in order, with ids and source locations
abbrev pub AllLocated : (ps qs : List CallsiteStats) → Type 0
AllLocated [] [] = Unit
AllLocated [] (q ∷ qs) = ⊥
AllLocated (p ∷ ps) [] = ⊥
AllLocated (p ∷ ps) (q ∷ qs) = IsLocated p q × AllLocated ps qs

pub insert_all-Added :
    (g : Globals) (find : ℕ → SrcLoc) (ps : List CallsiteStats) (s : Sources) (c : Collected)
    → IsCache find s.pc_cache
    → IsCollected c
    → Returns
        (insert_all g find ps s c)
        (λ r. (qs : List CallsiteStats) × AllLocated ps qs × Added qs c r.0)
unfolding insert_all insert_callsite_records
insert_all-Added g find [] s c cache v = ((c, s), refl, ([], tt, Added-nil c v))
insert_all-Added g find (p ∷ ps) s c cache v =
    let ((q, s'), found, (named, kept, _, _)) = query_src-IsLocated g find s p cache in
    let (m, inserted, a) = insert_queried-Added g c q v in
    let (r, rest, (qs, all, b)) = insert_all-Added g find ps s' m kept a.valid in
    (r, rw found (rw inserted rest), (q ∷ qs, (named, all), Added-cons q qs c m r.0 a b))

op-same : (a b : CallsiteStats) → a.op ≡ b.op → matches op_fns.hc a b ≡ true
unfolding op_comparator
op-same a b op = ground arith

keeps_cs_merge_op : (a p : CallsiteStats) → matches op_fns.hc (cs_merge a p) a ≡ true
unfolding cs_merge
keeps_cs_merge_op a p = op-same _ a refl

-- what the loop over call sites adds to the table by operation
pub record AddedOps (ps : List CallsiteStats) (before after : HashTable CallsiteStats)
    : Type 0 where
  pub valid : IsValid op_fns after
  pub counts :
      (q : CallsiteStats)
      → count_in (view op_fns after q)
        ≡ count_in (view op_fns before q) + sum_where (λ p. matches op_fns.hc p q) (λ p. p.count) ps
  pub times :
      (q : CallsiteStats)
      → time_in (view op_fns after q)
        ≡ time_in (view op_fns before q)
          + sum_where (λ p. matches op_fns.hc p q) (λ p. p.cumulative_time) ps

abbrev joined_op : Globals → Option CallsiteStats → CallsiteStats → CallsiteStats
joined_op g =
    joined op_fns op_fns-IsHashable (fresh_op g) cs_merge (λ p. op-same _ p refl) keeps_cs_merge_op

joined_op-tally :
    (g : Globals) (o : Option CallsiteStats) (p : CallsiteStats)
    → ((joined_op g o p).count ≡ count_in o + p.count)
      × ((joined_op g o p).cumulative_time ≡ time_in o + p.cumulative_time)
unfolding cs_merge
joined_op-tally g none p = (omega arith, omega arith)
joined_op-tally g (some a) p = (refl, refl)

AddedOps-cons :
    (g : Globals) (p : CallsiteStats) (ps : List CallsiteStats)
    (before between after : HashTable CallsiteStats)
    → ((q : CallsiteStats)
        → view op_fns between q ≡ (
            if matches op_fns.hc p q
            then some (joined_op g (view op_fns before q) p)
            else view op_fns before q))
    → AddedOps ps between after
    → AddedOps (p ∷ ps) before after
AddedOps-cons g p ps before between after reads b = record {
  valid = b.valid;
  counts = λ q. elim (Bool-cases (matches op_fns.hc p q)) [
    | inl m ↦
        let now : view op_fns between q ≡ some (joined_op g (view op_fns before q) p) =
          reads q ∙ rw m in
        rw m (omega (arith, b.counts q, ap count_in now, (joined_op-tally g _ p).0))
    | inr m ↦
        let now : view op_fns between q ≡ view op_fns before q = reads q ∙ rw m in
        rw m (omega (arith, b.counts q, ap count_in now))
  ];
  times = λ q. elim (Bool-cases (matches op_fns.hc p q)) [
    | inl m ↦
        let now : view op_fns between q ≡ some (joined_op g (view op_fns before q) p) =
          reads q ∙ rw m in
        rw m (omega (arith, b.times q, ap time_in now, (joined_op-tally g _ p).1))
    | inr m ↦
        let now : view op_fns between q ≡ view op_fns before q = reads q ∙ rw m in
        rw m (omega (arith, b.times q, ap time_in now))
  ];
}

-- If the table by operation is valid, the loop over any list of call-site records returns a valid
-- table in which the count and the time of every key grow by the sums over the listed records of
-- its operation.
pub add_ops-AddedOps :
    (g : Globals) (ps : List CallsiteStats) (table : HashTable CallsiteStats)
    → IsValid op_fns table
    → Returns (add_ops g ps table) (AddedOps ps table)
unfolding add_ops
add_ops-AddedOps g [] table v =
    (table, refl, record { valid = v; counts = λ q. omega arith; times = λ q. omega arith })
add_ops-AddedOps g (p ∷ ps) table v =
    let (t, run, a) =
      accumulate-Accumulated op_fns op_fns-IsHashable (fresh_op g) cs_merge (λ q. op-same _ q refl)
        keeps_cs_merge_op table v p in
    let (r, rest, b) = add_ops-AddedOps g ps t a.valid in
    (r, rw run rest, AddedOps-cons g p ps table t r a.reads b)
