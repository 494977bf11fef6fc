-- ===== src/Collector/Inserts.antt =====
-- `mpiPi_insert_callsite_records` of mpiPi.c over the records of all tasks: what the aggregate
-- table and the global sums hold afterwards.
use a_mpi_p.Prelude.{
  ℕ, ◌+◌, ◌≡◌, refl, Bool, true, ◌==◌, if◌then◌else◌, Bool-cases, Option, none, some, inl, inr,
  List, [], ◌∷◌, arith, Returns, ◌∙◌,
}
use a_mpi_p.Chain.{matches}
use a_mpi_p.Hash.{HashTable}
use a_mpi_p.Hash.Buckets.{view, IsValid}
use a_mpi_p.Globals.{Globals}
use a_mpi_p.Callsites.{CallsiteStats, cs_merge}
use a_mpi_p.Callsites.Keys.{
  src_comparator, src_fns, src_id_comparator, src_id_fns, src_fns-IsHashable, src_id_fns-IsHashable,
}
use a_mpi_p.CallRecords.Runs.{count_in, time_in}
use a_mpi_p.Collector.{Collected, fresh_agg, merge_agg, add_globals, insert_by_rank, insert_queried}
use a_mpi_p.Collector.Accumulate.{joined, accumulate-Accumulated}

pub src-same :
    (a b : CallsiteStats)
    → a.op ≡ b.op
    → a.csid ≡ b.csid
    → a.rank ≡ b.rank
    → matches src_fns.hc a b ≡ true
unfolding src_comparator
src-same a b op csid rank = ground arith

src_id-same :
    (a b : CallsiteStats) → a.op ≡ b.op → a.csid ≡ b.csid → matches src_id_fns.hc a b ≡ true
unfolding src_id_comparator
src_id-same a b op csid = ground arith

keeps_fresh_agg : (g : Globals) (p : CallsiteStats) → matches src_id_fns.hc (fresh_agg g p) p ≡ true
unfolding fresh_agg
keeps_fresh_agg g p = elim (Bool-cases g.calc_cov) [
  | inl e ↦ rw e (src_id-same _ p refl refl)
  | inr e ↦ rw e (src_id-same _ p refl refl)
]

keeps_merge_agg :
    (g : Globals) (a p : CallsiteStats) → matches src_id_fns.hc (merge_agg g a p) a ≡ true
unfolding merge_agg cs_merge
keeps_merge_agg g a p = elim (Bool-cases g.calc_cov) [
  | inl e ↦ rw e (src_id-same _ a refl refl)
  | inr e ↦ rw e (src_id-same _ a refl refl)
]

pub keeps_cs_merge : (a p : CallsiteStats) → matches src_fns.hc (cs_merge a p) a ≡ true
unfolding cs_merge
keeps_cs_merge a p = src-same _ a refl refl refl

abbrev joined_agg : Globals → Option CallsiteStats → CallsiteStats → CallsiteStats
joined_agg g =
    joined src_id_fns src_id_fns-IsHashable (fresh_agg g) (merge_agg g) (keeps_fresh_agg g)
      (keeps_merge_agg g)

joined_agg-tally :
    (g : Globals) (o : Option CallsiteStats) (p : CallsiteStats)
    → ((joined_agg g o p).count ≡ count_in o + p.count)
      × ((joined_agg g o p).cumulative_time ≡ time_in o + p.cumulative_time)
unfolding fresh_agg merge_agg cs_merge
joined_agg-tally g none p = elim (Bool-cases g.calc_cov) [
  | inl e ↦ rw e (omega arith, omega arith)
  | inr e ↦ rw e (omega arith, omega arith)
]
joined_agg-tally g (some a) p = elim (Bool-cases g.calc_cov) [
  | inl e ↦ rw e (refl, refl)
  | inr e ↦ rw e (refl, refl)
]

-- the sum of a field over the records of a list that pass a test
abbrev pub sum_where : (CallsiteStats → Bool) → (CallsiteStats → ℕ) → List CallsiteStats → ℕ
sum_where test f [] = 0
sum_where test f (p ∷ ps) = (if test p then f p else 0) + sum_where test f ps

abbrev pub agg_of : Collected → CallsiteStats → Option CallsiteStats
agg_of c = view src_id_fns c.callsite_stats_agg

-- both tables of the collector are valid
abbrev pub IsCollected : Collected → Type 0
IsCollected c = IsValid src_fns c.callsite_stats × IsValid src_id_fns c.callsite_stats_agg

-- what the insertion of the records `ps` adds
pub record Added (ps : List CallsiteStats) (c r : Collected) : Type 0 where
  pub valid : IsCollected r
  pub counts :
      (q : CallsiteStats)
      → count_in (agg_of r q)
        ≡ count_in (agg_of c q) + sum_where (λ p. matches src_id_fns.hc p q) (λ p. p.count) ps
  pub times :
      (q : CallsiteStats)
      → time_in (agg_of r q)
        ≡ time_in (agg_of c q)
          + sum_where (λ p. matches src_id_fns.hc p q) (λ p. p.cumulative_time) ps
  pub mpi_time : r.mpi_time ≡ c.mpi_time + sum_where (λ p. true) (λ p. p.cumulative_time) ps
  pub mpi_size : r.mpi_size ≡ c.mpi_size + sum_where (λ p. true) (λ p. p.cumulative_data_sent) ps
  pub task_time :
      (t : ℕ)
      → r.task_mpi_time t
        ≡ c.task_mpi_time t + sum_where (λ p. t == p.rank) (λ p. p.cumulative_time) ps

by_rank_lem :
    (g : Globals) (table : HashTable CallsiteStats) (p : CallsiteStats)
    → IsValid src_fns table
    → Returns (insert_by_rank g table p) (IsValid src_fns)
unfolding insert_by_rank
by_rank_lem g table p v = elim (Bool-cases g.collective_report) [
  | inl e ↦ rw e (table, refl, v)
  | inr e ↦
      let (r, run, a) =
        accumulate-Accumulated src_fns src_fns-IsHashable (λ q. q) cs_merge
          (λ a. src-same a a refl refl refl) keeps_cs_merge table v p in
      rw e (r, run, a.valid)
]

-- One record adds its counts and its times to the record of its operation and call site, and to the
-- global sums.
pub insert_queried-Added :
    (g : Globals) (c : Collected) (p : CallsiteStats)
    → IsCollected c
    → Returns (insert_queried g c p) (Added (p ∷ []) c)
unfolding insert_queried add_globals
insert_queried-Added g c p v =
    let (by_rank, first, valid) = by_rank_lem g c.callsite_stats p v.0 in
    let (by_site, second, a) =
      accumulate-Accumulated src_id_fns src_id_fns-IsHashable (fresh_agg g) (merge_agg g)
        (keeps_fresh_agg g) (keeps_merge_agg g) c.callsite_stats_agg v.1 p in
    (
      add_globals p (record c { callsite_stats = by_rank; callsite_stats_agg = by_site }),
      rw first (rw second),
      record {
        valid = (valid, a.valid);
        counts = λ q. elim (Bool-cases (matches src_id_fns.hc p q)) [
          | inl m ↦
              let reads : view src_id_fns by_site q ≡ some (joined_agg g (agg_of c q) p) =
                a.reads q ∙ rw m in
              rw (reads, m) (omega (arith, (joined_agg-tally g (agg_of c q) p).0))
          | inr m ↦ rw (a.reads q, m) (omega arith)
        ];
        times = λ q. elim (Bool-cases (matches src_id_fns.hc p q)) [
          | inl m ↦
              let reads : view src_id_fns by_site q ≡ some (joined_agg g (agg_of c q) p) =
                a.reads q ∙ rw m in
              rw (reads, m) (omega (arith, (joined_agg-tally g (agg_of c q) p).1))
          | inr m ↦ rw (a.reads q, m) (omega arith)
        ];
        mpi_time = omega arith;
        mpi_size = omega arith;
        task_time = λ t. ground arith;
      },
    )
