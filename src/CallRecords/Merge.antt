-- ===== src/CallRecords/Merge.antt =====
-- `mpiPi_stats_thr_cs_merge`, `mpiPi_stats_thr_cs_reset` and `mpiPi_stats_thr_cs_lookup` of
-- mpiP-stats.c against the tables seen as maps.
use a_mpi_p.Prelude.{
  ℕ, ◌≤◌, ◌≡◌, refl, true, Bool-cases, Option, none, some, inl, inr, List, [], ◌∷◌, arith,
  if◌then◌else◌, Returns, ◌∙◌, ap,
}
use a_mpi_p.Chain.{find, count, find-eq-none}
use a_mpi_p.Hash.{HashTable, write_through, empty_table}
use a_mpi_p.Hash.Buckets.{view_congr, empty_table-IsValid, view-empty_table}
use a_mpi_p.Hash.Insert.{write_through-IsValid, view-write_through}
use a_mpi_p.Hash.Gather.{h_gather_data-Gathered, h_drain-Gathered}
use a_mpi_p.Globals.{Globals}
use a_mpi_p.Callsites.{CallsiteStats, cs_merge}
use a_mpi_p.Callsites.Keys.{thread_fns, thread_fns-IsHashable, matches_of_same}
use a_mpi_p.ThreadStat.{ThreadStat}
use a_mpi_p.CallRecords.{new_record, cs_gather, cs_reset, merge_records, thr_cs_merge}
use a_mpi_p.CallRecords.Table.{
  records, IsTable, same_site, or_new, new_record-same_site, Found, find_or_create-Found,
}

-- What a merge makes of the records of one key in the two tables; `ctr` is the counter that the
-- creation of a record, where there was none, has used.
unfoldable pub combine :
    Globals → (ctr : ℕ) → (dst src : Option CallsiteStats) → Option CallsiteStats
combine g ctr dst none = dst
combine g ctr dst (some s) = some (cs_merge (or_new dst (new_record g s.pc s.op s.rank ctr)) s)

cs_merge-same_site : (g : Globals) (src a : CallsiteStats) → same_site g (cs_merge a src) a ≡ true
unfolding cs_merge
cs_merge-same_site g src a = matches_of_same g.full_stack_depth _ a refl refl (λ j lt. refl)

module _ (g : Globals) (deep : g.full_stack_depth ≤ g.stack_depth_max) where
  -- one round of the loop
  record Round (table : HashTable CallsiteStats) (src : CallsiteStats) (ctr : ℕ)
      (t : HashTable CallsiteStats) : Type 0 where
    valid : IsTable g t
    reads :
        (q : CallsiteStats)
        → records g t q ≡ (
            if same_site g src q
            then combine g ctr (records g table src) (some src)
            else records g table q)

  Round-Found :
      (table : HashTable CallsiteStats) (src : CallsiteStats) (ctr : ℕ)
      (r : CallsiteStats × HashTable CallsiteStats × ℕ)
      → Found g table src (new_record g src.pc src.op src.rank ctr) r
      → Round table src ctr
          (write_through (thread_fns g.full_stack_depth) r.1 src (λ dst. cs_merge dst src))
  unfolding combine
  Round-Found table src ctr r f =
      let hash = thread_fns-IsHashable g.full_stack_depth in
      let there : records g r.1 src ≡ some r.0 =
        f.reads src ∙ rw (hash.comparator.matches_refl src) in
      record {
        valid =
            write_through-IsValid (thread_fns g.full_stack_depth) hash r.1 f.valid src _
              (cs_merge-same_site g src);
        reads = λ q.
            view-write_through (thread_fns g.full_stack_depth) hash r.1 f.valid src _
              (cs_merge-same_site g src) r.0 there q
            ∙ elim (Bool-cases (same_site g src q)) [
              | inl m ↦ rw (m, f.csp)
              | inr m ↦ rw m (f.reads q ∙ rw m)
            ];
      }

  -- the loop over an array in which no key occurs twice
  record Loop (av : List CallsiteStats) (table t : HashTable CallsiteStats) : Type 0 where
    valid : IsTable g t
    reads :
        (q : CallsiteStats)
        → (k : ℕ) × (records g t q
            ≡ combine g k (records g table q) (find (thread_fns g.full_stack_depth).hc q av))

  Loop-cons :
      (src : CallsiteStats) (av : List CallsiteStats) (ctr : ℕ)
      (table t u : HashTable CallsiteStats)
      → ((q : CallsiteStats) → count (thread_fns g.full_stack_depth).hc q (src ∷ av) ≤ 1)
      → Round table src ctr t
      → Loop av t u
      → Loop (src ∷ av) table u
  unfolding find count combine
  Loop-cons src av ctr table t u once r l = record {
    valid = l.valid;
    reads = λ q.
        let (k, e) = l.reads q in
        elim (Bool-cases (same_site g src q)) [
          | inl m ↦
              let gone : find (thread_fns g.full_stack_depth).hc q av ≡ none =
                find-eq-none (thread_fns g.full_stack_depth).hc q av (ground (arith, once q)) in
              (
                ctr,
                rw (m, e)
                    (rw gone (
                      r.reads q
                      ∙ rw m (
                          ap (λ o. combine g ctr o (some src))
                            (view_congr _ (thread_fns-IsHashable g.full_stack_depth) table src q
                              m)))),
              )
          | inr m ↦
              let kept : records g t q ≡ records g table q = r.reads q ∙ rw m in
              (k, rw m (e ∙ rw kept))
        ];
  }

  merge_records-Loop :
      (av : List CallsiteStats) (table : HashTable CallsiteStats) (ctr : ℕ)
      → IsTable g table
      → ((q : CallsiteStats) → count (thread_fns g.full_stack_depth).hc q av ≤ 1)
      → Returns (merge_records g av table ctr) (λ r. Loop av table r.0)
  unfolding merge_records find count combine
  merge_records-Loop [] table ctr v once =
      ((table, ctr), refl, record { valid = v; reads = λ q. (0, refl) })
  merge_records-Loop (src ∷ av) table ctr v once =
      let (found, run, f) =
        find_or_create-Found g table v src src.pc src.op src.rank ctr
          (new_record-same_site g src ctr deep) in
      let round = Round-Found table src ctr found f in
      let (r, runs, l) = merge_records-Loop av _ found.2 round.valid (λ q. omega (arith, once q)) in
      (r, rw run runs, Loop-cons src av ctr table _ r.0 once round l)

  -- The outcome of a merge: every key finds in the destination what `combine` makes of the records
  -- that it found in the two tables, and the rest of the destination's state is as it was.
  pub record MergedTables (dst src : ThreadStat) (r : ThreadStat × ℕ) : Type 0 where
    pub valid : IsTable g r.0.cs_stats
    pub reads :
        (q : CallsiteStats)
        → (k : ℕ) × (records g r.0.cs_stats q
            ≡ combine g k (records g dst.cs_stats q) (records g src.cs_stats q))
    pub rest : r.0 ≡ record dst { cs_stats = r.0.cs_stats }

  -- If the stack depth fits the stack arrays and both tables are valid, merging the records of a
  -- thread into another returns, and leaves a valid table in which every key finds what `combine`
  -- makes of the records that it found in the two tables: the merge of both, the destination's
  -- where the source has none, and the source's merged into a new record where the destination has
  -- none. The rest of the destination's state is as it was.
  pub thr_cs_merge-MergedTables :
      (dst src : ThreadStat) (ctr : ℕ)
      → IsTable g dst.cs_stats
      → IsTable g src.cs_stats
      → Returns (thr_cs_merge g dst src ctr) (MergedTables dst src)
  unfolding thr_cs_merge cs_gather
  thr_cs_merge-MergedTables dst src ctr v w =
      let (av, run, got) = h_gather_data-Gathered (thread_fns g.full_stack_depth) src.cs_stats w in
      let (r, runs, l) = merge_records-Loop av.1 dst.cs_stats ctr v got.once in
      (
        (record dst { cs_stats = r.0 }, r.1),
        rw run (rw runs),
        record {
          valid = l.valid;
          reads = λ q. let (k, e) = l.reads q in (k, e ∙ ap (combine g k _) (got.reads q));
          rest = refl;
        },
      )

-- The reset of the records of a thread with a valid table returns, and leaves a valid table in
-- which no key finds a record, namely the empty one of the same size, and the rest of the state as
-- it was.
pub cs_reset-empty :
    (g : Globals) (s : ThreadStat)
    → IsTable g s.cs_stats
    → Returns (cs_reset s) λ r.
      IsTable g r.cs_stats
      × ((q : CallsiteStats) → records g r.cs_stats q ≡ none)
      × (r ≡ record s { cs_stats = empty_table s.cs_stats.size })
unfolding cs_reset
cs_reset-empty g s v =
    let (r, run, (_, e)) = h_drain-Gathered (thread_fns g.full_stack_depth) s.cs_stats v in
    (
      record s { cs_stats = r.1 },
      rw run,
      (
        rw e (empty_table-IsValid (thread_fns g.full_stack_depth) s.cs_stats.size v.sized),
        λ q. rw e (view-empty_table (thread_fns g.full_stack_depth) s.cs_stats.size q),
        rw e,
      ),
    )
