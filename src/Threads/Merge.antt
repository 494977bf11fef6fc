-- ===== src/Threads/Merge.antt =====
-- `mpiPi_stats_mt_merge` of mpiP-mt-stats.c: the statistics of a task against those of its threads.
use a_mpi_p.Prelude.{
  ℕ, ◌+◌, ◌≤◌, ◌<◌, ◌≡◌, refl, true, ◌&&◌, ltb, if◌then◌else◌, Option, none, some, List, [], ◌∷◌,
  arith, Run, ok, Returns, length, ◌∙◌, ap,
}
use a_mpi_p.Globals.{Globals}
use a_mpi_p.Callsites.{CallsiteStats, cs_merge}
use a_mpi_p.Grid.{histcnt}
use a_mpi_p.ThreadStat.{ThreadStat}
use a_mpi_p.CallRecords.Table.{records, IsTable}
use a_mpi_p.CallRecords.Runs.{count_in, time_in, new_record-empty}
use a_mpi_p.CallRecords.Merge.{combine, cs_reset-empty}
use a_mpi_p.Aggregate.{merge_all}
use a_mpi_p.Aggregate.Sums.{MergedAll, merge_all-MergedAll}
use a_mpi_p.TsList.Fifo.{IsQueue, values, has}
use a_mpi_p.Threads.{mode_mt, MtStat, Handler, mt_merge}
use a_mpi_p.Threads.Loops.{in_turn, each_hndl-in_turn}

abbrev pub sum_over : (ℕ → ℕ) → List ℕ → ℕ
sum_over f [] = 0
sum_over f (a ∷ hndls) = f a + sum_over f hndls

combine-tally :
    (g : Globals) (k : ℕ) (d s : Option CallsiteStats)
    → (count_in (combine g k d s) ≡ count_in d + count_in s)
      × (time_in (combine g k d s) ≡ time_in d + time_in s)
unfolding combine cs_merge
combine-tally g k d none = (omega arith, omega arith)
combine-tally g k (some d) (some s) = (refl, refl)
combine-tally g k none (some s) =
    let fresh = new_record-empty g s.pc s.op s.rank k in
    (omega (arith, fresh.0), omega (arith, fresh.1))

-- the call count and the time of a key in a table
abbrev pub count_of : Globals → CallsiteStats → ThreadStat → ℕ
count_of g q s = count_in (records g s.cs_stats q)

abbrev pub time_of : Globals → CallsiteStats → ThreadStat → ℕ
time_of g q s = time_in (records g s.cs_stats q)

module _ (g : Globals) (deep : g.full_stack_depth ≤ g.stack_depth_max) (hs : ℕ → Handler) where
  -- the sums over the threads that have been merged into a state
  pub record Summed (hndls : List ℕ) (before after : ThreadStat) : Type 0 where
    pub valid : IsTable g after.cs_stats
    pub counts :
        (q : CallsiteStats)
        → count_of g q after ≡ count_of g q before + sum_over (λ a. count_of g q (hs a).stat) hndls
    pub times :
        (q : CallsiteStats)
        → time_of g q after ≡ time_of g q before + sum_over (λ a. time_of g q (hs a).stat) hndls
    pub cum_time : after.cum_time ≡ before.cum_time + sum_over (λ a. (hs a).stat.cum_time) hndls
    pub coll :
        (x y z : ℕ)
        → after.coll.time_stats x y z
          ≡ before.coll.time_stats x y z
            + (if ltb x g.nfunc && ltb y histcnt && ltb z histcnt
                then sum_over (λ a. (hs a).stat.coll.time_stats x y z) hndls
                else 0)

  abbrev body : ℕ → ThreadStat × ℕ → Run (ThreadStat × ℕ)
  body a acc = merge_all g acc.0 (hs a).stat acc.1

  Summed-cons :
      (a : ℕ) (hndls : List ℕ) (before between after : ThreadStat) (ctr : ℕ)
      → MergedAll g before (hs a).stat (between, ctr)
      → Summed hndls between after
      → Summed (a ∷ hndls) before after
  Summed-cons a hndls before between after ctr m r = record {
    valid = r.valid;
    counts = λ q.
        let (k, e) = m.sites q in
        omega (arith, r.counts q, ap count_in e, (combine-tally g k _ _).0);
    times = λ q.
        let (k, e) = m.sites q in omega (arith, r.times q, ap time_in e, (combine-tally g k _ _).1);
    cum_time = omega (arith, r.cum_time, m.time);
    coll = λ x y z. ground (arith, r.coll x y z, m.coll x y z);
  }

  in_turn-Summed :
      (hndls : List ℕ) (s : ThreadStat) (ctr : ℕ)
      → IsTable g s.cs_stats
      → ((a : ℕ) → has a hndls ≡ true → IsTable g (hs a).stat.cs_stats)
      → Returns (in_turn body hndls (s, ctr)) (λ r. Summed hndls s r.0)
  unfolding in_turn
  in_turn-Summed [] s ctr v w = (
    (s, ctr),
    refl,
    record {
      valid = v;
      counts = λ q. omega arith;
      times = λ q. omega arith;
      cum_time = omega arith;
      coll = λ x y z. ground arith;
    },
  )
  in_turn-Summed (a ∷ hndls) s ctr v w =
      let (r, run, m) = merge_all-MergedAll g s (hs a).stat ctr deep v (w a (ground arith)) in
      let (t, rest, sums) = in_turn-Summed hndls r.0 r.1 m.valid (λ b e. w b (ground arith)) in
      (t, rw (run, in_turn) rest, Summed-cons a hndls s r.0 t.0 r.1 m sums)

-- the outcome of a merge of the threads with the handlers `hndls`
pub record MergedThreads (g : Globals) (mt : MtStat) (hndls : List ℕ)
    (r : Option (Run (MtStat × ℕ))) : Type 0 where
  pub after : ThreadStat
  pub ctr : ℕ
  pub returns : r ≡ some (ok (record mt { rank_stats = after }, ctr))
  pub valid : IsTable g after.cs_stats
  pub counts :
      (q : CallsiteStats)
      → count_of g q after ≡ sum_over (λ a. count_of g q (mt.handlers a).stat) hndls
  pub times :
      (q : CallsiteStats)
      → time_of g q after ≡ sum_over (λ a. time_of g q (mt.handlers a).stat) hndls
  pub cum_time :
      after.cum_time ≡ mt.rank_stats.cum_time + sum_over (λ a. (mt.handlers a).stat.cum_time) hndls
  pub coll :
      (x y z : ℕ)
      → after.coll.time_stats x y z
        ≡ mt.rank_stats.coll.time_stats x y z
          + (if ltb x g.nfunc && ltb y histcnt && ltb z histcnt
              then sum_over (λ a. (mt.handlers a).stat.coll.time_stats x y z) hndls
              else 0)

-- In the multi-threaded mode, if the thread list holds a queue, the fuel exceeds its length, the
-- stack depth fits the stack arrays, and the tables of the task and of the listed threads are
-- valid, the merge returns and changes only the statistics of the task. Their table is valid, and
-- every key has in it the sums over the listed threads of its call counts and of its times,
-- whatever the table held before. The time and the collective array of the task grow by the sums
-- over the threads, on top of what they held.
pub mt_merge-MergedThreads :
    (g : Globals) (fuel ctr : ℕ) (mt : MtStat) (xs : List ℕ)
    → mt.mode ≡ mode_mt
    → IsQueue mt.tls_list xs
    → length xs < fuel
    → g.full_stack_depth ≤ g.stack_depth_max
    → IsTable g mt.rank_stats.cs_stats
    → ((a : ℕ) → has a (values mt.tls_list.ptr xs) ≡ true → IsTable g (mt.handlers a).stat.cs_stats)
    → MergedThreads g mt (values mt.tls_list.ptr xs) (mt_merge g fuel ctr mt)
unfolding mt_merge
mt_merge-MergedThreads g fuel ctr mt xs multi q lt deep v w =
    let (s, reset, (sv, gone, same)) = cs_reset-empty g mt.rank_stats v in
    let (r, run, sums) = in_turn-Summed g deep mt.handlers (values mt.tls_list.ptr xs) s ctr sv w in
    let loop = each_hndl-in_turn (body g deep mt.handlers) fuel mt.tls_list xs (s, ctr) q lt in
    record {
      after = r.0;
      ctr = r.1;
      returns = rw (multi, mt_merge) (rw reset (rw (loop, run) (rw multi)));
      valid = sums.valid;
      counts = λ key. omega (arith, sums.counts key, ap count_in (gone key));
      times = λ key. omega (arith, sums.times key, ap time_in (gone key));
      cum_time = sums.cum_time ∙ rw same;
      coll = λ x y z. sums.coll x y z ∙ rw same;
    }
