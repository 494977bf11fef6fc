-- ===== src/CallRecords/Update.antt =====
-- `mpiPi_stats_thr_cs_upd` of mpiP-stats.c: what one call does to the records of its thread.
use a_mpi_p.Prelude.{
  ℕ, ◌+◌, ◌≡◌, refl, Bool, true, false, not, ◌&&◌, ◌||◌, ◌==◌, Bool-cases, none, some, inl, inr,
  arith, if◌then◌else◌, ok, Returns, ◌∙◌, length, length-append, ℤ,
}
use a_mpi_p.Hash.Insert.{write_through-IsValid, view-write_through}
use a_mpi_p.Globals.{Globals}
use a_mpi_p.Callsites.{CallsiteStats, cs_update}
use a_mpi_p.Callsites.Keys.{thread_fns, thread_fns-IsHashable, matches_of_same}
use a_mpi_p.ThreadStat.{ThreadStat, thr_is_on}
use a_mpi_p.CallRecords.{
  Call, Tracing, Comm, after_call, new_record, call_key, trace_call, update_by, record_call, cs_upd,
}
use a_mpi_p.CallRecords.Table.{
  records, IsTable, same_site, or_new, new_record-call_key, find_or_create-Found,
}

update_by-same_site :
    (g : Globals) (c : Call) (a : CallsiteStats) → same_site g (update_by g c a) a ≡ true
unfolding cs_update
update_by-same_site g c a = matches_of_same g.full_stack_depth _ a refl refl (λ j lt. refl)

-- the record that a call finds, or that is made for it
abbrev pub record_for : Globals → ThreadStat → Tracing → Call → CallsiteStats
record_for g stat w c =
    or_new (records g stat.cs_stats (call_key g c.pc c.op c.rank))
      (new_record g c.pc c.op c.rank w.tmp_ctr)

-- What a recorded call does: it updates the record of its call site and no other, takes the clock,
-- writes one line unless it is collective, and leaves the rest of the thread's state alone.
pub record Updated (g : Globals) (later : ℕ) (stat : ThreadStat) (w : Tracing) (c : Call)
    (r : ThreadStat × Tracing) : Type 0 where
  pub valid : IsTable g r.0.cs_stats
  pub reads :
      (q : CallsiteStats)
      → records g r.0.cs_stats q ≡ (
          if same_site g (call_key g c.pc c.op c.rank) q
          then some (update_by g c (record_for g stat w c))
          else records g stat.cs_stats q)
  pub rest : r.0 ≡ record stat {
    cs_stats = r.0.cs_stats;
    prev_csid = (record_for g stat w c).tmpid;
    prev_time = later;
  }
  pub traced : length r.1.lines ≡ length w.lines + (if c.is_coll then 0 else 1)

length-trace_call :
    (t op d send : ℕ) (coll : Bool) (comm : Comm) (dest : ℤ)
    → length (trace_call t op d send coll comm dest) ≡ (if coll then 0 else 1)
unfolding trace_call
length-trace_call t op d send true comm dest = refl
length-trace_call t op d send false none dest = refl
length-trace_call t op d send false (some f) dest = refl

module _ (g : Globals) (now later : ℕ) (stat : ThreadStat) (w : Tracing) (c : Call) where
  record_call-Updated :
      IsTable g stat.cs_stats
      → Returns (record_call g now later stat w c) (Updated g later stat w c)
  unfolding record_call
  record_call-Updated v =
      let hash = thread_fns-IsHashable g.full_stack_depth in
      let key = call_key g c.pc c.op c.rank in
      let (found, run, f) =
        find_or_create-Found g stat.cs_stats v key c.pc c.op c.rank w.tmp_ctr
          (new_record-call_key g c.pc c.op c.rank w.tmp_ctr) in
      let there : records g found.1 key ≡ some found.0 =
        f.reads key ∙ rw (hash.comparator.matches_refl key) in
      (
        after_call g now later stat w c found,
        rw run,
        unfold after_call in
            record {
              valid =
                  write_through-IsValid (thread_fns g.full_stack_depth) hash found.1 f.valid key
                    (update_by g c) (update_by-same_site g c);
              reads = λ q.
                  view-write_through (thread_fns g.full_stack_depth) hash found.1 f.valid key
                    (update_by g c) (update_by-same_site g c) found.0 there q
                  ∙ elim (Bool-cases (same_site g key q)) [
                    | inl m ↦ rw (m, f.csp)
                    | inr m ↦ rw m (f.reads q ∙ rw m)
                  ];
              rest = rw (← f.csp);
              traced = rw (length-append, length-trace_call);
            },
      )

  -- If the table of a thread is valid, the thread is on, and the call is of rank 0 or all ranks
  -- are traced, `cs_upd` returns a state with a valid table. The keys of the call's site find the
  -- record of the call, which is made where there was none, updated by the call, and the other
  -- keys what they found before. The state takes the id of that record and the second reading of
  -- the clock and is otherwise as it was, and the trace has one line more, or none for a
  -- collective call.
  pub cs_upd-Updated :
      IsTable g stat.cs_stats
      → thr_is_on g stat ≡ true
      → (c.rank == 0 || g.trace_all_ranks) ≡ true
      → Returns (cs_upd g now later stat w c) (Updated g later stat w c)
  unfolding cs_upd
  cs_upd-Updated v on traced =
      let (r, run, u) = record_call-Updated v in
      let passes : (not (c.rank == 0) && not g.trace_all_ranks) ≡ false = ground arith in
      (r, rw (on, passes) run, u)

  -- If the thread is not on, or the call is of another rank than 0 while not all ranks are traced,
  -- `cs_upd` changes neither the state nor the trace.
  pub cs_upd-ignored :
      (thr_is_on g stat && (c.rank == 0 || g.trace_all_ranks)) ≡ false
      → cs_upd g now later stat w c ≡ ok (stat, w)
  unfolding cs_upd
  cs_upd-ignored off = elim (Bool-cases (thr_is_on g stat)) [
    | inr nested ↦ rw nested
    | inl on ↦
        let other : (not (c.rank == 0) && not g.trace_all_ranks) ≡ true = ground arith in
        rw (on, other)
  ]
