-- ===== src/CallRecords/Runs.antt =====
-- `mpiPi_stats_thr_cs_upd` of mpiP-stats.c along whole sequences of calls.
use a_mpi_p.Prelude.{
  ℕ, ◌+◌, ◌≡◌, refl, Bool, true, ◌&&◌, ◌||◌, ◌==◌, Bool-cases, Option, none, some, inl, inr, List,
  [], ◌∷◌, arith, if◌then◌else◌, Run, ok, Returns, ◌>>=◌, to_nat,
}
use a_mpi_p.Globals.{Globals}
use a_mpi_p.Callsites.{CallsiteStats, cs_update}
use a_mpi_p.Callsites.Keys.{thread_fns-IsHashable}
use a_mpi_p.ThreadStat.{ThreadStat, thr_is_on}
use a_mpi_p.CallRecords.{Call, Tracing, new_record, call_key, update_by, cs_upd}
use a_mpi_p.CallRecords.Table.{records, IsTable, same_site, or_new}
use a_mpi_p.Hash.Buckets.{view_congr}
use a_mpi_p.CallRecords.Update.{Updated, cs_upd-Updated, cs_upd-ignored}

-- A thread that makes the calls of a list, each with its two readings of the clock.
unfoldable pub run_calls :
    Globals → List (ℕ × ℕ × Call) → ThreadStat → Tracing → Run (ThreadStat × Tracing)
run_calls g [] stat w = ok (stat, w)
run_calls g ((now, later, c) ∷ calls) stat w = do
  (stat', w') ← cs_upd g now later stat w c
  run_calls g calls stat' w'

-- the calls of a list that are counted at the site of `q`, and their time
abbrev pub counts_at : Globals → CallsiteStats → Call → Bool
counts_at g q c = (c.rank == 0 || g.trace_all_ranks) && same_site g (call_key g c.pc c.op c.rank) q

pub calls_at : Globals → CallsiteStats → List (ℕ × ℕ × Call) → ℕ
calls_at g q [] = 0
calls_at g q ((now, later, c) ∷ calls) = to_nat (counts_at g q c) + calls_at g q calls

pub time_at : Globals → CallsiteStats → List (ℕ × ℕ × Call) → ℕ
time_at g q [] = 0
time_at g q ((now, later, c) ∷ calls) = (if counts_at g q c then c.dur else 0) + time_at g q calls

abbrev pub count_in : Option CallsiteStats → ℕ
count_in none = 0
count_in (some r) = r.count

abbrev pub time_in : Option CallsiteStats → ℕ
time_in none = 0
time_in (some r) = r.cumulative_time

-- the effect of a run on what every key finds
pub record Tallied (g : Globals) (stat : ThreadStat) (calls : List (ℕ × ℕ × Call))
    (r : ThreadStat × Tracing) : Type 0 where
  pub valid : IsTable g r.0.cs_stats
  pub counts :
      (q : CallsiteStats)
      → count_in (records g r.0.cs_stats q)
        ≡ count_in (records g stat.cs_stats q) + calls_at g q calls
  pub times :
      (q : CallsiteStats)
      → time_in (records g r.0.cs_stats q) ≡ time_in (records g stat.cs_stats q) + time_at g q calls

pub new_record-empty :
    (g : Globals) (pc : List ℕ) (op rank ctr : ℕ)
    → ((new_record g pc op rank ctr).count ≡ 0)
      × ((new_record g pc op rank ctr).cumulative_time ≡ 0)
unfolding new_record
new_record-empty g pc op rank ctr = (refl, refl)

or_new-tally :
    (g : Globals) (c : Call) (o : Option CallsiteStats) (fresh : CallsiteStats)
    → fresh.count ≡ 0
    → fresh.cumulative_time ≡ 0
    → ((update_by g c (or_new o fresh)).count ≡ count_in o + 1)
      × ((update_by g c (or_new o fresh)).cumulative_time ≡ time_in o + c.dur)
unfolding cs_update
or_new-tally g c none fresh h k = (omega arith, omega arith)
or_new-tally g c (some r) fresh h k = (refl, refl)

Updated-tally :
    (g : Globals) (later : ℕ) (stat : ThreadStat) (w : Tracing) (c : Call)
    (r : ThreadStat × Tracing)
    → Updated g later stat w c r
    → (q : CallsiteStats)
    → (count_in (records g r.0.cs_stats q)
        ≡ count_in (records g stat.cs_stats q)
          + to_nat (same_site g (call_key g c.pc c.op c.rank) q))
      × (time_in (records g r.0.cs_stats q)
          ≡ time_in (records g stat.cs_stats q)
            + (if same_site g (call_key g c.pc c.op c.rank) q then c.dur else 0))
Updated-tally g later stat w c r u q =
    let key = call_key g c.pc c.op c.rank in
    let fresh = new_record-empty g c.pc c.op c.rank w.tmp_ctr in
    let old = records g stat.cs_stats key in
    elim (Bool-cases (same_site g key q)) [
      | inr m ↦ rw (u.reads q, m) (omega arith, omega arith)
      | inl m ↦
          rw
            (
              u.reads q,
              m,
              ← view_congr _ (thread_fns-IsHashable g.full_stack_depth) stat.cs_stats key q m,
            )
            (or_new-tally g c old _ fresh.0 fresh.1)
    ]

is_on-Updated :
    {g : Globals} {later : ℕ} {stat : ThreadStat} {w : Tracing} {c : Call}
    {r : ThreadStat × Tracing}
    → thr_is_on g stat ≡ true
    → Updated g later stat w c r
    → thr_is_on g r.0 ≡ true
unfolding thr_is_on
is_on-Updated on u = rw u.rest on

-- Let a thread that is on, with a valid table, make any list of calls. The run returns, the table
-- stays valid, and for every key the call count and the cumulative time of the record that the key
-- finds grow by the number and by the total duration of those calls at its site that are counted,
-- which are the calls of rank 0 and, if all ranks are traced, the others.
pub run_calls-Tallied :
    (g : Globals) (calls : List (ℕ × ℕ × Call)) (stat : ThreadStat) (w : Tracing)
    → IsTable g stat.cs_stats
    → thr_is_on g stat ≡ true
    → Returns (run_calls g calls stat w) (Tallied g stat calls)
unfolding run_calls calls_at time_at
run_calls-Tallied g [] stat w v on =
    ((stat, w), refl, record { valid = v; counts = λ q. omega arith; times = λ q. omega arith })
run_calls-Tallied g ((now, later, c) ∷ calls) stat w v on =
    elim (Bool-cases (c.rank == 0 || g.trace_all_ranks)) [
      | inr skipped ↦
          let (r, run, t) = run_calls-Tallied g calls stat w v on in
          (
            r,
            rw (cs_upd-ignored g now later stat w c (ground arith)) run,
            record {
              valid = t.valid;
              counts = λ q. ground (arith, t.counts q);
              times = λ q. ground (arith, t.times q);
            },
          )
      | inl traced ↦
          let (s, first, u) = cs_upd-Updated g now later stat w c v on traced in
          let (r, run, t) = run_calls-Tallied g calls s.0 s.1 u.valid (is_on-Updated on u) in
          (
            r,
            rw first run,
            record {
              valid = t.valid;
              counts = λ q. ground (arith, t.counts q, (Updated-tally g later stat w c s u q).0);
              times = λ q. ground (arith, t.times q, (Updated-tally g later stat w c s u q).1);
            },
          )
    ]
