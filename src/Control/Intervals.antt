-- ===== src/Control/Intervals.antt =====
-- The time that `MPI_Pcontrol` of pcontrol.c measures in a single-threaded task, over any sequence
-- of calls that enable and disable the profiling.
use a_mpi_p.Prelude.{
  ℕ, ◌+◌, ◌-◌, ◌≡◌, refl, Bool, true, false, Option, some, List, [], ◌∷◌, arith, pos, if◌then◌else◌,
  Run, ok,
}
use a_mpi_p.Globals.{Globals}
use a_mpi_p.ThreadStat.{ThreadStat, timer_start, timer_stop}
use a_mpi_p.Threads.{mode_st, MtStat, timers, mt_timer_start, mt_timer_stop}
use a_mpi_p.Control.{
  Control, Delivery, and_then, start_timers, stop_timers, disable, enable, pcontrol,
}

-- MPI_Pcontrol (1) for `true` and MPI_Pcontrol (0) for `false`, at a reading of the clock
unfoldable pub run_flags :
    Globals → Delivery → (fuel : ℕ) → List (Bool × ℕ) → Control → Option (Run Control)
run_flags g d fuel [] ctl = some (ok ctl)
run_flags g d fuel ((on, now) ∷ calls) ctl =
    and_then (pcontrol g d (if on then pos 1 else pos 0) now fuel ctl) (run_flags g d fuel calls)

-- what the calls measure if the timer has been started at `start`
abbrev pub measured : (start : ℕ) → List (Bool × ℕ) → ℕ
measured start [] = 0
measured start ((true, now) ∷ calls) = measured now calls
measured start ((false, now) ∷ calls) = now - start + measured start calls

abbrev pub last_flag : Bool → List (Bool × ℕ) → Bool
last_flag on [] = on
last_flag on ((flag, now) ∷ calls) = last_flag flag calls

timers_single :
    (f : ThreadStat → ThreadStat) (fuel : ℕ) (mt : MtStat)
    → mt.mode ≡ mode_st
    → timers f fuel mt ≡ some (ok (record mt { rank_stats = f mt.rank_stats }))
unfolding timers
timers_single f fuel mt single = rw (single, timers) (rw single)

module _ (g : Globals) (d : Delivery) (now fuel : ℕ) (ctl : Control) where
  -- the control after a call, in the single-threaded mode
  abbrev off : Control
  off = record ctl {
    mt = record (ctl.mt) { rank_stats = timer_stop now ctl.mt.rank_stats };
    enabled = false;
  }

  abbrev on : Control
  on = record ctl {
    mt = record (ctl.mt) { rank_stats = timer_start now ctl.mt.rank_stats };
    enabled = true;
    enabled_count = ctl.enabled_count + 1;
  }

  pcontrol-off : ctl.mt.mode ≡ mode_st → pcontrol g d (pos 0) now fuel ctl ≡ some (ok off)
  unfolding pcontrol disable stop_timers mt_timer_stop
  pcontrol-off single = rw (timers_single (timer_stop now) fuel ctl.mt single, disable, stop_timers)

  pcontrol-on : ctl.mt.mode ≡ mode_st → pcontrol g d (pos 1) now fuel ctl ≡ some (ok on)
  unfolding pcontrol enable start_timers mt_timer_start
  pcontrol-on single = rw (timers_single (timer_start now) fuel ctl.mt single, enable, start_timers)

-- the outcome of the calls
pub record Measured (calls : List (Bool × ℕ)) (ctl : Control) (r : Option (Run Control))
    : Type 0 where
  pub after : Control
  pub returns : r ≡ some (ok after)
  pub time :
      after.mt.rank_stats.cum_time
      ≡ ctl.mt.rank_stats.cum_time + measured ctl.mt.rank_stats.ts_start calls
  pub enabled : after.enabled ≡ last_flag ctl.enabled calls

-- In a single-threaded task any sequence of calls that disable and enable the profiling returns,
-- and the last call decides whether it is enabled. Every call that disables adds to the time of
-- the task what has passed since the timer was last started, whether or not another call has
-- disabled the profiling since; a call that enables starts the timer.
pub run_flags-Measured :
    (g : Globals) (d : Delivery) (fuel : ℕ) (calls : List (Bool × ℕ)) (ctl : Control)
    → ctl.mt.mode ≡ mode_st
    → Measured calls ctl (run_flags g d fuel calls ctl)
unfolding run_flags timer_start timer_stop
run_flags-Measured g d fuel [] ctl single = record {
  after = ctl;
  returns = refl;
  time = omega arith;
  enabled = refl;
}
run_flags-Measured g d fuel ((true, now) ∷ calls) ctl single =
    let m = run_flags-Measured g d fuel calls (on g d now fuel ctl) single in
    record {
      after = m.after;
      returns = rw (pcontrol-on g d now fuel ctl single) m.returns;
      time = m.time;
      enabled = m.enabled;
    }
run_flags-Measured g d fuel ((false, now) ∷ calls) ctl single =
    let m = run_flags-Measured g d fuel calls (off g d now fuel ctl) single in
    record {
      after = m.after;
      returns = rw (pcontrol-off g d now fuel ctl single) m.returns;
      time = omega (arith, m.time);
      enabled = m.enabled;
    }
