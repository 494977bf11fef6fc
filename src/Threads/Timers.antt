-- ===== src/Threads/Timers.antt =====
-- `mpiPi_stats_mt_timer_start` and `mpiPi_stats_mt_timer_stop` of mpiP-mt-stats.c.
use a_mpi_p.Prelude.{
  ℕ, ◌+◌, ◌-◌, ◌∙◌, false, ◌<◌, ◌≡◌, refl, true, Bool-cases, inl, inr, ◌==◌, if◌then◌else◌, Option,
  some, List, [], ◌∷◌, arith, Run, ok, Returns, length, ==_iff,
}
use a_mpi_p.ThreadStat.{ThreadStat, timer_start, timer_stop}
use a_mpi_p.TsList.{put}
use a_mpi_p.TsList.Fifo.{IsQueue, values, has, Distinct}
use a_mpi_p.Threads.{
  mode_mt, MtStat, Handler, when_active, each_active, timers, mt_timer_start, mt_timer_stop,
}
use a_mpi_p.Threads.Loops.{in_turn, each_hndl-in_turn}

module _ (f : ThreadStat → ThreadStat) where
  abbrev step : ℕ → (ℕ → Handler) → Run (ℕ → Handler)
  step hndl hs = ok (put hs hndl (when_active f (hs hndl)))

  in_turn-step :
      (hndls : List ℕ) (hs : ℕ → Handler)
      → Distinct hndls
      → Returns
          (in_turn step hndls hs)
          (λ r. (a : ℕ) → r a ≡ (if has a hndls then when_active f (hs a) else hs a))
  unfolding in_turn
  in_turn-step [] hs d = (hs, refl, λ a. refl)
  in_turn-step (h ∷ hndls) hs d =
      let (r, run, reads) = in_turn-step hndls (put hs h (when_active f (hs h))) d.1 in
      (
        r,
        run,
        λ a. elim (Bool-cases (a == h)) [
          | inl e ↦
              let same : a ≡ h = (==_iff a h).0 e in
              let itself : (h == h) ≡ true = ground arith in rw (reads a) (rw (same, d.0, itself))
          | inr e ↦
              let kept : put hs h (when_active f (hs h)) a ≡ hs a = ground arith in
              rw (reads a) (rw (kept, e))
        ],
      )

  -- what the loop does to the handlers
  pub record EachActive (mt : MtStat) (hndls : List ℕ) (r : Option (Run MtStat)) : Type 0 where
    pub after : ℕ → Handler
    pub returns : r ≡ some (ok (record mt { handlers = after }))
    pub reads :
        (a : ℕ) → after a ≡ (if has a hndls then when_active f (mt.handlers a) else mt.handlers a)

  timers-EachActive :
      (fuel : ℕ) (mt : MtStat) (xs : List ℕ)
      → mt.mode ≡ mode_mt
      → IsQueue mt.tls_list xs
      → Distinct (values mt.tls_list.ptr xs)
      → length xs < fuel
      → EachActive mt (values mt.tls_list.ptr xs) (timers f fuel mt)
  unfolding each_active timers
  timers-EachActive fuel mt xs multi q d lt =
      let (r, run, reads) = in_turn-step (values mt.tls_list.ptr xs) mt.handlers d in
      let loop = each_hndl-in_turn step fuel mt.tls_list xs mt.handlers q lt in
      record {
        after = r;
        returns = rw (multi, timers) (rw (loop, each_active) (rw run (rw multi)));
        reads = reads;
      }

-- a thread state whose timer has been started, and one whose timer has been stopped
abbrev pub started : ℕ → ThreadStat → ThreadStat
started now s = record s { ts_start = now }

abbrev pub stopped : ℕ → ThreadStat → ThreadStat
stopped now s = record s {
  cum_time = s.cum_time + (now - s.ts_start);
  ts_end = now;
  prev_time = now;
  prev_csid = 0;
}

-- The outcome of a timer function that is to turn the state of each listed active thread by `f`.
pub record EachTimer (f : ThreadStat → ThreadStat) (mt : MtStat) (hndls : List ℕ)
    (r : Option (Run MtStat)) : Type 0 where
  pub after : ℕ → Handler
  pub returns : r ≡ some (ok (record mt { handlers = after }))
  pub active :
      (a : ℕ)
      → has a hndls ≡ true
      → (mt.handlers a).is_active ≡ true
      → ((after a).is_active ≡ true) × ((after a).stat ≡ f (mt.handlers a).stat)
  pub inactive : (a : ℕ) → (mt.handlers a).is_active ≡ false → after a ≡ mt.handlers a
  pub unlisted : (a : ℕ) → has a hndls ≡ false → after a ≡ mt.handlers a

when_active-true :
    (f : ThreadStat → ThreadStat) (h : Handler)
    → h.is_active ≡ true
    → ((when_active f h).is_active ≡ true) × ((when_active f h).stat ≡ f h.stat)
when_active-true f h e = (rw e refl, rw e refl)

when_active-false :
    (f : ThreadStat → ThreadStat) (h : Handler) → h.is_active ≡ false → when_active f h ≡ h
when_active-false f h e = rw e refl

EachActive-EachTimer :
    (f : ThreadStat → ThreadStat) (mt : MtStat) (hndls : List ℕ) (r : Option (Run MtStat))
    → EachActive f mt hndls r
    → EachTimer f mt hndls r
EachActive-EachTimer f mt hndls r e = record {
  after = e.after;
  returns = e.returns;
  active = λ a listed on. rw (e.reads a) (rw listed (when_active-true f (mt.handlers a) on));
  inactive = λ a off. e.reads a ∙ elim (Bool-cases (has a hndls)) [
    | inl k ↦ rw k (when_active-false f (mt.handlers a) off)
    | inr k ↦ rw k refl
  ];
  unlisted = λ a k. e.reads a ∙ rw k refl;
}

-- In the multi-threaded mode, with a queue of distinct handlers shorter than the fuel, starting
-- the timers returns, starts the timer of every listed thread that is active, and changes nothing
-- else.
pub mt_timer_start-EachTimer :
    (now fuel : ℕ) (mt : MtStat) (xs : List ℕ)
    → mt.mode ≡ mode_mt
    → IsQueue mt.tls_list xs
    → Distinct (values mt.tls_list.ptr xs)
    → length xs < fuel
    → EachTimer (started now) mt (values mt.tls_list.ptr xs) (mt_timer_start now fuel mt)
unfolding mt_timer_start timer_start
mt_timer_start-EachTimer now fuel mt xs multi q d lt =
    EachActive-EachTimer (timer_start now) mt _ _
      (timers-EachActive (timer_start now) fuel mt xs multi q d lt)

-- In the multi-threaded mode, with a queue of distinct handlers shorter than the fuel, stopping
-- the timers returns. The state of every listed thread that is active has the time since its start
-- added once, its end and previous time at the clock, and no previous call site; the thread stays
-- active. A thread that is not active, or not listed, and everything else stays as it was.
pub mt_timer_stop-EachTimer :
    (now fuel : ℕ) (mt : MtStat) (xs : List ℕ)
    → mt.mode ≡ mode_mt
    → IsQueue mt.tls_list xs
    → Distinct (values mt.tls_list.ptr xs)
    → length xs < fuel
    → EachTimer (stopped now) mt (values mt.tls_list.ptr xs) (mt_timer_stop now fuel mt)
unfolding mt_timer_stop timer_stop
mt_timer_stop-EachTimer now fuel mt xs multi q d lt =
    EachActive-EachTimer (timer_stop now) mt _ _
      (timers-EachActive (timer_stop now) fuel mt xs multi q d lt)
