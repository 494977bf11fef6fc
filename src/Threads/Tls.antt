-- ===== src/Threads/Tls.antt =====
-- `mpiPi_stats_mt_gettls` of mpiP-mt-stats.c: the handlers of the threads, and the thread list.
use a_mpi_p.Prelude.{
  ℕ, ◌≤◌, ◌≡◌, refl, true, false, ◌==◌, if◌then◌else◌, none, some, List, [], ◌∷◌, ◌++◌, arith,
  Returns, Bool, Bool-cases, inl, inr, pos, Option-cases,
}
use a_mpi_p.Globals.{Globals}
use a_mpi_p.Hash.{empty_table}
use a_mpi_p.Hash.Buckets.{h_open-IsValid}
use a_mpi_p.Callsites.Keys.{thread_fns}
use a_mpi_p.ThreadStat.{ThreadStat, initialised, thr_init, timer_start}
use a_mpi_p.CallRecords.Table.{IsTable}
use a_mpi_p.TsList.Fifo.{
  IsQueue, values, has, Distinct, append-IsQueue, has-append, Distinct-append,
}
use a_mpi_p.Threads.{
  mode_mt, Handler, MtStat, HandlerRef, allocated, zero_thread, add_handler, gettls,
}

-- the layer in the multi-threaded mode, with the elements `xs` of its list: the handlers of the list
-- are distinct, each has a valid table, and what a thread finds is in the list
pub record IsThreads (g : Globals) (mt : MtStat) (xs : List ℕ) : Type 0 where
  pub mode : mt.mode ≡ mode_mt
  pub queue : IsQueue mt.tls_list xs
  pub distinct : Distinct (values mt.tls_list.ptr xs)
  pub tables :
      (a : ℕ) → has a (values mt.tls_list.ptr xs) ≡ true → IsTable g (mt.handlers a).stat.cs_stats
  pub owned : (t a : ℕ) → mt.tls_this t ≡ some a → has a (values mt.tls_list.ptr xs) ≡ true

-- a new handler: active, with the state that `mpiPi_stats_thr_init` makes, and with the timer
-- started if the profiling is enabled
abbrev pub IsMade : Globals → (now : ℕ) → Handler → Type 0
IsMade g now h =
    (h.is_active ≡ true)
    × Returns (thr_init g zero_thread) (λ s. h.stat ≡ (if g.enabled then timer_start now s else s))

-- The outcome for the thread `self`, with `hndl` and `now` for a new handler: the handler that the
-- thread finds from then on, in the list.
pub record GotTls (g : Globals) (self now hndl : ℕ) (mt : MtStat) (xs : List ℕ)
    (r : HandlerRef × MtStat) : Type 0 where
  pub own : ℕ
  pub handler : r.0 ≡ allocated own
  pub found : r.1.tls_this self ≡ some own
  pub elems : List ℕ
  pub threads : IsThreads g r.1 elems
  -- a thread that has a handler gets it, and nothing changes
  pub kept : (h : ℕ) → mt.tls_this self ≡ some h → r ≡ (allocated h, mt)
  -- a thread that has none gets the new one, behind the others in the list
  pub made :
      mt.tls_this self ≡ none
      → (own ≡ hndl)
        × (values r.1.tls_list.ptr elems ≡ values mt.tls_list.ptr xs ++ hndl ∷ [])
        × IsMade g now (r.1.handlers hndl)
  -- the other handlers, and what the other threads find
  pub handlers : (a : ℕ) → (hndl == a) ≡ false → r.1.handlers a ≡ mt.handlers a
  pub others : (t : ℕ) → (t == self) ≡ false → r.1.tls_this t ≡ mt.tls_this t
  pub rank_stats : r.1.rank_stats ≡ mt.rank_stats

thr_init-IsTable :
    (g : Globals) (s : ThreadStat) (n : ℕ)
    → g.table_size ≡ pos n
    → 2 ≤ n
    → Returns (thr_init g s) (λ r. IsTable g r.cs_stats)
unfolding thr_init initialised
thr_init-IsTable g s n e two =
    let (opened, valid) = h_open-IsValid (thread_fns g.full_stack_depth) n two in
    (initialised g s (empty_table n), rw e (rw opened), valid)

started-cs_stats :
    (b : Bool) (now : ℕ) (s : ThreadStat)
    → (if b then timer_start now s else s).cs_stats ≡ s.cs_stats
unfolding timer_start
started-cs_stats true now s = refl
started-cs_stats false now s = refl

module _ (g : Globals) (self now hndl elem : ℕ) (mt : MtStat) (xs : List ℕ)
    (threads : IsThreads g mt xs) where
  got_old :
      (own : ℕ)
      → mt.tls_this self ≡ some own
      → Returns (gettls g self now hndl elem mt) (GotTls g self now hndl mt xs)
  unfolding gettls
  got_old own e = (
    (allocated own, mt),
    rw (threads.mode, gettls) (rw (e, threads.mode)),
    record {
      own = own;
      handler = refl;
      found = e;
      elems = xs;
      threads = threads;
      kept = λ h k. let same : own ≡ h = cc in rw same refl;
      made = λ k. absurd cc;
      handlers = λ a k. refl;
      others = λ t o. refl;
      rank_stats = refl;
    },
  )

  module _ (fresh_elem : has elem (mt.tls_list.head ∷ xs) ≡ false)
      (fresh_hndl : has hndl (values mt.tls_list.ptr xs) ≡ false) where
    add_handler-IsThreads :
        (s : ThreadStat)
        → IsTable g s.cs_stats
        → IsThreads g (add_handler g self now hndl elem mt s) (xs ++ elem ∷ [])
    unfolding add_handler timer_start
    add_handler-IsThreads s v =
        let (queue, same) = append-IsQueue mt.tls_list xs elem hndl threads.queue fresh_elem in
        record {
          mode = threads.mode;
          queue = queue;
          distinct =
              rw same
                (Distinct-append hndl (values mt.tls_list.ptr xs) fresh_hndl threads.distinct);
          tables = λ a h. elim (Bool-cases (hndl == a)) [
            | inl e ↦ rw e (rw (started-cs_stats g.enabled now s) v)
            | inr e ↦
                let before = has-append a hndl (values mt.tls_list.ptr xs) in
                rw e (threads.tables a (ground (arith, before, rw same at h)))
          ];
          owned = λ t a h.
              rw (same, has-append a hndl (values mt.tls_list.ptr xs))
                (ground (arith, threads.owned t a));
        }

    got_new :
        (n : ℕ)
        → g.table_size ≡ pos n
        → 2 ≤ n
        → mt.tls_this self ≡ none
        → Returns (gettls g self now hndl elem mt) (GotTls g self now hndl mt xs)
    unfolding gettls add_handler
    got_new n size two missing =
        let (s, run, v) = thr_init-IsTable g zero_thread n size two in
        let itself : (hndl == hndl) ≡ true = ground arith in
        let (queue, appended) = append-IsQueue mt.tls_list xs elem hndl threads.queue fresh_elem in
        (
          (allocated hndl, add_handler g self now hndl elem mt s),
          rw (threads.mode, gettls) (rw missing (rw run (rw threads.mode))),
          record {
            own = hndl;
            handler = refl;
            found = ground arith;
            elems = xs ++ elem ∷ [];
            threads = add_handler-IsThreads s v;
            kept = λ h k. absurd cc;
            made = λ k. (refl, appended, (rw itself refl, (s, run, rw itself refl)));
            handlers = λ a k. ground arith;
            others = λ t o. ground arith;
            rank_stats = refl;
          },
        )

    -- Let the layer be in the multi-threaded mode with a queue of distinct handlers that have
    -- valid tables, such that what a thread finds is in the list, let the new element and the new
    -- handler be fresh, and let tables be opened with at least the size 2. A thread that has a
    -- handler gets it, and nothing changes. A thread that has none gets the new handler and finds
    -- it from then on: the handler is active, behind the others in the list, with an initialised
    -- state and, if the profiling is enabled, a started timer. The call keeps that state of the
    -- layer, and changes neither the other handlers nor what other threads find nor the statistics
    -- of the task.
    pub gettls-GotTls :
        (n : ℕ)
        → g.table_size ≡ pos n
        → 2 ≤ n
        → Returns (gettls g self now hndl elem mt) (GotTls g self now hndl mt xs)
    gettls-GotTls n size two = elim (Option-cases (mt.tls_this self)) [
      | inl missing ↦ got_new n size two missing
      | inr (own, e) ↦ got_old own e
    ]
