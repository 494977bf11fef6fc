-- ===== src/Tests/Shared.antt =====
-- The theorems on the multi-threaded layer at a task with two threads.
use a_mpi_p.Prelude.{
  ◌≡◌, refl, true, false, ◌==◌, if◌then◌else◌, none, some, [], ◌∷◌, arith, ok, Returns,
}
use a_mpi_p.TsList.{append, create, swap_tail, link}
use a_mpi_p.TsList.Fifo.{has, values, Distinct}
use a_mpi_p.Threads.{mode_mt, MtStat, allocated, gettls, mt_merge, mt_timer_stop}
use a_mpi_p.Threads.Calls.{stat_of, put_stat, mt_cs_upd, mt_exit, mt_enter, mt_is_on}
use a_mpi_p.Threads.Merge.{MergedThreads, mt_merge-MergedThreads}
use a_mpi_p.Threads.Nesting.{mt_cs_upd-nested}
use a_mpi_p.Threads.Timers.{EachTimer, stopped, mt_timer_stop-EachTimer}
use a_mpi_p.Threads.Tls.{IsThreads, GotTls, gettls-GotTls}
use a_mpi_p.Tests.{job, idle, busy, busy-IsTable, no_records-IsTable, untraced, send}
use a_mpi_p.Tests.Queues.{two, two-IsQueue}

-- the handlers 7 and 8, of which thread 1 owns the first
abbrev shared : MtStat
shared = record {
  mode = mode_mt;
  rank_stats = idle;
  tls_list = two;
  handlers = λ a. record { is_active = a == 7; stat = busy };
  tls_this = λ t. if t == 1 then some 7 else none;
}

two-Distinct : Distinct (values two.ptr (20 ∷ 30 ∷ []))
unfolding append create swap_tail link
two-Distinct = (refl, (refl, tt))

two-has_7 : has 7 (values two.ptr (20 ∷ 30 ∷ [])) ≡ true
unfolding append create swap_tail link
two-has_7 = refl

two-has_9 : has 9 (values two.ptr (20 ∷ 30 ∷ [])) ≡ false
unfolding append create swap_tail link
two-has_9 = refl

mt_merge-MergedThreads_example :
    MergedThreads job shared (values two.ptr (20 ∷ 30 ∷ [])) (mt_merge job 3 1 shared)
mt_merge-MergedThreads_example =
    mt_merge-MergedThreads job 3 1 shared (20 ∷ 30 ∷ []) refl two-IsQueue (omega arith)
      (omega arith) no_records-IsTable (λ a h. busy-IsTable)

mt_timer_stop-EachTimer_example :
    EachTimer (stopped 500) shared (values two.ptr (20 ∷ 30 ∷ [])) (mt_timer_stop 500 3 shared)
mt_timer_stop-EachTimer_example =
    mt_timer_stop-EachTimer 500 3 shared (20 ∷ 30 ∷ []) refl two-IsQueue two-Distinct (omega arith)

shared-IsThreads : IsThreads job shared (20 ∷ 30 ∷ [])
shared-IsThreads = record {
  mode = refl;
  queue = two-IsQueue;
  distinct = two-Distinct;
  tables = λ a h. busy-IsTable;
  owned = λ t a h. ground (arith, two-has_7);
}

two-fresh : has 40 (two.head ∷ 20 ∷ 30 ∷ []) ≡ false
unfolding append create swap_tail link
two-fresh = refl

-- thread 2 asks for its handler for the first time
gettls-GotTls_example :
    Returns (gettls job 2 600 9 40 shared) (GotTls job 2 600 9 shared (20 ∷ 30 ∷ []))
gettls-GotTls_example =
    gettls-GotTls job 2 600 9 40 shared (20 ∷ 30 ∷ []) shared-IsThreads two-fresh two-has_9 5 refl
      (omega arith)

mt_cs_upd-nested_example :
    (mt_is_on job (mt_exit shared (allocated 7)) (allocated 7) ≡ false)
    × (mt_cs_upd job 110 111 (mt_exit shared (allocated 7)) (allocated 7) untraced send
        ≡ ok (
          put_stat
              (mt_exit shared (allocated 7))
              (allocated 7)
              (stat_of (mt_exit shared (allocated 7)) (allocated 7)),
          untraced,
        ))
    × (stat_of (mt_enter (mt_exit shared (allocated 7)) (allocated 7)) (allocated 7) ≡ busy)
mt_cs_upd-nested_example = mt_cs_upd-nested job shared (allocated 7) 0 110 111 untraced send refl
