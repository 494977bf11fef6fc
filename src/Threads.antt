-- ===== src/Threads.antt =====
-- mpiP-mt-stats.c: the statistics of a task, which are those of its threads. Handlers are
-- addresses; the thread state that a handler owns stands beside its flag. In the single-threaded
-- mode the embedded handler points to the statistics of the task itself. The calling thread is
-- `self`, a reading of the clock `now`, and the addresses that `calloc` returns are arguments.
pub mod Calls
pub mod Loops
pub mod Merge
pub mod Nesting
pub mod Timers
pub mod Tls
use a_mpi_p.Prelude.{
  ℕ, zero, suc, ◌+◌, Bool, true, false, Option, none, some, pos, if◌then◌else◌, Run, ok, abort,
  ◌>>=◌, List, [], ◌==◌,
}
use a_mpi_p.Globals.{Globals}
use a_mpi_p.Hash.{empty_table}
use a_mpi_p.Grid.{zero_grid}
use a_mpi_p.Histogram.{Histogram}
use a_mpi_p.ThreadStat.{
  MsgStat, ThreadStat, thr_init, thr_fini, timer_start, timer_stop, thr_exit, thr_enter, thr_is_on,
  thr_cum_time,
}
use a_mpi_p.CallRecords.{Call, Tracing, cs_upd, cs_reset}
use a_mpi_p.Messages.{coll_upd, pt2pt_upd}
use a_mpi_p.Aggregate.{merge_all}
use a_mpi_p.TsList.{TsList, put, create, append, first, next_elem}

-- `mpiPi_thr_mode_t`
pub data Mode : Type 0 where
  mode_st : Mode
  mode_mt : Mode

-- `mpiPi_mt_stat_tls_t`, with the state behind its `tls_ptr`
pub record Handler : Type 0 where
  pub is_active : Bool
  pub stat : ThreadStat

-- `mpiPi_mt_stat_t`; `tls_this` is what `pthread_getspecific` gives each thread
pub record MtStat : Type 0 where
  pub mode : Mode
  pub rank_stats : ThreadStat
  pub tls_list : TsList
  pub handlers : ℕ → Handler
  pub tls_this : ℕ → Option ℕ

-- a handler that a caller holds: the embedded `st_hndl`, or an allocated one
pub data HandlerRef : Type 0 where
  embedded : HandlerRef
  allocated : ℕ → HandlerRef

abbrev zero_messages : MsgStat
zero_messages = record {
  comm_hist = record { first_bin_max = 0; hist_size = 0; bin_intervals = none };
  size_hist = record { first_bin_max = 0; hist_size = 0; bin_intervals = none };
  time_stats = zero_grid;
}

-- a thread state after `calloc`
unfoldable pub zero_thread : ThreadStat
zero_thread = record {
  disabled = pos 0;
  ts_start = 0;
  ts_end = 0;
  cum_time = 0;
  prev_csid = 0;
  prev_time = 0;
  cs_stats = empty_table 0;
  coll = zero_messages;
  pt2pt = zero_messages;
}

-- The loops `while (curr)` over the thread list: `body` is run at the data pointer of each element.
-- `none` is out of fuel.
unfoldable pub each_hndl {ℓ} :
    {S : Type ℓ} → ℕ → TsList → (body : ℕ → S → Run S) → (curr : Option ℕ) → S → Option (Run S)
unfolding next_elem
each_hndl zero l body curr s = none
each_hndl (suc fuel) l body none s = some (ok s)
each_hndl (suc fuel) l body (some e) s = elim (body (l.ptr e) s) [
  | abort m ↦ some (abort m)
  | ok s' ↦ each_hndl fuel l body (next_elem l e) s'
]

-- `key_destruct`, when the thread of the handler ends
unfoldable pub key_destruct : (hndl now : ℕ) → MtStat → MtStat
key_destruct hndl now mt = record mt {
  handlers = put mt.handlers hndl (record {
    is_active = false;
    stat = record (timer_stop now (mt.handlers hndl).stat) { disabled = pos 1 };
  });
}

-- a new handler of `mpiPi_stats_mt_gettls`, with the state that `mpiPi_stats_thr_init` has made
add_handler : Globals → (self now hndl elem : ℕ) → MtStat → ThreadStat → MtStat
add_handler g self now hndl elem mt stat = record mt {
  tls_this = put mt.tls_this self (some hndl);
  handlers =
      put mt.handlers hndl
        (record { is_active = true; stat = if g.enabled then timer_start now stat else stat });
  tls_list = append elem hndl mt.tls_list;
}

-- `mpiPi_stats_mt_gettls`
unfoldable pub gettls : Globals → (self now hndl elem : ℕ) → MtStat → Run (HandlerRef × MtStat)
unfolding add_handler
gettls g self now hndl elem mt = elim mt.mode [
  | mode_st ↦ ok (embedded, mt)
  | mode_mt ↦ elim (mt.tls_this self) [
    | some own ↦ ok (allocated own, mt)
    | none ↦ do
      stat ← thr_init g zero_thread
      ok (allocated hndl, add_handler g self now hndl elem mt stat)
  ]
]

-- `mpiPi_stats_mt_init`: both modes make the list, at `dummy`, and the thread key
unfoldable pub mt_init : Globals → Mode → (self now hndl elem dummy : ℕ) → MtStat → Run MtStat
mt_init g mode self now hndl elem dummy mt = do
  stat ← thr_init g mt.rank_stats
  (_, mt') ←
      gettls g self now hndl elem (record mt {
        mode = mode;
        rank_stats = stat;
        tls_list = create dummy;
        tls_this = λ t. none;
      })
  ok mt'

-- `mpiPi_stats_mt_merge`: `ctr` is the counter of `mpiPi_cs_init`
unfoldable pub mt_merge : Globals → (fuel ctr : ℕ) → MtStat → Option (Run (MtStat × ℕ))
unfolding each_hndl
mt_merge g fuel ctr mt = elim mt.mode [
  | mode_st ↦ some (ok (mt, ctr))
  | mode_mt ↦ elim (cs_reset mt.rank_stats) [
    | abort m ↦ some (abort m)
    | ok s ↦
        elim (each_hndl fuel mt.tls_list
          (λ hndl acc. merge_all g acc.0 (mt.handlers hndl).stat acc.1) (first mt.tls_list)
          (s, ctr)) [
            | none ↦ none
            | some (abort m) ↦ some (abort m)
            | some (ok (s', ctr')) ↦ some (ok (record mt { rank_stats = s' }, ctr'))
          ]
  ]
]

-- if( hndl->is_active ) …
abbrev pub when_active : (ThreadStat → ThreadStat) → Handler → Handler
when_active f h = if h.is_active then record h { stat = f h.stat } else h

-- the loop that `mpiPi_stats_mt_timer_start` and `mpiPi_stats_mt_timer_stop` make with their `f`
unfoldable pub each_active : (ThreadStat → ThreadStat) → (fuel : ℕ) → MtStat → Option (Run MtStat)
unfolding each_hndl
each_active f fuel mt =
    elim (each_hndl fuel mt.tls_list (λ hndl hs. ok (put hs hndl (when_active f (hs hndl))))
      (first mt.tls_list) mt.handlers) [
        | none ↦ none
        | some (abort m) ↦ some (abort m)
        | some (ok hs) ↦ some (ok (record mt { handlers = hs }))
      ]

-- the two timer functions, with the `f` of each
unfoldable pub timers : (ThreadStat → ThreadStat) → (fuel : ℕ) → MtStat → Option (Run MtStat)
unfolding each_active
timers f fuel mt = elim mt.mode [
  | mode_st ↦ some (ok (record mt { rank_stats = f mt.rank_stats }))
  | mode_mt ↦ each_active f fuel mt
]

-- `mpiPi_stats_mt_timer_start` and `mpiPi_stats_mt_timer_stop`
unfoldable pub mt_timer_start : (now fuel : ℕ) → MtStat → Option (Run MtStat)
unfolding timers
mt_timer_start now = timers (timer_start now)

unfoldable pub mt_timer_stop : (now fuel : ℕ) → MtStat → Option (Run MtStat)
unfolding timers
mt_timer_stop now = timers (timer_stop now)

-- `mpiPi_stats_mt_cum_time`
unfoldable pub mt_cum_time : MtStat → ℕ
mt_cum_time mt = thr_cum_time mt.rank_stats
