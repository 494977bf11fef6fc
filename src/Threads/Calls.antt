-- ===== src/Threads/Calls.antt =====
-- The operations of mpiP-mt-stats.c on the thread of a handler that the caller holds, and the end
-- of the layer.
use a_mpi_p.Prelude.{ℕ, Bool, Option, none, some, ℤ, Run, ok, abort, ◌>>=◌, List, []}
use a_mpi_p.Globals.{Globals}
use a_mpi_p.Callsites.{CallsiteStats}
use a_mpi_p.ThreadStat.{ThreadStat, thr_init, thr_fini, thr_exit, thr_enter, thr_is_on}
use a_mpi_p.CallRecords.{Call, Tracing, cs_upd, cs_reset, cs_gather, cs_lookup}
use a_mpi_p.Messages.{coll_upd, pt2pt_upd, binstrings}
use a_mpi_p.TsList.{put, first, release_all}
use a_mpi_p.Threads.{mode_st, mode_mt, Handler, MtStat, HandlerRef, embedded, allocated, each_hndl}

-- hndl->tls_ptr, read and written
abbrev pub stat_of : MtStat → HandlerRef → ThreadStat
stat_of mt embedded = mt.rank_stats
stat_of mt (allocated a) = (mt.handlers a).stat

abbrev pub put_stat : MtStat → HandlerRef → ThreadStat → MtStat
put_stat mt embedded s = record mt { rank_stats = s }
put_stat mt (allocated a) s = record mt {
  handlers = put mt.handlers a (record (mt.handlers a) { stat = s });
}

-- `mpiPi_stats_mt_cs_upd`, `mpiPi_stats_mt_coll_upd` and `mpiPi_stats_mt_pt2pt_upd`
unfoldable pub mt_cs_upd :
    Globals → (now later : ℕ) → MtStat → HandlerRef → Tracing → Call → Run (MtStat × Tracing)
mt_cs_upd g now later mt hndl w c = do
  (s, w') ← cs_upd g now later (stat_of mt hndl) w c
  ok (put_stat mt hndl s, w')

unfoldable pub mt_coll_upd : Globals → MtStat → HandlerRef → (op dur size comm_size : ℕ) → MtStat
mt_coll_upd g mt hndl op dur size comm_size =
    put_stat mt hndl (coll_upd g (stat_of mt hndl) op dur size comm_size)

unfoldable pub mt_pt2pt_upd : Globals → MtStat → HandlerRef → (op dur size comm_size : ℕ) → MtStat
mt_pt2pt_upd g mt hndl op dur size comm_size =
    put_stat mt hndl (pt2pt_upd g (stat_of mt hndl) op dur size comm_size)

-- `mpiPi_stats_mt_exit`, `mpiPi_stats_mt_enter` and `mpiPi_stats_mt_is_on`
unfoldable pub mt_exit : MtStat → HandlerRef → MtStat
mt_exit mt hndl = put_stat mt hndl (thr_exit (stat_of mt hndl))

unfoldable pub mt_enter : MtStat → HandlerRef → MtStat
mt_enter mt hndl = put_stat mt hndl (thr_enter (stat_of mt hndl))

unfoldable pub mt_is_on : Globals → MtStat → HandlerRef → Bool
mt_is_on g mt hndl = thr_is_on g (stat_of mt hndl)

-- `mpiPi_stats_mt_cs_gather`, `mpiPi_stats_mt_cs_lookup` and the two `binstrings`
unfoldable pub mt_cs_gather : MtStat → Run (ℕ × List CallsiteStats)
mt_cs_gather mt = cs_gather mt.rank_stats

unfoldable pub mt_cs_lookup :
    Globals
    → MtStat
    → (task_stats dummy_buf : CallsiteStats) → (init_max : Bool) → Run CallsiteStats
mt_cs_lookup g mt = cs_lookup g mt.rank_stats

unfoldable pub mt_coll_binstrings : MtStat → (comm_idx size_idx : ℕ) → (ℤ × ℤ) × (ℤ × ℤ)
mt_coll_binstrings mt = binstrings mt.rank_stats.coll

unfoldable pub mt_pt2pt_binstrings : MtStat → (comm_idx size_idx : ℕ) → (ℤ × ℤ) × (ℤ × ℤ)
mt_pt2pt_binstrings mt = binstrings mt.rank_stats.pt2pt

reset_hndl : ℕ → (ℕ → Handler) → Run (ℕ → Handler)
reset_hndl hndl hs = do
  s ← cs_reset (hs hndl).stat
  ok (put hs hndl (record (hs hndl) { stat = s }))

-- the end of `mpiPi_stats_mt_cs_reset`, over the threads
reset_threads : (fuel : ℕ) → MtStat → Option (Run MtStat)
unfolding reset_hndl
reset_threads fuel mt =
    elim (each_hndl fuel mt.tls_list reset_hndl (first mt.tls_list) mt.handlers) [
      | none ↦ none
      | some (abort m) ↦ some (abort m)
      | some (ok hs) ↦ some (ok (record mt { handlers = hs }))
    ]

-- `mpiPi_stats_mt_cs_reset`
unfoldable pub mt_cs_reset : (fuel : ℕ) → MtStat → Option (Run MtStat)
unfolding reset_threads
mt_cs_reset fuel mt = elim (cs_reset mt.rank_stats) [
  | abort m ↦ some (abort m)
  | ok s ↦ elim mt.mode [
    | mode_st ↦ some (ok (record mt { rank_stats = s }))
    | mode_mt ↦ reset_threads fuel (record mt { rank_stats = s })
  ]
]

-- the case MPIPI_MODE_MT of `mpiPi_stats_mt_fini`, which initialises the task's statistics anew;
-- the handlers that are freed are given back
fini_threads : Globals → (fuel : ℕ) → MtStat → Option (Run (List ℕ × MtStat))
fini_threads g fuel mt = elim (release_all fuel (λ l. l) mt.tls_list) [
  | none ↦ none
  | some (freed, l) ↦ some (
      thr_init g mt.rank_stats >>= λ s.
      ok (freed, record mt { tls_list = l; rank_stats = s; tls_this = λ t. none }))
]

-- `mpiPi_stats_mt_fini`
unfoldable pub mt_fini : Globals → (fuel : ℕ) → MtStat → Option (Run (List ℕ × MtStat))
unfolding fini_threads
mt_fini g fuel mt = elim mt.mode [
  | mode_st ↦ some (thr_fini mt.rank_stats >>= λ u. ok ([], mt))
  | mode_mt ↦ fini_threads g fuel mt
]
