-- ===== src/Control.antt =====
-- The control of profiling: `MPI_Pcontrol` of pcontrol.c and `mpiPi_generateReport` of mpiPi.c, at
-- the collecting task. What a report takes from outside is the record `Delivery`; the printing of a
-- report, messages and the time of day are left out.
pub mod Intervals
use a_mpi_p.Prelude.{
  ℕ, zero, suc, ◌+◌, ◌-◌, Bool, true, false, ◌&&◌, ltb, Option, none, some, List, ◌==◌,
  if◌then◌else◌, Run, ok, abort, ◌>>=◌, ℤ, pos, eqb_ℤ,
}
use a_mpi_p.Hash.{HashTable, h_drain}
use a_mpi_p.Grid.{Grid, histcnt}
use a_mpi_p.Globals.{Globals}
use a_mpi_p.Callsites.{CallsiteStats}
use a_mpi_p.Threads.{MtStat, mt_merge, mt_timer_start, mt_timer_stop, mt_cum_time}
use a_mpi_p.Threads.Calls.{mt_cs_gather, mt_cs_reset}
use a_mpi_p.Sources.{SrcLoc}
use a_mpi_p.Sources.Stacks.{SrcIdEntry}
use a_mpi_p.Sources.Lookup.{Sources}
use a_mpi_p.Collector.{Collected, merge_results, insert_mpi_records}

-- the part of `mpiPi` that the control changes, with `tmpCtr` of `mpiPi_cs_init`
pub record Control : Type 0 where
  pub mt : MtStat
  pub enabled : Bool
  pub enabled_count : ℕ
  pub cumulative_time : ℕ
  pub app_time : ℕ
  pub sources : Sources
  pub collected : Collected
  pub mpi_stats_agg : Option (HashTable CallsiteStats)
  pub coll_time_stats : Grid
  pub pt2pt_send_stats : Grid
  pub tmp_ctr : ℕ

-- what a report takes from the clock, from MPI, from `qsort` and from the debugging information
pub record Delivery : Type 0 where
  pub stopped : ℕ
  pub started : ℕ
  pub total : ℕ
  pub remote : List (List CallsiteStats)
  pub sort : List CallsiteStats → List CallsiteStats
  pub find : ℕ → SrcLoc
  pub reduce_coll : Grid → Grid
  pub reduce_pt2pt : Grid → Grid

-- one statement behind another, where a loop may be out of fuel and a call may abort
abbrev pub and_then {ℓ κ} :
    {A : Type ℓ} {B : Type κ} → Option (Run A) → (A → Option (Run B)) → Option (Run B)
and_then none f = none
and_then (some (abort m)) f = some (abort m)
and_then (some (ok a)) f = f a

abbrev pub with_mt : Control → MtStat → Control
with_mt ctl mt = record ctl { mt = mt }

-- `mpiPi_stats_mt_timer_start` and `mpiPi_stats_mt_timer_stop` on the task's statistics
start_timers : (now fuel : ℕ) → Control → Option (Run Control)
start_timers now fuel ctl =
    and_then (mt_timer_start now fuel ctl.mt) (λ mt. some (ok (with_mt ctl mt)))

stop_timers : (now fuel : ℕ) → Control → Option (Run Control)
stop_timers now fuel ctl =
    and_then (mt_timer_stop now fuel ctl.mt) (λ mt. some (ok (with_mt ctl mt)))

-- `mpiPi_collect_basics` clears the times of the tasks
abbrev pub collect_basics : Control → Control
collect_basics ctl = record ctl { collected = record (ctl.collected) { task_mpi_time = λ t. 0 } }

-- mergeResult = mpiPi_mergeResults (), on the records that the task has gathered
merge_step : Globals → Delivery → Control → Run (ℕ × Control)
merge_step g d ctl = do
  (_, av) ← mt_cs_gather ctl.mt
  (code, collected, sources) ← merge_results g d.find d.total av d.remote ctl.sources ctl.collected
  ok (code, record ctl { collected = collected; sources = sources })

-- the loops that copy the result of PMPI_Reduce into an array of mpiPi
abbrev pub copied : Globals → (results old : Grid) → Grid
copied g results old x y z =
    if ltb x g.nfunc && ltb y histcnt && ltb z histcnt then results x y z else old x y z

-- `mpiPi_mergeCollectiveStats`
unfoldable pub merge_collective_stats : Globals → Delivery → Control → Control
merge_collective_stats g d ctl =
    if g.do_collective_stats_report
    then record ctl {
      coll_time_stats =
          copied g (d.reduce_coll ctl.mt.rank_stats.coll.time_stats) ctl.coll_time_stats;
    }
    else ctl

-- `mpiPi_mergept2ptStats`
unfoldable pub merge_pt2pt_stats : Globals → Delivery → Control → Control
merge_pt2pt_stats g d ctl =
    if g.do_pt2pt_stats_report
    then record ctl {
      pt2pt_send_stats =
          copied g (d.reduce_pt2pt ctl.mt.rank_stats.pt2pt.time_stats) ctl.pt2pt_send_stats;
    }
    else ctl

-- if (mergeResult == 1 && mpiPi.reportStackDepth == 0) …, and the reductions of the arrays
ops_step : Globals → Delivery → ℕ × Control → Run Control
unfolding merge_collective_stats merge_pt2pt_stats
ops_step g d (code, ctl) =
    if code == 1
    then (if g.report_stack_depth == 0
        then (do
          table ← insert_mpi_records g d.sort ctl.collected
          ok (reductions (record ctl { mpi_stats_agg = some table })))
        else ok (reductions ctl))
    else ok ctl
  where
    reductions : Control → Control
    reductions c = merge_pt2pt_stats g d (merge_collective_stats g d c)

-- `mpiPi_generateReport` up to the output
unfoldable pub generate_report : Globals → Delivery → (fuel : ℕ) → Control → Option (Run Control)
unfolding start_timers stop_timers merge_step ops_step
generate_report g d fuel ctl =
    and_then (if ctl.enabled then stop_timers d.stopped fuel ctl else some (ok ctl)) λ stopped.
      and_then (mt_merge g fuel stopped.tmp_ctr stopped.mt) λ (mt, ctr).
        let merged = record stopped { mt = mt; tmp_ctr = ctr; cumulative_time = mt_cum_time mt } in
        and_then (if ctl.enabled then start_timers d.started fuel merged else some (ok merged))
          λ ready. some (merge_step g d (collect_basics ready) >>= ops_step g d)

-- `mpiPi_reset_callsite_data`; the cache of call-site ids is open
unfoldable pub reset_callsite_data : (now fuel : ℕ) → Control → Option (Run Control)
unfolding start_timers
reset_callsite_data now fuel ctl = and_then (mt_cs_reset fuel ctl.mt) λ mt.
    and_then (some (h_drain (some ctl.sources.src_id_cache))) λ (_, cache).
      and_then
        (start_timers now fuel
          (record ctl { mt = mt; sources = record (ctl.sources) { src_id_cache = cache } }))
        λ started. some (
          ok (record started {
            cumulative_time = 0;
            app_time = 0;
            collected = record (started.collected) {
              mpi_time = 0;
              mpi_size = 0;
              mpi_io = 0;
              mpi_rma = 0;
              msize_threshold_count = 0;
              sent_count = 0;
              time_callsite_count = 0;
            };
          }))

-- flag 0, and the flags other than 2, 3 and 4
disable : (now fuel : ℕ) → Control → Option (Run Control)
unfolding stop_timers
disable now fuel ctl =
    and_then (stop_timers now fuel ctl) λ c. some (ok (record c { enabled = false }))

enable : (now fuel : ℕ) → Control → Option (Run Control)
unfolding start_timers
enable now fuel ctl =
    start_timers now fuel (record ctl { enabled = true; enabled_count = ctl.enabled_count + 1 })

-- `mpiPi_MPI_Pcontrol`
unfoldable pub pcontrol :
    Globals → Delivery → (flag : ℤ) → (now fuel : ℕ) → Control → Option (Run Control)
unfolding disable enable start_timers
pcontrol g d flag now fuel ctl =
    if eqb_ℤ flag (pos 0)
    then disable now fuel ctl
    else if eqb_ℤ flag (pos 2)
    then reset_callsite_data now fuel ctl
    else if eqb_ℤ flag (pos 3)
    then and_then (generate_report g d fuel ctl) (start_timers now fuel)
    else if eqb_ℤ flag (pos 4)
    then and_then (generate_report g d fuel ctl) (start_timers now fuel)
    else enable now fuel ctl
