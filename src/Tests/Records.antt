-- ===== src/Tests/Records.antt =====
-- The theorems on the statistics of a thread at a concrete run, and runs of its operations.
use a_mpi_p.Prelude.{ℕ, ◌≤◌, ◌≡◌, refl, none, List, [], ◌∷◌, ◌++◌, arith, Returns, pos}
use a_mpi_p.Callsites.{CallsiteStats, dbl_max, cs_reset_stat, cs_merge}
use a_mpi_p.Callsites.Replay.{Event, replay, keep_rma, cs_merge-replay_append, IsBounded}
use a_mpi_p.Histogram.{get_histogram_bin, get_histogram_bin_str}
use a_mpi_p.Histogram.Bins.{set_up, Covers, get_histogram_bin-Covers}
use a_mpi_p.Grid.{Grid, zero_grid}
use a_mpi_p.Messages.{coll_upd}
use a_mpi_p.Messages.Totals.{InRange, AddedOne, coll_upd-AddedOne}
use a_mpi_p.CallRecords.{cs_upd, thr_cs_merge, Call}
use a_mpi_p.CallRecords.Table.{records}
use a_mpi_p.CallRecords.Update.{Updated, cs_upd-Updated}
use a_mpi_p.CallRecords.Runs.{run_calls, Tallied, run_calls-Tallied}
use a_mpi_p.CallRecords.Merge.{MergedTables, thr_cs_merge-MergedTables}
use a_mpi_p.Aggregate.{merge_all, reset_all}
use a_mpi_p.Aggregate.Sums.{MergedAll, merge_all-MergedAll, reset_all-keeps_pt2pt}
use a_mpi_p.Tests.{
  job, histogram, messages, idle, no_records-IsTable, idle_on, untraced, send, barrier, foreign,
  send_record, busy, busy-IsTable,
}

abbrev calls : List (ℕ × ℕ × Call)
calls = (110, 111, send) ∷ (120, 121, foreign) ∷ (130, 131, barrier) ∷ (140, 141, send) ∷ []

run_calls-Tallied_example : Returns (run_calls job calls idle untraced) (Tallied job idle calls)
run_calls-Tallied_example = run_calls-Tallied job calls idle untraced no_records-IsTable idle_on

thr_cs_merge-MergedTables_example :
    Returns (thr_cs_merge job idle busy 1) (MergedTables job (omega arith) idle busy)
thr_cs_merge-MergedTables_example =
    thr_cs_merge-MergedTables job (omega arith) idle busy 1 no_records-IsTable busy-IsTable

merge_all-MergedAll_example : Returns (merge_all job busy busy 1) (MergedAll job busy busy)
merge_all-MergedAll_example =
    merge_all-MergedAll job busy busy 1 (omega arith) busy-IsTable busy-IsTable

cs_upd-Updated_example :
    Returns (cs_upd job 110 111 idle untraced send) (Updated job 111 idle untraced send)
cs_upd-Updated_example =
    cs_upd-Updated job 110 111 idle untraced send no_records-IsTable idle_on refl

reset_all-keeps_pt2pt_example : Returns (reset_all busy) λ r.
    ((q : CallsiteStats) → records job r.cs_stats q ≡ none)
    × (r.coll.time_stats ≡ zero_grid)
    × (r.cum_time ≡ 0)
    × (r.pt2pt ≡ messages)
reset_all-keeps_pt2pt_example = reset_all-keeps_pt2pt job busy busy-IsTable

-- two calls of one thread and one of another
abbrev ours : List Event
ours =
    record { dur = 7; send_size = 128; io_size = 0; rma_size = 0 }
    ∷ record { dur = 3; send_size = 0; io_size = 0; rma_size = 64 }
    ∷ []

abbrev theirs : List Event
theirs = record { dur = 5; send_size = 16; io_size = 8; rma_size = 512 } ∷ []

abbrev fresh : CallsiteStats
fresh = cs_reset_stat send_record

fresh-IsBounded : IsBounded fresh
unfolding cs_reset_stat
fresh-IsBounded = omega arith

send_record-rma : send_record.cumulative_rma ≡ 0
unfolding a_mpi_p.Callsites.zero_stats
send_record-rma = refl

cs_merge-replay_append_example :
    cs_merge (replay (pos 64) ours fresh) (replay (pos 64) theirs (cs_reset_stat send_record))
    ≡ keep_rma (replay (pos 64) ours fresh) (replay (pos 64) (ours ++ theirs) fresh)
cs_merge-replay_append_example =
    cs_merge-replay_append (pos 64) ours theirs fresh send_record fresh-IsBounded send_record-rma

fresh-min_rma : fresh.min_rma ≤ dbl_max
unfolding cs_reset_stat a_mpi_p.Callsites.zero_stats
fresh-min_rma = omega arith

get_histogram_bin-Covers_example :
    Covers
      (get_histogram_bin_str (set_up histogram) (get_histogram_bin (set_up histogram) (pos 5000)))
      5000
get_histogram_bin-Covers_example = get_histogram_bin-Covers histogram 5000 (omega arith)

set_up_twice : histogram ≡ set_up histogram
unfolding a_mpi_p.Histogram.init_histogram
set_up_twice = refl

in_range : InRange job 1010 4 5000
in_range = omega arith

coll_upd-AddedOne_example :
    AddedOne job messages 1010 4 5000 9 (coll_upd job idle 1010 9 5000 4).coll.time_stats
    × (coll_upd job idle 1010 9 5000 4 ≡ record idle {
      coll = record messages { time_stats = (coll_upd job idle 1010 9 5000 4).coll.time_stats };
    })
coll_upd-AddedOne_example =
    coll_upd-AddedOne job idle histogram histogram 1010 9 5000 4 idle_on set_up_twice set_up_twice
      in_range

abbrev ones : Grid
ones a b c = 1
