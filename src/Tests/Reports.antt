-- ===== src/Tests/Reports.antt =====
-- The theorems on the collecting task and its caches at a report of two tasks.
use a_mpi_p.Prelude.{ℕ, ◌≡◌, refl, ◌==◌, if◌then◌else◌, none, some, [], ◌∷◌, arith, Returns}
use a_mpi_p.Callsites.{CallsiteStats}
use a_mpi_p.Callsites.Keys.{src_id_fns, src_id_fns-IsHashable}
use mathlib.Core.List.Permᴰ
use a_mpi_p.Hash.{empty_table}
use a_mpi_p.Hash.Buckets.{IsValid, empty_table-IsValid}
use a_mpi_p.Hash.Insert.{h_insert-Inserted}
use a_mpi_p.Sources.{SrcLoc}
use a_mpi_p.Sources.Lookup.{Sources, query_src, fill}
use a_mpi_p.Sources.Cache.{IsCache, empty_table-IsCache, frames_of}
use a_mpi_p.Sources.Query.{IsLocated, query_src-IsLocated}
use a_mpi_p.Collector.{Collected, insert_mpi_records}
use a_mpi_p.Collector.Operations.{ByOperation, insert_mpi_records-ByOperation}
use a_mpi_p.Tests.{job, site, send_record}

-- an executable that knows the line of one address
abbrev pub lines : ℕ → SrcLoc
lines pc = if pc == 4096 then some (some (97 ∷ []), 12, none) else none

abbrev pub caches : Sources
caches = record { pc_cache = empty_table 5; src_id_cache = empty_table 5; id_counter = 1 }

abbrev pub nothing : Collected
nothing = record {
  callsite_stats = empty_table 5;
  callsite_stats_agg = empty_table 5;
  task_mpi_time = λ t. 0;
  mpi_time = 0;
  mpi_size = 0;
  mpi_io = 0;
  mpi_rma = 0;
  msize_threshold_count = 0;
  sent_count = 0;
  time_callsite_count = 0;
}

abbrev far_record : CallsiteStats
far_record = record send_record { rank = 3; cumulative_time = 4 }

query_src-IsLocated_example : Returns (query_src job lines caches send_record) λ r.
    IsLocated send_record r.0
    × IsCache lines r.1.pc_cache
    × (r.0.filename ≡ fill (λ e. some e.filename) (frames_of lines job 2 site) send_record.filename)
    × (r.0.lineno ≡ fill (λ e. e.line) (frames_of lines job 2 site) send_record.lineno)
query_src-IsLocated_example =
    query_src-IsLocated job lines caches send_record (empty_table-IsCache lines)

-- a collector whose aggregate table has one record
abbrev reported : Collected
reported = record nothing {
  callsite_stats_agg =
      (h_insert-Inserted src_id_fns src_id_fns-IsHashable (empty_table 5)
        (empty_table-IsValid src_id_fns 5 (omega arith)) send_record).0.1;
}

reported-IsValid : IsValid src_id_fns reported.callsite_stats_agg
reported-IsValid =
    (h_insert-Inserted src_id_fns src_id_fns-IsHashable (empty_table 5)
      (empty_table-IsValid src_id_fns 5 (omega arith)) send_record).2.valid

insert_mpi_records-ByOperation_example :
    Returns (insert_mpi_records job (λ av. av) reported) (ByOperation reported)
insert_mpi_records-ByOperation_example =
    insert_mpi_records-ByOperation job (λ av. av) reported 5 Permᴰ.refl refl (omega arith)
      reported-IsValid
