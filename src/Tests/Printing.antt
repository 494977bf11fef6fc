-- ===== src/Tests/Printing.antt =====
-- The theorems on the reports at tables and arrays of a few records, and runs of the sections.
use mathlib.Core.List.Permᴰ
use a_mpi_p.Prelude.{
  abort, ℕ, ◌<◌, ◌≡◌, refl, ap, min, is_some, true, false, none, some, List, [], ◌∷◌, arith, ok,
  Returns, ◌==◌, if◌then◌else◌,
}
use a_mpi_p.Grid.{zero_grid}
use a_mpi_p.Callsites.{CallsiteStats, Text, dbl_max}
use a_mpi_p.Callsites.Keys.{src_fns, src_fns-IsHashable}
use a_mpi_p.Hash.{HashTable, empty_table}
use a_mpi_p.Hash.Buckets.{IsValid, empty_table-IsValid, view-empty_table}
use a_mpi_p.Hash.Insert.{h_insert-Inserted}
use a_mpi_p.Report.{Report, Sort, SiteSummary, summary_line, rank_line, blank}
use a_mpi_p.Report.Top.{print_top}
use a_mpi_p.Report.Ranks.{Ranked, print_top-Ranked}
use a_mpi_p.Report.Sites.{
  sent, zero_tally, time_lines, size_lines, print_all_callsite_time_info,
  print_all_callsite_sent_info, print_all_callsite_io_info, print_all_callsite_rma_info,
}
use a_mpi_p.Report.Concise.{no_extremes, concise_sites, size_section}
use a_mpi_p.Report.Summaries.{ConciseStored, concise_sites-Stored}
use a_mpi_p.Report.Sections.{
  ShowsTable, print_all_callsite_time_info-ShowsTable, print_all_callsite_sent_info-ShowsTable,
}
use a_mpi_p.Report.Profile.{no_span, span_of}
use a_mpi_p.Report.Spans.{Spans, span_of-Spans}
use a_mpi_p.Sources.{strcmp}
use a_mpi_p.Sources.Stacks.{SrcIdEntry}
use a_mpi_p.Report.Stacks.{StackFrame, source, wrappers, frame_lines}
use a_mpi_p.Report.Frames.{lines_shown, before_null, frame_lines-shown}
use a_mpi_p.Tests.{send_record}
use a_mpi_p.Tests.Reports.{nothing}

abbrev as_it_is : Sort
as_it_is cmp av = av

-- a collector with one record, and with sent, read and put bytes
abbrev filled : HashTable CallsiteStats
filled =
    (h_insert-Inserted src_fns src_fns-IsHashable (empty_table 5)
      (empty_table-IsValid src_fns 5 (omega arith)) send_record).0.1

filled-IsValid : IsValid src_fns filled
filled-IsValid =
    (h_insert-Inserted src_fns src_fns-IsHashable (empty_table 5)
      (empty_table-IsValid src_fns 5 (omega arith)) send_record).2.valid

filled-count : 0 < filled.count
unfolding empty_table
filled-count =
    let (r, run, i) =
      h_insert-Inserted src_fns src_fns-IsHashable (empty_table 5)
        (empty_table-IsValid src_fns 5 (omega arith)) send_record in
    let new =
      ap {B = ℕ} (λ o. if is_some o then 1 else 0) (view-empty_table src_fns 5 send_record) in
    omega (arith, i.code, i.grown, new)

abbrev printed : Report
printed = record {
  collected = record nothing {
    callsite_stats = filled;
    mpi_size = 128;
    mpi_io = 64;
    mpi_rma = 32;
    task_mpi_time = λ t. 40;
  };
  mpi_stats_agg = none;
  global_app_time = 100;
  task_app_time = λ t. 100;
  print_threshold = 0;
  src_id_count = 3;
  coll_time_stats = zero_grid;
  pt2pt_send_stats = zero_grid;
  print_callsite_detail = true;
  op_name = λ o. o ∷ [];
}

print_all_callsite_time_info-ShowsTable_example :
    Returns
      (print_all_callsite_time_info as_it_is printed)
      (ShowsTable (λ a. a.cumulative_time) printed)
print_all_callsite_time_info-ShowsTable_example =
    print_all_callsite_time_info-ShowsTable as_it_is printed Permᴰ.refl filled-IsValid filled-count

print_all_callsite_sent_info-ShowsTable_example :
    Returns
      (print_all_callsite_sent_info as_it_is printed)
      (ShowsTable (λ a. a.cumulative_data_sent) printed)
    × Returns
        (print_all_callsite_io_info as_it_is printed)
        (ShowsTable (λ a. a.cumulative_io) printed)
    × Returns
        (print_all_callsite_rma_info as_it_is printed)
        (ShowsTable (λ a. a.cumulative_rma) printed)
print_all_callsite_sent_info-ShowsTable_example =
    print_all_callsite_sent_info-ShowsTable as_it_is printed Permᴰ.refl filled-IsValid (omega arith)
      (omega arith) (omega arith)

-- two records of call site 1 and one of call site 2
abbrev record_of : (csid rank time sent : ℕ) → CallsiteStats
record_of c rank t s = record send_record {
  csid = c;
  rank = rank;
  count = 1;
  cumulative_time = t;
  max_dur = t;
  min_dur = t;
  cumulative_data_sent = s;
  max_data_sent = s;
  min_data_sent = s;
}

abbrev three : List CallsiteStats
three = record_of 1 0 7 128 ∷ record_of 1 1 5 0 ∷ record_of 2 0 4 16 ∷ []

three-time_lines :
    time_lines printed none zero_tally three
    ≡ ok (
        rank_line 1010 1 0 1 7 7 7
        ∷ rank_line 1010 1 1 1 5 5 5
        ∷ summary_line 1010 1 2 7 12 (min 5 (min 7 dbl_max))
        ∷ blank
        ∷ rank_line 1010 2 0 1 4 4 4
        ∷ summary_line 1010 2 1 4 4 (min 4 dbl_max)
        ∷ [])
unfolding time_lines zero_tally
three-time_lines = refl

three-size_lines :
    size_lines sent none 0 zero_tally three
    ≡ ok (
        rank_line 1010 1 0 1 128 128 128
        ∷ summary_line 1010 1 1 128 128 (min 128 dbl_max)
        ∷ blank
        ∷ rank_line 1010 2 0 1 16 16 16
        ∷ summary_line 1010 2 1 16 16 (min 16 dbl_max)
        ∷ [])
unfolding size_lines zero_tally
three-size_lines = refl

concise_sites-Stored_example :
    ConciseStored false sent 3
      (record_of 1 0 7 128)
      (record_of 1 1 5 0 ∷ record_of 2 0 4 16 ∷ [])
      (concise_sites false sent 3 none no_extremes [] three)
concise_sites-Stored_example =
    concise_sites-Stored false sent 3 (record_of 1 0 7 128)
      (record_of 1 1 5 0 ∷ record_of 2 0 4 16 ∷ [])

-- two call sites in an array for one, which the store behind the loop leaves
three-overrun : concise_sites false sent 1 none no_extremes [] three ≡ abort "callsite_stats[csidx]"
unfolding concise_sites no_extremes
three-overrun = refl

-- a concise section on sizes with one call site is not printed
abbrev lone : SiteSummary
lone = record {
  name = 1010;
  site = 1;
  tasks = 4;
  largest = 128;
  smallest = 128;
  cumulative = 512;
  max_rnk = some 0;
  min_rnk = some 0;
}

lone-unprinted :
    size_section "Callsite Message Sent statistics (all callsites, sent bytes)" (lone ∷ []) (λ l. l)
    ≡ []
unfolding size_section
lone-unprinted = refl

print_top-Ranked_example :
    Ranked (λ a. a.cumulative_time) 2 three (print_top (λ a. a.cumulative_time) 2 three)
print_top-Ranked_example =
    print_top-Ranked (λ a. a.cumulative_time) 2 three
      ((omega arith, (omega arith, tt)), ((omega arith, tt), (tt, tt)))

-- the times of three tasks
abbrev times : ℕ → ℕ
times i = if i == 1 then 3 else 9

span_of-Spans_example : Spans times 0 3 no_span (span_of times 0 3 no_span)
span_of-Spans_example = span_of-Spans times 0 3 no_span

-- the stack wrapper, "f", "main" and "g" of a call site
abbrev frame : (file function : Text) (line : ℕ) → StackFrame
frame file function line = record { file = some file; function = function; line = line; pc = 64 }

abbrev stack : List StackFrame
stack =
    frame wrappers (119 ∷ []) 7
    ∷ frame (97 ∷ []) (102 ∷ []) 12
    ∷ frame (97 ∷ []) (109 ∷ 97 ∷ 105 ∷ 110 ∷ []) 30
    ∷ frame (98 ∷ []) (103 ∷ []) 2
    ∷ record { file = none; function = []; line = 0; pc = 0 }
    ∷ []

abbrev entry : SrcIdEntry
entry = record { id = 1; op = 1010; tmpid = 3; filename = []; functname = []; line = []; pc = [] }

stack-lines :
    frame_lines entry 8 0 (some 1010) stack
    ≡ ok (
        record {
          id = 1;
          tmpid = 3;
          level = 0;
          place = source (97 ∷ []) 12;
          function = 102 ∷ [];
          display_op = some 1010;
        }
        ∷ record {
          id = 1;
          tmpid = 3;
          level = 1;
          place = source (97 ∷ []) 30;
          function = 109 ∷ 97 ∷ 105 ∷ 110 ∷ [];
          display_op = none;
        }
        ∷ [])
unfolding frame_lines strcmp
stack-lines = refl

frame_lines-shown_example :
    frame_lines entry 2 0 (some 1010) stack
    ≡ ok (lines_shown entry 2 0 (some 1010) (before_null stack))
frame_lines-shown_example = frame_lines-shown entry 2 0 (some 1010) stack refl
