-- ===== src/Report/Sites.antt =====
-- The sections of report.c with all records of a call site: a line for each, and a summary for the
-- call site.
use a_mpi_p.Prelude.{
  ℕ, ◌+◌, ◌*◌, min, max, Bool, false, not, ◌&&◌, Option, none, some, List, [], ◌∷◌, ◌++◌, ◌==◌, ltb,
  leb, if◌then◌else◌, Run, ok, abort, ◌>>=◌, length,
}
use a_mpi_p.Callsites.{dbl_max, CallsiteStats}
use a_mpi_p.Report.{Report, Line, heading, blank, rank_line, summary_line, Sort, gather_sites}

-- the fields of a record that a section is about
pub record Measure : Type 0 where
  pub amount : CallsiteStats → ℕ
  pub largest : CallsiteStats → ℕ
  pub smallest : CallsiteStats → ℕ

abbrev pub time : Measure
time = record {
  amount = λ a. a.cumulative_time;
  largest = λ a. a.max_dur;
  smallest = λ a. a.min_dur;
}

abbrev pub sent : Measure
sent = record {
  amount = λ a. a.cumulative_data_sent;
  largest = λ a. a.max_data_sent;
  smallest = λ a. a.min_data_sent;
}

abbrev pub io : Measure
io = record { amount = λ a. a.cumulative_io; largest = λ a. a.max_io; smallest = λ a. a.min_io }

abbrev pub rma : Measure
rma = record { amount = λ a. a.cumulative_rma; largest = λ a. a.max_rma; smallest = λ a. a.min_rma }

-- `sCount`, `sMax`, `sMin` and `sCumulative`
pub record Tally : Type 0 where
  pub count : ℕ
  pub largest : ℕ
  pub smallest : ℕ
  pub sum : ℕ

unfoldable pub zero_tally : Tally
zero_tally = record { count = 0; largest = 0; smallest = dbl_max; sum = 0 }

unfoldable pub add_tally : Measure → CallsiteStats → Tally → Tally
add_tally m a t = record {
  count = t.count + a.count;
  largest = max (m.largest a) t.largest;
  smallest = min (m.smallest a) t.smallest;
  sum = t.sum + m.amount a;
}

abbrev pub summary_of : CallsiteStats → Tally → Line
summary_of a t = summary_line a.op a.csid t.count t.largest t.sum t.smallest

abbrev pub line_of : Measure → CallsiteStats → Line
line_of m a = rank_line a.op a.csid a.rank a.count (m.largest a) (m.amount a) (m.smallest a)

-- what a round prints behind `before`: an empty line and the line of the record, if they are wanted
abbrev pub round_lines :
    Measure
    → CallsiteStats
    → (before : List Line) → (gap shown : Bool) → (after : List Line) → List Line
round_lines m a before gap shown after =
    before ++ (if gap then blank ∷ [] else []) ++ (if shown then line_of m a ∷ [] else []) ++ after

-- whether the record is the first one of another call site than the last record
abbrev pub turns : Option CallsiteStats → CallsiteStats → Bool
turns none a = false
turns (some p) a = not (a.csid == p.csid)

-- the summary line of av[i - 1], which is there behind the first round
unfoldable pub last_summary : Option CallsiteStats → Tally → Run (List Line)
last_summary none t = abort "av[-1]"
last_summary (some p) t = ok (summary_of p t ∷ [])

-- a record is shown if its share of the time of its task is not below the threshold
unfoldable pub above_threshold : Report → CallsiteStats → Bool
above_threshold r a =
    let total = r.collected.task_mpi_time a.rank in
    not (total == 0) && leb (r.print_threshold * total) (100000 * a.cumulative_time)

-- the loop of mpiPi_print_all_callsite_time_info
unfoldable pub time_lines :
    Report → (prev : Option CallsiteStats) → Tally → List CallsiteStats → Run (List Line)
unfolding zero_tally add_tally last_summary above_threshold
time_lines r prev t [] = last_summary prev t
time_lines r prev t (a ∷ av) = do
  before ← if turns prev a then last_summary prev t else ok []
  let t' = if turns prev a then zero_tally else t
  after ← time_lines r (some a) (add_tally time a t') av
  ok (round_lines time a before (turns prev a) (above_threshold r a) after)

-- mpiPi_print_all_callsite_time_info
unfoldable pub print_all_callsite_time_info : Sort → Report → Run (List Line)
print_all_callsite_time_info sort r = do
  av ← gather_sites sort r
  lines ← time_lines r none zero_tally av
  ok (heading "Callsite Time statistics (all, milliseconds)" (some (length av)) ∷ lines)

-- the loop of the sections on sizes; `last` is `lastcsid`
unfoldable pub size_lines :
    Measure
    → (prev : Option CallsiteStats) → (last : ℕ) → Tally
    → List CallsiteStats
    → Run (List Line)
unfolding zero_tally add_tally last_summary
size_lines m prev last t [] = if ltb 0 t.sum then last_summary prev t else ok []
size_lines m prev last t (a ∷ av) = do
  let turn = ltb 0 t.sum && turns prev a
  let shown = ltb 0 (m.amount a)
  let t' = if turn then zero_tally else t
  before ← if turn then last_summary prev t else ok []
  after ←
      size_lines m (some a) (if shown then a.csid else last)
        (if shown then add_tally m a t' else t') av
  ok (round_lines m a before (shown && not (last == 0) && not (last == a.csid)) shown after)

-- mpiPi_print_all_callsite_sent_info
unfoldable pub print_all_callsite_sent_info : Sort → Report → Run (List Line)
unfolding size_lines
print_all_callsite_sent_info sort r =
    if ltb 0 (r.collected.mpi_size)
    then (do
      av ← gather_sites sort r
      lines ← size_lines sent none 0 zero_tally av
      ok (heading "Callsite Message Sent statistics (all, sent bytes)" none ∷ lines))
    else ok []

-- mpiPi_print_all_callsite_io_info
unfoldable pub print_all_callsite_io_info : Sort → Report → Run (List Line)
unfolding size_lines
print_all_callsite_io_info sort r =
    if ltb 0 (r.collected.mpi_io)
    then (do
      av ← gather_sites sort r
      lines ← size_lines io none 0 zero_tally av
      ok (heading "Callsite I/O statistics (all, I/O bytes)" none ∷ lines))
    else ok []

-- mpiPi_print_all_callsite_rma_info
unfoldable pub print_all_callsite_rma_info : Sort → Report → Run (List Line)
unfolding size_lines
print_all_callsite_rma_info sort r =
    if ltb 0 (r.collected.mpi_rma)
    then (do
      av ← gather_sites sort r
      lines ← size_lines rma none 0 zero_tally av
      ok (heading "Callsite RMA statistics (all, origin bytes)" none ∷ lines))
    else ok []
