-- ===== src/Report/Top.antt =====
-- The sections of report.c with the top twenty call sites, and with the top twenty cells of the
-- arrays of message statistics.
use a_mpi_p.Prelude.{
  ℕ, zero, suc, List, [], ◌∷◌, ◌++◌, Bool, true, false, none, ltb, if◌then◌else◌, Run, ok, ◌>>=◌, ℤ,
  pos, leb_ℤ,
}
use a_mpi_p.Globals.{Globals}
use a_mpi_p.Grid.{Grid, histcnt}
use a_mpi_p.Callsites.{CallsiteStats}
use a_mpi_p.Report.{
  Report, Line, heading, message, site_line, threshold_line, cell_line, descending, Sort,
  gather_aggregate, sort_by_cumulative_time, sort_by_cumulative_size, sort_by_cumulative_io,
  sort_by_cumulative_rma,
}

abbrev pub site_of : (CallsiteStats → ℕ) → CallsiteStats → Line
site_of value a = site_line a.op a.csid (value a) a.count

-- for (i = 0; (i < n) && (i < ac); i++): the sites with a value
unfoldable pub print_top : (CallsiteStats → ℕ) → (n : ℕ) → List CallsiteStats → List Line
print_top value zero av = []
print_top value (suc n) [] = []
print_top value (suc n) (a ∷ av) =
    (if ltb 0 (value a) then site_of value a ∷ [] else []) ++ print_top value n av

-- mpiPi_print_top_time_sites
unfoldable pub print_top_time_sites : Globals → Sort → Report → Run (List Line)
print_top_time_sites g sort r = do
  av ← gather_aggregate g r
  ok (
      heading "Aggregate Time (top twenty, descending, milliseconds)" none
      ∷ print_top (λ a. a.cumulative_time) 20 (sort sort_by_cumulative_time av))

-- mpiPi_print_top_sent_sites
unfoldable pub print_top_sent_sites : Globals → Sort → Report → Run (List Line)
print_top_sent_sites g sort r =
    if ltb 0 (r.collected.mpi_size)
    then (do
      av ← gather_aggregate g r
      ok (
          heading "Aggregate Sent Message Size (top twenty, descending, bytes)" none
            ∷ print_top (λ a. a.cumulative_data_sent) 20 (sort sort_by_cumulative_size av)
          ++ (if leb_ℤ (pos 0) g.message_count_threshold
              then threshold_line r.collected.msize_threshold_count r.collected.sent_count ∷ []
              else [])))
    else ok []

-- mpiPi_print_top_io_sites
unfoldable pub print_top_io_sites : Globals → Sort → Report → Run (List Line)
print_top_io_sites g sort r =
    if ltb 0 (r.collected.mpi_io)
    then (do
      av ← gather_aggregate g r
      ok (
          heading "Aggregate I/O Size (top twenty, descending, bytes)" none
          ∷ print_top (λ a. a.cumulative_io) 20 (sort sort_by_cumulative_io av)))
    else ok []

-- mpiPi_print_top_rma_sites
unfoldable pub print_top_rma_sites : Globals → Sort → Report → Run (List Line)
print_top_rma_sites g sort r =
    if ltb 0 (r.collected.mpi_rma)
    then (do
      av ← gather_aggregate g r
      ok (
          heading "Aggregate RMA Origin Size (top twenty, descending, bytes)" none
          ∷ print_top (λ a. a.cumulative_rma) 20 (sort sort_by_cumulative_rma av)))
    else ok []

-- a pointer to a cell of an array, by its indices
pub record Cell : Type 0 where
  pub op : ℕ
  pub comm : ℕ
  pub size : ℕ
  pub value : ℕ

unfoldable pub histogram_sort_by_value : Cell → Cell → ℤ
histogram_sort_by_value = descending (λ c. c.value)

-- the cells above 0 in the loops for z, y and x, of which `n` rounds are left
unfoldable pub cells_in_row : Grid → (x y z n : ℕ) → List Cell
cells_in_row grid x y z zero = []
cells_in_row grid x y z (suc n) =
    (if ltb 0 (grid x y z)
      then record { op = x; comm = y; size = z; value = grid x y z } ∷ []
      else [])
    ++ cells_in_row grid x y (suc z) n

unfoldable pub cells_in_plane : Grid → (x y n : ℕ) → List Cell
cells_in_plane grid x y zero = []
cells_in_plane grid x y (suc n) = cells_in_row grid x y 0 histcnt ++ cells_in_plane grid x (suc y) n

unfoldable pub cells_above_zero : Grid → (x n : ℕ) → List Cell
cells_above_zero grid x zero = []
cells_above_zero grid x (suc n) = cells_in_plane grid x 0 histcnt ++ cells_above_zero grid (suc x) n

unfoldable pub print_cells : (n : ℕ) → List Cell → List Line
print_cells zero cs = []
print_cells (suc n) [] = []
print_cells (suc n) (c ∷ cs) = cell_line c.op c.comm c.size c.value ∷ print_cells n cs

abbrev pub is_nil : List Cell → Bool
is_nil [] = true
is_nil (c ∷ cs) = false

-- mpiPi_print_top_collective_sent_sites; the label is by number, as for an operation
unfoldable pub print_top_collective_sent_sites :
    Globals → (List Cell → List Cell) → Report → List Line
print_top_collective_sent_sites g sort r =
    let cells = sort (cells_above_zero r.coll_time_stats 0 g.nfunc) in
    if ltb 0 (r.collected.mpi_size)
    then heading "Aggregate Collective Time (top twenty, descending)" none
      ∷ (if is_nil cells
          then message "No collective operations to report" ∷ []
          else print_cells 20 cells)
    else []

-- mpiPi_print_top_pt2pt_sent_sites
unfoldable pub print_top_pt2pt_sent_sites : Globals → (List Cell → List Cell) → Report → List Line
print_top_pt2pt_sent_sites g sort r =
    let cells = sort (cells_above_zero r.pt2pt_send_stats 0 g.nfunc) in
    if ltb 0 (r.collected.mpi_size)
    then heading "Aggregate Point-To-Point Sent (top twenty, descending)" none
      ∷ (if is_nil cells
          then message "No point to point operations to report" ∷ []
          else print_cells 20 cells)
    else []
