-- ===== src/Messages/Totals.antt =====
-- What `mpiPi_stats_thr_coll_upd`, `mpiPi_stats_thr_pt2pt_upd` and the merges of mpiP-stats.c do to
-- the arrays of message statistics.
use a_mpi_p.Prelude.{
  ℕ, ◌+◌, ◌-◌, ◌^◌, ◌≤◌, ◌<◌, ◌≡◌, refl, true, arith, ◌==◌, ◌&&◌, if◌then◌else◌, pos,
}
use a_mpi_p.Globals.{Globals}
use a_mpi_p.Histogram.{Histogram, get_histogram_bin, get_histogram_bin_str}
use a_mpi_p.Histogram.Bins.{
  set_up, get_histogram_bin-le, Covers, get_histogram_bin-Covers, Covers-unique,
}
use a_mpi_p.Grid.{Grid, histcnt, add_at}
use a_mpi_p.ThreadStat.{MsgStat, ThreadStat, thr_is_on}
use a_mpi_p.Messages.{update_stat, coll_upd, pt2pt_upd}

-- the arguments of an update, as `MPI_Comm_size` and a message size give them, for an operation of
-- mpiPi_def.h
pub record InRange (g : Globals) (op comm_size size : ℕ) : Type 0 where
  pub op_low : g.base ≤ op
  pub op_high : op < g.base + g.nfunc
  pub comm : comm_size < 2 ^ 31
  pub bytes : size < 2 ^ 31

-- The cell of an operation, a communicator's size and a message's size has grown by `v`, and no
-- other: the cell is inside the bounds of the array, and the labels of its two bins enclose the
-- sizes.
pub record AddedOne (g : Globals) (m : MsgStat) (op comm_size size v : ℕ) (after : Grid)
    : Type 0 where
  pub x : ℕ
  pub y : ℕ
  pub z : ℕ
  pub inside : (x < g.nfunc) × (y < histcnt) × (z < histcnt)
  pub of_op : g.base + x ≡ op
  pub of_comm : Covers (get_histogram_bin_str m.comm_hist y) comm_size
  pub of_size : Covers (get_histogram_bin_str m.size_hist z) size
  pub cells :
      (a b c : ℕ)
      → after a b c ≡ m.time_stats a b c + (if (a == x) && (b == y) && (c == z) then v else 0)
  -- no other bin has a label that encloses the size
  pub only_comm : (b : ℕ) → b ≤ 28 → Covers (get_histogram_bin_str m.comm_hist b) comm_size → b ≡ y
  pub only_size : (c : ℕ) → c ≤ 28 → Covers (get_histogram_bin_str m.size_hist c) size → c ≡ z

update_stat-AddedOne :
    (g : Globals) (m : MsgStat) (h k : Histogram) (op comm_size size v : ℕ)
    → m.comm_hist ≡ set_up h
    → m.size_hist ≡ set_up k
    → InRange g op comm_size size
    → AddedOne g m op comm_size size v (update_stat g m op comm_size size v).time_stats
unfolding add_at
update_stat-AddedOne g m h k op comm_size size v eh ek r = record {
  x = op - g.base;
  y = get_histogram_bin m.comm_hist (pos comm_size);
  z = get_histogram_bin m.size_hist (pos size);
  inside = (
    omega (arith, r.op_low, r.op_high),
    rw eh (omega (arith, get_histogram_bin-le h comm_size r.comm)),
    rw ek (omega (arith, get_histogram_bin-le k size r.bytes)),
  );
  of_op = omega (arith, r.op_low);
  of_comm = rw eh (get_histogram_bin-Covers h comm_size r.comm);
  of_size = rw ek (get_histogram_bin-Covers k size r.bytes);
  cells = λ a b c. refl;
  only_comm = λ b le c. rw eh (Covers-unique h comm_size b r.comm le (rw eh at c));
  only_size = λ b le c. rw ek (Covers-unique k size b r.bytes le (rw ek at c));
}

module _ (g : Globals) (s : ThreadStat) (h k : Histogram) (op dur size comm_size : ℕ) where
  -- If the thread is on, its collective histograms are as they are set up, and the operation, the
  -- communicator's size and the message's size are in range, a collective call adds its duration
  -- to one cell of the collective array and changes nothing else of the thread. The cell is inside
  -- the bounds; its first index is that of the operation, and its second and third are the only
  -- bins up to 28 whose labels enclose the communicator's size and the message's size.
  pub coll_upd-AddedOne :
      thr_is_on g s ≡ true
      → s.coll.comm_hist ≡ set_up h
      → s.coll.size_hist ≡ set_up k
      → InRange g op comm_size size
      → AddedOne g s.coll op comm_size size dur (coll_upd g s op dur size comm_size).coll.time_stats
        × (coll_upd g s op dur size comm_size ≡ record s {
          coll = record (s.coll) {
            time_stats = (coll_upd g s op dur size comm_size).coll.time_stats;
          };
        })
  unfolding coll_upd
  coll_upd-AddedOne on eh ek r =
      rw on (update_stat-AddedOne g s.coll h k op comm_size size dur eh ek r, refl)

  -- If the thread is on, its point-to-point histograms are as they are set up, and the operation,
  -- the communicator's size and the message's size are in range, a point-to-point call adds its
  -- message size to one cell of the point-to-point array, inside the bounds, and changes nothing
  -- else of the thread.
  pub pt2pt_upd-AddedOne :
      thr_is_on g s ≡ true
      → s.pt2pt.comm_hist ≡ set_up h
      → s.pt2pt.size_hist ≡ set_up k
      → InRange g op comm_size size
      → AddedOne g s.pt2pt op comm_size size size
          (pt2pt_upd g s op dur size comm_size).pt2pt.time_stats
        × (pt2pt_upd g s op dur size comm_size ≡ record s {
          pt2pt = record (s.pt2pt) {
            time_stats = (pt2pt_upd g s op dur size comm_size).pt2pt.time_stats;
          };
        })
  unfolding pt2pt_upd
  pt2pt_upd-AddedOne on eh ek r =
      rw on (update_stat-AddedOne g s.pt2pt h k op comm_size size size eh ek r, refl)
