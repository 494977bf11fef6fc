-- ===== src/Grid.antt =====
-- The arrays `time_stats[MPIP_NFUNC][MPIP_COMM_HISTCNT][MPIP_SIZE_HISTCNT]` of mpiP-stats.h, with
-- the loops of `_merge_msize_stat`. An array is a function of its three indices.
use a_mpi_p.Prelude.{ℕ, zero, suc, ◌+◌, ◌≡◌, Bool, arith, ◌==◌, ltb, ◌&&◌, if◌then◌else◌}

abbrev pub Grid : Type 0
Grid = ℕ → ℕ → ℕ → ℕ

-- MPIP_COMM_HISTCNT and MPIP_SIZE_HISTCNT
abbrev pub histcnt : ℕ
histcnt = 32

-- after `bzero`
abbrev pub zero_grid : Grid
zero_grid a b c = 0

-- grid[x][y][z] += v
unfoldable pub add_at : Grid → (x y z v : ℕ) → Grid
add_at grid x y z v a b c = grid a b c + (if (a == x) && (b == y) && (c == z) then v else 0)

-- The loops `for (z …)`, `for (y …)` and `for (x …)`, up to a bound.
add_cells : Grid → Grid → (x y n : ℕ) → Grid
unfolding add_at
add_cells dst src x y zero = dst
add_cells dst src x y (suc z) = add_at (add_cells dst src x y z) x y z (src x y z)

add_rows : Grid → Grid → (x n : ℕ) → Grid
unfolding add_cells
add_rows dst src x zero = dst
add_rows dst src x (suc y) = add_cells (add_rows dst src x y) src x y histcnt

unfoldable pub add_planes : Grid → Grid → ℕ → Grid
unfolding add_rows
add_planes dst src zero = dst
add_planes dst src (suc x) = add_rows (add_planes dst src x) src x histcnt

add_cells_lem :
    (dst src : Grid) (x y n a b c : ℕ)
    → add_cells dst src x y n a b c
      ≡ dst a b c + (if (a == x) && (b == y) && ltb c n then src a b c else 0)
unfolding add_cells
add_cells_lem dst src x y zero a b c = ground arith
add_cells_lem dst src x y (suc n) a b c = ground (arith, add_cells_lem dst src x y n a b c)

add_rows_lem :
    (dst src : Grid) (x n a b c : ℕ)
    → add_rows dst src x n a b c
      ≡ dst a b c + (if (a == x) && ltb b n && ltb c histcnt then src a b c else 0)
unfolding add_rows
add_rows_lem dst src x zero a b c = ground arith
add_rows_lem dst src x (suc n) a b c = ground (
  arith,
  add_cells_lem (add_rows dst src x n) src x n histcnt a b c,
  add_rows_lem dst src x n a b c,
)

add_plane :
    (d s a n : ℕ) (p q : Bool)
    → d + (if ltb a n && p && q then s else 0) + (if (a == n) && p && q then s else 0)
      ≡ d + (if ltb a (suc n) && p && q then s else 0)
add_plane d s a n p q = ground arith

-- The three nested loops of a merge of two arrays add the source to the destination in every cell
-- inside the bounds and change no other cell.
pub add_planes_lem :
    (dst src : Grid) (n a b c : ℕ)
    → add_planes dst src n a b c
      ≡ dst a b c + (if ltb a n && ltb b histcnt && ltb c histcnt then src a b c else 0)
unfolding add_planes
add_planes_lem dst src zero a b c = ground arith
add_planes_lem dst src (suc n) a b c =
    rw (add_rows_lem (add_planes dst src n) src n histcnt a b c, add_planes_lem dst src n a b c)
      (add_plane (dst a b c) (src a b c) a n (ltb b histcnt) (ltb c histcnt))
