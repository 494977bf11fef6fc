-- ===== src/Histogram.antt =====
-- The histogram code of mpiP-stats.c: the bin of a value, and the range that a bin is labelled
-- with.
pub mod Bins
use a_mpi_p.Prelude.{
  ℕ, zero, suc, ◌+◌, ◌-◌, ◌*◌, ◌/◌, ◌%◌, ◌^◌, Option, none, some, List, ltb, ◌==◌, if◌then◌else◌, ℤ,
  pos, negsuc, ltb_ℤ,
}

-- `mpiPi_histogram_t`; the two sizes are never negative
pub record Histogram : Type 0 where
  pub first_bin_max : ℕ
  pub hist_size : ℕ
  pub bin_intervals : Option (List ℤ)

-- while (wv > h->first_bin_max && bin < h->hist_size) { wv >>= 1; bin++; }
-- The second test counts down the `rounds` left.
bin_loop : (rounds first_bin_max wv bin : ℕ) → ℕ
bin_loop zero f wv bin = bin
bin_loop (suc n) f wv bin =
    let rest = bin_loop n f (wv / 2) (bin + 1) in if ltb f wv then rest else bin

bin_of : ℕ → ℕ → ℤ → Option (List ℤ) → ℕ
unfolding bin_loop
bin_of f size (pos val) none = bin_loop size f val 0
bin_of f size (negsuc val) none = 0
bin_of f size val (some intervals) = 0

-- `get_histogram_bin`; a negative value is below every bound
unfoldable pub get_histogram_bin : Histogram → ℤ → ℕ
unfolding bin_of
get_histogram_bin h val = bin_of h.first_bin_max h.hist_size val h.bin_intervals

unfoldable pub init_histogram : Histogram → ℕ → ℕ → Option (List ℤ) → Histogram
init_histogram h first_bin_max size intervals = record h {
  first_bin_max = first_bin_max;
  hist_size = size;
  bin_intervals = intervals;
}

-- the `int` that a 32-bit pattern stands for
abbrev pub signed32 : ℕ → ℤ
signed32 w = if ltb w (2 ^ 31) then pos w else negsuc (2 ^ 32 - w - 1)

-- max = (min << 1) - 1, for a label that begins at `low`
label_from : ℕ → ℤ × ℤ
label_from low = (signed32 low, signed32 ((low * 2 + 2 ^ 32 - 1) % 2 ^ 32))

-- `get_histogram_bin_str`: the two numbers that are printed, with the wrap of the shifts
unfoldable pub get_histogram_bin_str : Histogram → ℕ → ℤ × ℤ
unfolding label_from
get_histogram_bin_str h v =
    if v == 0
    then (pos 0, pos h.first_bin_max)
    else label_from ((h.first_bin_max + 1) * 2 ^ (v - 1) % 2 ^ 32)
