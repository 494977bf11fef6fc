-- ===== src/Histogram/Bins.antt =====
-- Where `get_histogram_bin` of mpiP-stats.c puts a value, against the label of the bin.
use native.Mathlib.Nat.{pow-suc}
use a_mpi_p.Prelude.{
  ℕ, zero, suc, ◌+◌, ◌-◌, ◌*◌, ◌/◌, ◌%◌, ◌^◌, ◌≤◌, ◌<◌, ◌≡◌, refl, none, arith, ltb, ◌∙◌,
  if◌then◌else◌, pos, leb_ℤ, true, false, ◌==◌, ℤ, Bool-cases, inl, inr, ltb→lt,
}
use a_mpi_p.Histogram.{
  Histogram, bin_loop, get_histogram_bin, init_histogram, label_from, get_histogram_bin_str,
}

-- the rounds that the loop makes
steps : (rounds f wv : ℕ) → ℕ
steps zero f wv = 0
steps (suc n) f wv = let rest = suc (steps n f (wv / 2)) in if ltb f wv then rest else 0

bin_loop-steps : (n f wv bin : ℕ) → bin_loop n f wv bin ≡ bin + steps n f wv
unfolding bin_loop steps
bin_loop-steps zero f wv bin = omega arith
bin_loop-steps (suc n) f wv bin = ground (arith, bin_loop-steps n f (wv / 2) (bin + 1))

-- the greatest value of bin `k`, and the least of bin `k + 1`
high : ℕ → ℕ → ℕ
high f zero = f
high f (suc k) = 2 * high f k + 1

low : ℕ → ℕ → ℕ
low f zero = f + 1
low f (suc k) = 2 * low f k

steps-le : (n f wv m : ℕ) → wv ≤ high f m → steps n f wv ≤ m
unfolding steps high
steps-le zero f wv m h = omega arith
steps-le (suc n) f wv zero h = ground arith
steps-le (suc n) f wv (suc m) h = ground (arith, steps-le n f (wv / 2) m)

le-high : (n f wv : ℕ) → steps n f wv < n → wv ≤ high f (steps n f wv)
unfolding steps high
le-high zero f wv h = absurd (omega arith)
le-high (suc n) f wv h = ground (arith, le-high n f (wv / 2))

low-le : (n f wv k : ℕ) → steps n f wv ≡ suc k → low f k ≤ wv
unfolding steps low
low-le zero f wv k h = absurd (omega arith)
low-le (suc n) f wv zero h = ground arith
low-le (suc n) f wv (suc k) h = ground (arith, low-le n f (wv / 2) k)

low-pow : (f k : ℕ) → low f k ≡ (f + 1) * 2 ^ k
unfolding low
low-pow f zero = omega arith
low-pow f (suc k) = rw (pow-suc, low-pow f k) (omega arith)

high-low : (f k : ℕ) → high f k + 1 ≡ low f k
unfolding high low
high-low f zero = omega arith
high-low f (suc k) = omega (arith, high-low f k)

low_mono : (f j m : ℕ) → j ≤ m → low f j ≤ low f m
unfolding low
low_mono f zero zero h = omega arith
low_mono f (suc j) zero h = absurd (omega arith)
low_mono f zero (suc m) h = omega (arith, low_mono f zero m (omega arith))
low_mono f (suc j) (suc m) h = omega (arith, low_mono f j m (omega arith))

low_numerals : (low 7 27 ≡ 2 ^ 30) × (high 7 28 ≡ 2 ^ 31 - 1)
unfolding low high
low_numerals = (refl, refl)

-- the histograms that `mpiPi_stats_thr_init` sets up
abbrev pub set_up : Histogram → Histogram
set_up h = init_histogram h 7 32 none

bin-steps : (h : Histogram) (val : ℕ) → get_histogram_bin (set_up h) (pos val) ≡ steps 32 7 val
unfolding get_histogram_bin init_histogram
bin-steps h val = bin_loop-steps 32 7 val 0 ∙ omega arith

-- In a histogram as it is set up, the bin of a value from 0 below 2^31 is at most 28, so it is an
-- index into the 32 bins of the arrays.
pub get_histogram_bin-le :
    (h : Histogram) (val : ℕ) → val < 2 ^ 31 → get_histogram_bin (set_up h) (pos val) ≤ 28
get_histogram_bin-le h val lt = rw bin-steps (steps-le 32 7 val 28 (omega (arith, low_numerals.1)))

-- the two ends of a label enclose a value
abbrev pub Covers : ℤ × ℤ → ℕ → Type 0
Covers label val = (leb_ℤ label.0 (pos val) ≡ true) × (leb_ℤ (pos val) label.1 ≡ true)

label_from_lem : (p : ℕ) → 0 < p → p ≤ 2 ^ 30 → label_from p ≡ (pos p, pos (2 * p - 1))
unfolding label_from
label_from_lem p lo hi = ground arith

label-zero : (h : Histogram) → get_histogram_bin_str (set_up h) 0 ≡ (pos 0, pos 7)
unfolding get_histogram_bin_str init_histogram
label-zero h = refl

label-later :
    (h : Histogram) (j : ℕ)
    → get_histogram_bin_str (set_up h) (suc j) ≡ label_from ((7 + 1) * 2 ^ (suc j - 1) % 2 ^ 32)
unfolding get_histogram_bin_str init_histogram
label-later h j = let other : (suc j == 0) ≡ false = ground arith in rw other

label-suc :
    (h : Histogram) (j : ℕ)
    → j ≤ 27
    → get_histogram_bin_str (set_up h) (suc j) ≡ (pos (low 7 j), pos (2 * low 7 j - 1))
label-suc h j le =
    let small = low_mono 7 j 27 le in
    let least = low_mono 7 0 j (omega arith) in
    let whole : (7 + 1) * 2 ^ (suc j - 1) % 2 ^ 32 ≡ low 7 j =
      let one : suc j - 1 ≡ j = omega arith in
      rw (one, ← low-pow 7 j) (omega (arith, small, low_numerals.0)) in
    rw (label-later, whole)
      (label_from_lem (low 7 j) (unfold low in omega (arith, least))
        (omega (arith, low_numerals.0)))

label-Covers :
    (h : Histogram) (val k : ℕ)
    → steps 32 7 val ≡ k
    → val < 2 ^ 31
    → k ≤ 28
    → Covers (get_histogram_bin_str (set_up h) k) val
unfolding high
label-Covers h val zero e lt le =
    let top : val ≤ high 7 (steps 32 7 val) = le-high 32 7 val (omega arith) in
    let top' : val ≤ 7 = rw e at top in rw label-zero (ground arith)
label-Covers h val (suc j) e lt le =
    let top : val ≤ high 7 (steps 32 7 val) = le-high 32 7 val (omega arith) in
    let top' : val ≤ high 7 (suc j) = rw e at top in
    let bottom = low-le 32 7 val j e in
    rw (label-suc h j (omega arith)) (ground (arith, high-low 7 j))

-- In a histogram as it is set up, the two numbers printed as the label of the bin of a value from
-- 0 below 2^31 enclose the value.
pub get_histogram_bin-Covers :
    (h : Histogram) (val : ℕ)
    → val < 2 ^ 31
    → Covers (get_histogram_bin_str (set_up h) (get_histogram_bin (set_up h) (pos val))) val
get_histogram_bin-Covers h val lt =
    rw bin-steps (
      label-Covers h val (steps 32 7 val) refl lt (rw bin-steps at (get_histogram_bin-le h val lt)))

-- of two bins whose labels enclose a value the second is not the greater one
labels_ordered :
    (h : Histogram) (val j k : ℕ)
    → k ≤ 28
    → Covers (get_histogram_bin_str (set_up h) j) val
    → Covers (get_histogram_bin_str (set_up h) k) val
    → k ≤ j
unfolding low
labels_ordered h val j zero le c d = omega arith
labels_ordered h val zero (suc k) le c d =
    let c' : Covers (pos 0, pos 7) val = rw label-zero at c in
    let d' : Covers (pos (low 7 k), pos (2 * low 7 k - 1)) val =
      rw (label-suc h k (omega arith)) at d in
    let mono = low_mono 7 0 k (omega arith) in absurd (ground arith)
labels_ordered h val (suc j) (suc k) le c d = elim (Bool-cases (ltb j k)) [
  | inl above ↦
      let small : j < k = ltb→lt j k above in
      let c' : Covers (pos (low 7 j), pos (2 * low 7 j - 1)) val =
        rw (label-suc h j (omega arith)) at c in
      let d' : Covers (pos (low 7 k), pos (2 * low 7 k - 1)) val =
        rw (label-suc h k (omega arith)) at d in
      let mono = low_mono 7 (suc j) k small in
      let least = low_mono 7 0 j (omega arith) in absurd (ground arith)
  | inr not_above ↦ ground arith
]

-- In a histogram as it is set up, no bin up to 28 but the one of a value from 0 below 2^31 has a
-- label that encloses the value.
pub Covers-unique :
    (h : Histogram) (val k : ℕ)
    → val < 2 ^ 31
    → k ≤ 28
    → Covers (get_histogram_bin_str (set_up h) k) val
    → k ≡ get_histogram_bin (set_up h) (pos val)
Covers-unique h val k lt le c =
    let bin = get_histogram_bin (set_up h) (pos val) in
    let own = get_histogram_bin-Covers h val lt in
    let upper = labels_ordered h val bin k le own c in
    let lower = labels_ordered h val k bin (get_histogram_bin-le h val lt) c own in omega arith
