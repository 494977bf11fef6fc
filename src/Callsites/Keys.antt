-- ===== src/Callsites/Keys.antt =====
-- The hash keys and comparators of call-site records: `_thrd_pc_hashkey` and `trd_pc_comparator` of
-- mpiP-stats.c, and the three pairs of mpiPi.c. An address is a number; the assertion on the
-- cookie, which every record and key carries, is left out.
use a_mpi_p.Prelude.{
  ℕ, zero, suc, ◌+◌, ◌%◌, ◌^◌, ◌≡◌, refl, ◌<◌, bit_xor, true, ◌&&◌, List, arith, ◌==◌, ltb,
  if◌then◌else◌, ℤ, pos, negsuc, is_zero, get_or,
}
use a_mpi_p.Chain.{matches}
use a_mpi_p.Hash.{HashFns}
use a_mpi_p.Hash.Buckets.{IsHashable}
use a_mpi_p.Callsites.{CallsiteStats}

-- the macro `express`: decide by one field, or go on
abbrev pub express : ℕ → ℕ → ℤ → ℤ
express a b rest = if ltb b a then pos 1 else if ltb a b then negsuc 0 else rest

pub express-is_zero : (a b : ℕ) (rest : ℤ) → is_zero (express a b rest) ≡ ((a == b) && is_zero rest)
express-is_zero a b rest = ground arith

-- for (i = …; i < depth; i++) express (pc[i]): `rounds` are left
compare_pcs : (rounds i : ℕ) → List ℕ → List ℕ → ℤ
compare_pcs zero i xs ys = pos 0
compare_pcs (suc n) i xs ys = express (get_or xs i 0) (get_or ys i 0) (compare_pcs n (i + 1) xs ys)

-- res ^= (unsigned) (long) csp->pc[i]
hash_pcs : (rounds i : ℕ) → List ℕ → ℕ → ℕ
hash_pcs zero i pcs res = res
hash_pcs (suc n) i pcs res = hash_pcs n (i + 1) pcs (bit_xor res (get_or pcs i 0 % 2 ^ 32))

-- `_thrd_pc_hashkey` and `trd_pc_comparator`, at the depth `mpiPi.fullStackDepth`
unfoldable pub thrd_pc_hashkey : ℕ → CallsiteStats → ℕ
unfolding hash_pcs
thrd_pc_hashkey depth csp =
    bit_xor (bit_xor (bit_xor 52271 csp.op) (hash_pcs depth 0 csp.pc 0)) csp.rank

unfoldable pub trd_pc_comparator : ℕ → CallsiteStats → CallsiteStats → ℤ
unfolding compare_pcs
trd_pc_comparator depth a b =
    express a.op b.op (express a.rank b.rank (compare_pcs depth 0 a.pc b.pc))

abbrev pub thread_fns : ℕ → HashFns CallsiteStats
thread_fns depth = record { hf = thrd_pc_hashkey depth; hc = trd_pc_comparator depth }

-- `mpiPi_callsite_stats_src_hashkey` and its comparator
unfoldable pub src_hashkey : CallsiteStats → ℕ
src_hashkey csp = bit_xor (bit_xor (bit_xor (bit_xor 52271 csp.op) 0) csp.rank) csp.csid

unfoldable pub src_comparator : CallsiteStats → CallsiteStats → ℤ
src_comparator a b = express a.op b.op (express a.csid b.csid (express a.rank b.rank (pos 0)))

abbrev pub src_fns : HashFns CallsiteStats
src_fns = record { hf = src_hashkey; hc = src_comparator }

-- `mpiPi_callsite_stats_src_id_hashkey` and its comparator
unfoldable pub src_id_hashkey : CallsiteStats → ℕ
src_id_hashkey csp = bit_xor (bit_xor (bit_xor 52271 csp.op) 0) csp.csid

unfoldable pub src_id_comparator : CallsiteStats → CallsiteStats → ℤ
src_id_comparator a b = express a.op b.op (express a.csid b.csid (pos 0))

abbrev pub src_id_fns : HashFns CallsiteStats
src_id_fns = record { hf = src_id_hashkey; hc = src_id_comparator }

-- `mpiPi_callsite_stats_MPI_id_hashkey` and `mpiPi_callsite_stats_op_comparator`
unfoldable pub mpi_id_hashkey : CallsiteStats → ℕ
mpi_id_hashkey csp = bit_xor 52271 csp.op

unfoldable pub op_comparator : CallsiteStats → CallsiteStats → ℤ
op_comparator a b = express a.op b.op (pos 0)

abbrev pub op_fns : HashFns CallsiteStats
op_fns = record { hf = mpi_id_hashkey; hc = op_comparator }

pcs_refl : (n i : ℕ) (xs : List ℕ) → is_zero (compare_pcs n i xs xs) ≡ true
unfolding compare_pcs
pcs_refl zero i xs = refl
pcs_refl (suc n) i xs = ground (arith, pcs_refl n (i + 1) xs)

pcs_symm :
    (n i : ℕ) (xs ys : List ℕ)
    → is_zero (compare_pcs n i xs ys) ≡ true
    → is_zero (compare_pcs n i ys xs) ≡ true
unfolding compare_pcs
pcs_symm zero i xs ys h = refl
pcs_symm (suc n) i xs ys h = ground (arith, pcs_symm n (i + 1) xs ys)

pcs_trans :
    (n i : ℕ) (xs ys zs : List ℕ)
    → is_zero (compare_pcs n i xs ys) ≡ true
    → is_zero (compare_pcs n i ys zs) ≡ true
    → is_zero (compare_pcs n i xs zs) ≡ true
unfolding compare_pcs
pcs_trans zero i xs ys zs h k = refl
pcs_trans (suc n) i xs ys zs h k = ground (arith, pcs_trans n (i + 1) xs ys zs)

hash_pcs_congr :
    (n i : ℕ) (xs ys : List ℕ) (r : ℕ)
    → is_zero (compare_pcs n i xs ys) ≡ true
    → hash_pcs n i xs r ≡ hash_pcs n i ys r
unfolding compare_pcs hash_pcs
hash_pcs_congr zero i xs ys r h = refl
hash_pcs_congr (suc n) i xs ys r h =
    let same : get_or xs i 0 ≡ get_or ys i 0 = ground arith in
    rw same (hash_pcs_congr n (i + 1) xs ys _ (ground arith))

-- At every stack depth, answer 0 of the comparator of the per-thread tables is an equivalence, and
-- records with that answer have the same hash.
pub thread_fns-IsHashable : (depth : ℕ) → IsHashable (thread_fns depth)
unfolding trd_pc_comparator thrd_pc_hashkey
thread_fns-IsHashable depth = record {
  comparator = record {
    matches_refl = λ a. ground (arith, pcs_refl depth 0 a.pc);
    matches_symm = λ a b h. ground (arith, pcs_symm depth 0 a.pc b.pc);
    matches_trans = λ a b c h k. ground (arith, pcs_trans depth 0 a.pc b.pc c.pc);
  };
  agree = λ a b h.
      let op : a.op ≡ b.op = ground arith in
      let rank : a.rank ≡ b.rank = ground arith in
      let pcs : hash_pcs depth 0 a.pc 0 ≡ hash_pcs depth 0 b.pc 0 =
        hash_pcs_congr depth 0 a.pc b.pc 0 (ground arith) in
      cc;
}

-- Answer 0 of the comparator by operation, call site and rank is an equivalence, and records with
-- that answer have the same hash.
pub src_fns-IsHashable : IsHashable src_fns
unfolding src_comparator src_hashkey
src_fns-IsHashable = record {
  comparator = record {
    matches_refl = λ a. ground arith;
    matches_symm = λ a b h. ground arith;
    matches_trans = λ a b c h k. ground arith;
  };
  agree = λ a b h.
      let op : a.op ≡ b.op = ground arith in
      let csid : a.csid ≡ b.csid = ground arith in let rank : a.rank ≡ b.rank = ground arith in cc;
}

-- The same holds of the hash and the comparator by operation and call site, of the collector's
-- aggregate table.
pub src_id_fns-IsHashable : IsHashable src_id_fns
unfolding src_id_comparator src_id_hashkey
src_id_fns-IsHashable = record {
  comparator = record {
    matches_refl = λ a. ground arith;
    matches_symm = λ a b h. ground arith;
    matches_trans = λ a b c h k. ground arith;
  };
  agree = λ a b h.
      let op : a.op ≡ b.op = ground arith in let csid : a.csid ≡ b.csid = ground arith in cc;
}

-- and by operation.
pub op_fns-IsHashable : IsHashable op_fns
unfolding op_comparator mpi_id_hashkey
op_fns-IsHashable = record {
  comparator = record {
    matches_refl = λ a. ground arith;
    matches_symm = λ a b h. ground arith;
    matches_trans = λ a b c h k. ground arith;
  };
  agree = λ a b h. let op : a.op ≡ b.op = ground arith in cc;
}

compare_pcs-same :
    (n i : ℕ) (xs ys : List ℕ)
    → ((j : ℕ) → j < i + n → get_or xs j 0 ≡ get_or ys j 0)
    → is_zero (compare_pcs n i xs ys) ≡ true
unfolding compare_pcs
compare_pcs-same zero i xs ys h = refl
compare_pcs-same (suc n) i xs ys h =
    let rest = compare_pcs-same n (i + 1) xs ys (λ j lt. h j (omega arith)) in
    ground (arith, h i (omega arith), rest)

-- Records with one operation, one rank and one stack down to the depth match.
pub matches_of_same :
    (depth : ℕ) (a b : CallsiteStats)
    → a.op ≡ b.op
    → a.rank ≡ b.rank
    → ((j : ℕ) → j < depth → get_or a.pc j 0 ≡ get_or b.pc j 0)
    → matches (trd_pc_comparator depth) a b ≡ true
unfolding trd_pc_comparator
matches_of_same depth a b op rank pcs =
    let same = compare_pcs-same depth 0 a.pc b.pc (λ j lt. pcs j (omega arith)) in
    ground (arith, same)
