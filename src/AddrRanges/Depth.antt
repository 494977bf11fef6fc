-- ===== src/AddrRanges/Depth.antt =====
-- How deep a search in a tree of pc_lookup_dwarf.c may go.
use a_mpi_p.Prelude.{
  ℕ, suc, ◌+◌, ◌*◌, ◌^◌, ◌≤◌, max, Bool, true, false, ◌∷◌, ◌≡◌, ap, length, length-append, arith,
  to_nat,
}
use a_mpi_p.AddrRanges.{red, black, RangeTree, leaf, node, is_red}
use a_mpi_p.AddrRanges.Contents.{contents}
use a_mpi_p.AddrRanges.Balance.{HasHeight, IsRedBlack}

to_nat-le : (b : Bool) → to_nat b ≤ 1
to_nat-le true = omega arith
to_nat-le false = omega arith

two_pow : (m : ℕ) → 2 ^ suc m ≡ 2 * 2 ^ m
two_pow m = omega arith

module _ {ℓ} {A : Type ℓ} where
  -- the nodes on the longest way down
  abbrev pub depth : RangeTree A → ℕ
  depth leaf = 0
  depth (node c r a b) = suc (max (depth a) (depth b))

  depth-bound : (n : ℕ) (t : RangeTree A) → HasHeight n t → depth t ≤ 2 * n + to_nat (is_red t)
  depth-bound n leaf h = omega arith
  depth-bound n (node red r a b) (ha, hb, ra, rb) =
      let p = depth-bound n a ha in
      let q = depth-bound n b hb in let u = ap to_nat ra in let v = ap to_nat rb in omega arith
  depth-bound n (node black r a b) (m, e, ha, hb) =
      let p = depth-bound m a ha in
      let q = depth-bound m b hb in
      let u = to_nat-le (is_red a) in let v = to_nat-le (is_red b) in omega arith

  length-bound : (n : ℕ) (t : RangeTree A) → HasHeight n t → 2 ^ n ≤ suc (length (contents t))
  length-bound n leaf h = rw h (omega arith)
  length-bound n (node red r a b) (ha, hb, ra, rb) =
      let p = length-bound n a ha in
      let k = length-append (contents a) (r ∷ contents b) in omega arith
  length-bound n (node black r a b) (m, e, ha, hb) =
      let p = length-bound m a ha in
      let q = length-bound m b hb in
      rw e (let k = length-append (contents a) (r ∷ contents b) in let z = two_pow m in omega arith)

  -- A tree with the red-black invariant, which every call of `add_range` keeps, is for some n at
  -- most 2 n nodes deep and has at least 2 ^ n - 1 ranges, so that a search takes a logarithmic
  -- number of steps.
  pub IsRedBlack-shallow :
      (t : RangeTree A)
      → IsRedBlack t
      → (n : ℕ) × (depth t ≤ 2 * n) × (2 ^ n ≤ suc (length (contents t)))
  IsRedBlack-shallow t (n, h, b) =
      (n, (let p = depth-bound n t h in let q = ap to_nat b in omega arith), length-bound n t h)
