-- ===== src/Dwarf/Patch.antt =====
-- AddrToSourceMap_PatchRanges of pc_lookup_dwarf.c against a list of ranges in order: every range is
-- made to end before the next one begins.
use a_mpi_p.Prelude.{ℕ, ◌+◌, ◌≤◌, ◌<◌, List, [], ◌∷◌, ◌++◌, ◌≡◌, refl, sym, ◌∙◌, All, arith}
use a_mpi_p.AddrRanges.{AddrRange, RangeTree, leaf, node}
use a_mpi_p.AddrRanges.Contents.{contents}
use a_mpi_p.AddrRanges.Lookup.{Rise}
use a_mpi_p.Dwarf.{max_address, before, patch_ranges_aux}

pub before-suc : (a : ℕ) → 0 < a → a ≤ max_address → before a + 1 ≡ a
before-suc a h k = omega arith

le_refl : (a : ℕ) → a ≤ a
le_refl a = omega arith

sub_le : (x y a b : ℕ) → x + 1 ≡ a → y + 1 ≡ b → a ≤ b → x ≤ y
sub_le x y a b e d h = omega arith

module _ {ℓ} {A : Type ℓ} where
  -- the address at which the next range begins
  abbrev pub first_low : List (AddrRange A) → ℕ → ℕ
  first_low [] m = m
  first_low (r ∷ xs) m = r.low_addr

  abbrev pub patched : List (AddrRange A) → ℕ → List (AddrRange A)
  patched [] m = []
  patched (r ∷ xs) m = record r { high_addr = before (first_low xs m) } ∷ patched xs m

  first_low-append :
      (xs : List (AddrRange A)) (r : AddrRange A) (ys : List (AddrRange A)) (m : ℕ)
      → first_low (xs ++ r ∷ ys) m ≡ first_low xs (r.low_addr)
  first_low-append [] r ys m = refl
  first_low-append (x ∷ xs) r ys m = refl

  patched-append :
      (xs : List (AddrRange A)) (r : AddrRange A) (ys : List (AddrRange A)) (m : ℕ)
      → patched (xs ++ r ∷ ys) m ≡ patched xs (r.low_addr) ++ patched (r ∷ ys) m
  patched-append [] r ys m = refl
  patched-append (x ∷ xs) r ys m =
      rw (first_low-append xs r ys m) (rw (patched-append xs r ys m) refl)

  -- For every tree and every largest address, the recursion that patches the ranges returns the
  -- lowest address of the first range, or the largest address for no range, and a tree whose
  -- ranges in order are the old ones, each ended one before the next one begins and the last one
  -- before the largest address, in 64 bits.
  pub patch_ranges_aux-patched :
      (t : RangeTree A) (m : ℕ)
      → ((patch_ranges_aux t m).0 ≡ first_low (contents t) m)
        × (contents ((patch_ranges_aux t m).1) ≡ patched (contents t) m)
  unfolding patch_ranges_aux
  patch_ranges_aux-patched leaf m = (refl, refl)
  patch_ranges_aux-patched (node c r a b) m =
      let (pa, qa) = patch_ranges_aux-patched a (r.low_addr) in
      let (pb, qb) = patch_ranges_aux-patched b m in
      (
        pa ∙ sym (first_low-append (contents a) r (contents b) m),
        (rw qa (rw qb (rw pb refl))) ∙ sym (patched-append (contents a) r (contents b) m),
      )

  -- the ranges begin one behind the other, and inside the address space
  abbrev pub Steps : List (AddrRange A) → ℕ → Type 0
  Steps [] m = (0 < m) × (m ≤ max_address)
  Steps (r ∷ xs) m =
      (r.low_addr ≤ first_low xs m) × (0 < r.low_addr) × (r.low_addr ≤ max_address) × Steps xs m

  pub first_low-bounds :
      (xs : List (AddrRange A)) (m : ℕ)
      → Steps xs m
      → (0 < first_low xs m) × (first_low xs m ≤ max_address)
  first_low-bounds [] m h = h
  first_low-bounds (r ∷ xs) m h = (h.1, h.2)

  patched-All :
      (xs : List (AddrRange A)) (m c b : ℕ)
      → c ≤ first_low xs m
      → b ≤ first_low xs m
      → 0 < b
      → Steps xs m
      → All (λ s. (c ≤ s.low_addr) × (before b ≤ s.high_addr)) (patched xs m)
  patched-All [] m c b g h p s = tt
  patched-All (r ∷ xs) m c b g h p (k, l, u, s) =
      let (q, v) = first_low-bounds xs m s in
      let e = before-suc b p (omega arith) in
      let d = before-suc (first_low xs m) q v in
      (
        (g, sub_le (before b) (before (first_low xs m)) b (first_low xs m) e d (omega arith)),
        patched-All xs m c b (omega arith) (omega arith) p s,
      )

  pub patched-Rise : (xs : List (AddrRange A)) (m : ℕ) → Steps xs m → Rise (patched xs m)
  patched-Rise [] m s = tt
  patched-Rise (r ∷ xs) m (k, l, u, s) =
      let (q, v) = first_low-bounds xs m s in
      (
        patched-All xs m (r.low_addr) (first_low xs m) k (le_refl (first_low xs m)) q s,
        patched-Rise xs m s,
      )
