-- ===== src/AddrRanges/Lookup.antt =====
-- The search for an address, AddrRangeMap_Find of pc_lookup_dwarf.c, in trees whose ranges are in
-- order.
use mathlib.Core.List.Memᴰ.{Memᴰ, head}
use mathlib.Core.List.Memᴰ
use a_mpi_p.Prelude.{
  All-at, ℕ, ◌≤◌, false, Option, none, some, List, [], ◌∷◌, ◌++◌, ltb, ltb→lt, ◌≡◌, refl, All,
  All-imp, All-split, Bool-cases, inl, inr, arith,
}
use a_mpi_p.AddrRanges.{AddrRange, RangeTree, leaf, node, find_range}
use a_mpi_p.AddrRanges.Contents.{contents}

covered :
    (low high addr : ℕ)
    → ltb addr low ≡ false
    → ltb high addr ≡ false
    → (low ≤ addr) × (addr ≤ high)
covered low high addr e d = ground arith

module _ {ℓ} {A : Type ℓ} where
  -- the low and the high ends rise; a range may be empty, and two may touch
  abbrev pub Rise : List (AddrRange A) → Type 0
  Rise [] = Unit
  Rise (r ∷ xs) = All (λ s. (r.low_addr ≤ s.low_addr) × (r.high_addr ≤ s.high_addr)) xs × Rise xs

  pub Rise-split :
      (xs : List (AddrRange A)) (r : AddrRange A) (ys : List (AddrRange A))
      → Rise (xs ++ r ∷ ys)
      → Rise xs
        × All (λ s. (s.low_addr ≤ r.low_addr) × (s.high_addr ≤ r.high_addr)) xs
        × All (λ s. (r.low_addr ≤ s.low_addr) × (r.high_addr ≤ s.high_addr)) ys
        × Rise ys
  Rise-split [] r ys h = (tt, tt, h.0, h.1)
  Rise-split (x ∷ xs) r ys (a, h) =
      let (p, q) = All-split _ xs (r ∷ ys) a in
      let (u, v, w, z) = Rise-split xs r ys h in ((p, u), (q.0, v), w, z)

  abbrev pub Covers : ℕ → AddrRange A → Type 0
  Covers addr r = (r.low_addr ≤ addr) × (addr ≤ r.high_addr)

  -- what a search should give: the value of a range that covers the address, or nothing
  -- if there is none
  abbrev pub IsAnswer : ℕ → List (AddrRange A) → Option A → Type ℓ
  IsAnswer addr xs none = (r : AddrRange A) → Memᴰ r xs → ¬ Covers addr r
  IsAnswer addr xs (some i) = (r : AddrRange A) × Memᴰ r xs × Covers addr r × (r.info ≡ i)

  IsAnswer-left :
      (addr : ℕ) (xs ys : List (AddrRange A)) (o : Option A)
      → All (λ r. ¬ Covers addr r) ys
      → IsAnswer addr xs o
      → IsAnswer addr (xs ++ ys) o
  IsAnswer-left addr xs ys none n h = λ r m. elim (Memᴰ.append_cases xs m) [
    | inl k ↦ h r k
    | inr k ↦ All-at (λ r. ¬ Covers addr r) ys n k
  ]
  IsAnswer-left addr xs ys (some i) n (r, m, k, e) = (r, Memᴰ.append_left ys m, k, e)

  IsAnswer-right :
      (addr : ℕ) (xs ys : List (AddrRange A)) (o : Option A)
      → All (λ r. ¬ Covers addr r) xs
      → IsAnswer addr ys o
      → IsAnswer addr (xs ++ ys) o
  IsAnswer-right addr xs ys none n h = λ r m. elim (Memᴰ.append_cases xs m) [
    | inl k ↦ All-at (λ r. ¬ Covers addr r) xs n k
    | inr k ↦ h r k
  ]
  IsAnswer-right addr xs ys (some i) n (r, m, k, e) = (r, Memᴰ.append_right xs m, k, e)

  IsAnswer-tail :
      (addr : ℕ) (r : AddrRange A) (ys : List (AddrRange A)) (o : Option A)
      → ¬ Covers addr r
      → IsAnswer addr ys o
      → IsAnswer addr (r ∷ ys) o
  IsAnswer-tail addr r ys o n h = IsAnswer-right addr (r ∷ []) ys o (n, tt) h

  -- If the low ends and the high ends of the ranges of a tree rise in the order of the tree,
  -- `find_range` gives the value of a range of the tree that covers the address with its ends, or
  -- nothing, and then no range of the tree covers it.
  pub find_range-Answer :
      (addr : ℕ) (t : RangeTree A)
      → Rise (contents t)
      → IsAnswer addr (contents t) (find_range addr t)
  unfolding find_range
  find_range-Answer addr leaf h = λ r m. absurd (Memᴰ.not-nil m)
  find_range-Answer addr (node c r a b) h =
      let (ra, below, above, rb) = Rise-split (contents a) r (contents b) h in
      elim (Bool-cases (ltb addr (r.low_addr))) [
        | inl e ↦
            let lower = ltb→lt addr (r.low_addr) e in
            rw e (
              IsAnswer-left addr (contents a) (r ∷ contents b) (find_range addr a)
                ((λ k. omega arith), All-imp _ _ (λ s q k. omega arith) (contents b) above)
                (find_range-Answer addr a ra))
        | inr e ↦ elim (Bool-cases (ltb (r.high_addr) addr)) [
          | inl d ↦
              let higher = ltb→lt (r.high_addr) addr d in
              rw e (
                rw d (
                  IsAnswer-right addr (contents a) (r ∷ contents b) (find_range addr b)
                    (All-imp _ _ (λ s q k. omega arith) (contents a) below)
                    (IsAnswer-tail addr r (contents b) (find_range addr b) (λ k. omega arith)
                      (find_range-Answer addr b rb))))
          | inr d ↦ rw e (
              rw d (
                r,
                Memᴰ.append_right (contents a) (head refl),
                covered (r.low_addr) (r.high_addr) addr e d,
                refl,
              ))
        ]
      ]
