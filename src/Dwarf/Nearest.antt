-- ===== src/Dwarf/Nearest.antt =====
-- What a lookup in the patched map of pc_lookup_dwarf.c finds: the last statement at or below the
-- address.
use mathlib.Core.List.Memᴰ.{Memᴰ, head, tail}
use mathlib.Core.List.Memᴰ
use a_mpi_p.Prelude.{
  ℕ, ◌≤◌, ◌<◌, Option, none, some, List, [], ◌∷◌, ◌≡◌, refl, ap, ◌∙◌, sym, subst, arith, inl, inr,
  leb, leb→le, Bool-cases, false,
}
use a_mpi_p.AddrRanges.{AddrRange, RangeTree, find_range}
use a_mpi_p.AddrRanges.Contents.{contents}
use a_mpi_p.AddrRanges.Lookup.{Covers, IsAnswer, find_range-Answer, Rise}
use a_mpi_p.Dwarf.{max_address, before, patch_ranges}
use a_mpi_p.Dwarf.Patch.{
  before-suc, first_low, patched, Steps, first_low-bounds, patched-Rise, patch_ranges_aux-patched,
}

not_leb : (a b : ℕ) → leb a b ≡ false → b < a
not_leb a b e = ground arith

lt_of_not : (low addr high : ℕ) → addr ≤ high → ¬ ((low ≤ addr) × (addr ≤ high)) → addr < low
lt_of_not low addr high h f = elim (Bool-cases (leb low addr)) [
  | inl e ↦ absurd (f (leb→le low addr e, h))
  | inr e ↦ not_leb low addr e
]

module _ {ℓ} {A : Type ℓ} where
  -- the value of a range that begins at or below the address, and no other begins nearer;
  -- or nothing, if all ranges begin above it
  abbrev pub IsNearest : ℕ → List (AddrRange A) → Option A → Type ℓ
  IsNearest addr xs none = (r : AddrRange A) → Memᴰ r xs → addr < r.low_addr
  IsNearest addr xs (some i) =
      (r : AddrRange A) × Memᴰ r xs
      × (r.low_addr ≤ addr)
      × (r.info ≡ i)
      × ((s : AddrRange A) → Memᴰ s xs → s.low_addr ≤ addr → s.low_addr ≤ r.low_addr)

  first_low-least :
      (xs : List (AddrRange A)) (m : ℕ) (r : AddrRange A)
      → Steps xs m
      → Memᴰ r xs
      → first_low xs m ≤ r.low_addr
  first_low-least [] m r s k = elim k [ ]
  first_low-least (x ∷ xs) m r s (head e) = let q = ap (λ z. z.low_addr) e in omega arith
  first_low-least (x ∷ xs) m r (k, l, u, s) (tail d) =
      let q = first_low-least xs m r s d in omega arith

  -- if no patched range covers the address, all begin above it
  none-above :
      (addr m : ℕ) (xs : List (AddrRange A))
      → Steps xs m
      → addr < m
      → ((r : AddrRange A) → Memᴰ r (patched xs m) → ¬ Covers addr r)
      → addr < first_low xs m
  none-above addr m [] s h f = h
  none-above addr m (x ∷ xs) (k, l, u, s) h f =
      let above = none-above addr m xs s h (λ r d. f r (tail d)) in
      let (q, v) = first_low-bounds xs m s in
      let e = before-suc (first_low xs m) q v in
      lt_of_not (x.low_addr) addr (before (first_low xs m)) (omega arith) (f _ (head refl))

  -- an answer from the patched list is nearest in the list
  some-IsNearest :
      (addr m : ℕ) (xs : List (AddrRange A)) (i : A)
      → Steps xs m
      → IsAnswer addr (patched xs m) (some i)
      → IsNearest addr xs (some i)
  some-IsNearest addr m [] i s (r, d, c, e) = elim d [ ]
  some-IsNearest addr m (x ∷ xs) i (k, l, u, s) (r, head p, c, e) = (
    x,
    head refl,
    (let low = ap (λ z. z.low_addr) p in omega arith),
    sym (ap (λ z. z.info) p) ∙ e,
    (λ z w h. elim (Memᴰ.cases_cons w) [
      | inl z_is ↦ (let low = ap (λ y. y.low_addr) z_is in omega arith)
      | inr later ↦
          let least = first_low-least xs m z s later in
          let high = ap (λ y. y.high_addr) p in
          let (q, v) = first_low-bounds xs m s in
          let last = before-suc (first_low xs m) q v in absurd (omega arith)
    ]),
  )
  some-IsNearest addr m (x ∷ xs) i (k, l, u, s) (r, tail d, c, e) =
      let (q, g, low, same, near) = some-IsNearest addr m xs i s (r, d, c, e) in
      let least = first_low-least xs m q s g in
      (
        q,
        tail g,
        low,
        same,
        (λ z w h. elim (Memᴰ.cases_cons w) [
          | inl z_is ↦ (let first = ap (λ y. y.low_addr) z_is in omega arith)
          | inr later ↦ near z later h
        ]),
      )

  pub answer-IsNearest :
      (addr m : ℕ) (xs : List (AddrRange A)) (o : Option A)
      → Steps xs m
      → addr < m
      → IsAnswer addr (patched xs m) o
      → IsNearest addr xs o
  answer-IsNearest addr m xs none s h f = λ r d.
      let above = none-above addr m xs s h f in
      let least = first_low-least xs m r s d in omega arith
  answer-IsNearest addr m xs (some i) s h f = some-IsNearest addr m xs i s f

  pub find_range-Nearest :
      (addr : ℕ) (t : RangeTree A)
      → Steps (contents t) max_address
      → addr < max_address
      → IsNearest addr (contents t) (find_range addr (patch_ranges t))
  unfolding patch_ranges
  find_range-Nearest addr t s h =
      let e = (patch_ranges_aux-patched t max_address).1 in
      answer-IsNearest addr max_address (contents t) (find_range addr (patch_ranges t)) s h (
        subst (λ xs. IsAnswer addr xs (find_range addr (patch_ranges t))) e
          (find_range-Answer addr (patch_ranges t)
            (subst Rise (sym e) (patched-Rise (contents t) max_address s))))
