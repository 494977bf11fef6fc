-- ===== src/AddrRanges/Insert.antt =====
-- AddrRangeMap_Add of pc_lookup_dwarf.c: where the new range goes, and when the call aborts.
use Prim.Native.String.{String}
use mathlib.Core.List.{append_assoc}
use mathlib.Core.List.Memᴰ.{Memᴰ, head, tail}
use mathlib.Core.List.Memᴰ
use a_mpi_p.Prelude.{
  ℕ, ◌≤◌, ◌<◌, true, false, List, [], ◌∷◌, ◌++◌, leb, leb→le, ◌≡◌, refl, ap, ◌∙◌, sym, All, All-imp,
  All-append, All-split, Bool-cases, inl, inr, ◌⊎◌, arith, ok, abort, Returns, subst,
}
use a_mpi_p.AddrRanges.{
  Color, red, black, AddrRange, RangeTree, leaf, node, left, right, Frame, frame, descend,
  add_range, is_red,
}
use a_mpi_p.AddrRanges.Contents.{contents, around}
use a_mpi_p.AddrRanges.Balance.{HasHeight, IsRedBlack, Fits, rebalance-Balanced, top_black}

not_leb2 : (a b c d : ℕ) → leb b c ≡ false → leb d a ≡ false → (a < d) × (c < b)
not_leb2 a b c d e f = ground arith

le→leb : (a b : ℕ) → a ≤ b → leb a b ≡ true
le→leb a b h = ground arith

module _ {ℓ} {A : Type ℓ} where
  -- `r` lies below `s`; the ranges may touch
  abbrev pub Below : AddrRange A → AddrRange A → Type 0
  Below r s = r.high_addr ≤ s.low_addr

  abbrev pub IsOrdered : List (AddrRange A) → Type 0
  IsOrdered [] = Unit
  IsOrdered (r ∷ xs) = (r.low_addr ≤ r.high_addr) × All (Below r) xs × IsOrdered xs

  -- the two ranges have an inner address in common
  abbrev pub Overlaps : AddrRange A → AddrRange A → Type 0
  Overlaps r s = (r.low_addr < s.high_addr) × (s.low_addr < r.high_addr)

  pub IsOrdered-split :
      (xs : List (AddrRange A)) (r : AddrRange A) (ys : List (AddrRange A))
      → IsOrdered (xs ++ r ∷ ys)
      → IsOrdered xs × All (λ s. Below s r) xs × IsOrdered (r ∷ ys)
  IsOrdered-split [] r ys h = (tt, tt, h)
  IsOrdered-split (x ∷ xs) r ys (w, a, h) =
      let (p, q) = All-split _ xs (r ∷ ys) a in
      let (u, v, z) = IsOrdered-split xs r ys h in ((w, p, u), (q.0, v), z)

  pub IsOrdered-join :
      (xs : List (AddrRange A)) (r : AddrRange A) (ys : List (AddrRange A))
      → IsOrdered (xs ++ ys)
      → r.low_addr ≤ r.high_addr
      → All (λ s. Below s r) xs
      → All (Below r) ys
      → IsOrdered (xs ++ r ∷ ys)
  IsOrdered-join [] r ys h w below above = (w, above, h)
  IsOrdered-join (x ∷ xs) r ys (v, a, h) w below above =
      let (p, q) = All-split (Below x) xs ys a in
      (v, All-append (Below x) xs (r ∷ ys) p (below.0, q), IsOrdered-join xs r ys h w below.1 above)

  -- the new range is put between the ranges below it and those above it
  abbrev pub Inserted : AddrRange A → (old new : List (AddrRange A)) → Type ℓ
  Inserted r old new =
      (xs ys : List (AddrRange A)) × (old ≡ xs ++ ys)
      × (new ≡ xs ++ r ∷ ys)
      × All (λ s. Below s r) xs
      × All (Below r) ys

  Inserted-left :
      (r : AddrRange A) (old new zs : List (AddrRange A))
      → Inserted r old new
      → All (Below r) zs
      → Inserted r (old ++ zs) (new ++ zs)
  Inserted-left r old new zs (xs, ys, e, d, below, above) h = (
    xs,
    ys ++ zs,
    ap (λ l. l ++ zs) e ∙ append_assoc xs ys zs,
    ap (λ l. l ++ zs) d ∙ append_assoc xs (r ∷ ys) zs,
    below,
    All-append (Below r) ys zs above h,
  )

  Inserted-right :
      (r : AddrRange A) (old new zs : List (AddrRange A))
      → Inserted r old new
      → All (λ s. Below s r) zs
      → Inserted r (zs ++ old) (zs ++ new)
  Inserted-right r old new zs (xs, ys, e, d, below, above) h = (
    zs ++ xs,
    ys,
    ap (λ l. zs ++ l) e ∙ sym (append_assoc zs xs ys),
    ap (λ l. zs ++ l) d ∙ sym (append_assoc zs xs (r ∷ ys)),
    All-append (λ s. Below s r) zs xs h below,
    above,
  )

  -- what the children of a node need for the descent
  children-Fit :
      (n : ℕ) (c : Color) (s : AddrRange A) (a b : RangeTree A) (path : List (Frame A))
      → HasHeight n (node c s a b)
      → Fits n path
      → (is_red (node c s a b) ≡ false) ⊎ (top_black path ≡ true)
      → (m : ℕ) × (HasHeight m a
          × Fits m (frame left c s b ∷ path)
          × ((is_red a ≡ false) ⊎ (top_black (frame left c s b ∷ path) ≡ true)))
        × (HasHeight m b
            × Fits m (frame right c s a ∷ path)
            × ((is_red b ≡ false) ⊎ (top_black (frame right c s a ∷ path) ≡ true)))
  children-Fit n red s a b path h f (inl d) = absurd (cc)
  children-Fit n red s a b path (ha, hb, ra, rb) f (inr d) =
      (n, (ha, (hb, rb, d, f), inl ra), (hb, (ha, ra, d, f), inl rb))
  children-Fit n black s a b path (m, e, ha, hb) f d =
      let g = subst (λ k. Fits k path) e f in (m, (ha, (hb, g), inr refl), (hb, (ha, g), inr refl))

  -- the descent from `t` either meets a range that overlaps or ends at the place
  abbrev Descended : AddrRange A → RangeTree A → List (Frame A) → Type ℓ
  Descended r t path =
      ((m : String) × (descend r t path ≡ abort m)
        × (s : AddrRange A) × Memᴰ s (contents t)
        × Overlaps r s)
      ⊎ ((place : List (Frame A)) × (descend r t path ≡ ok place)
          × Fits 0 place
          × (zs : List (AddrRange A)) × Inserted r (contents t) zs
          × (around (r ∷ []) place ≡ around zs path))

  Descended-left :
      (r s : AddrRange A) (c : Color) (a b : RangeTree A) (path : List (Frame A))
      → leb (r.high_addr) (s.low_addr) ≡ true
      → All (Below r) (s ∷ contents b)
      → Descended r a (frame left c s b ∷ path)
      → Descended r (node c s a b) path
  unfolding descend around
  Descended-left r s c a b path e above (inl (m, run, q, k, o)) =
      inl (m, (rw e run), q, Memᴰ.append_left (s ∷ contents b) k, o)
  Descended-left r s c a b path e above (inr (place, run, f, zs, i, k)) = inr (
    place,
    (rw e run),
    f,
    zs ++ s ∷ contents b,
    Inserted-left r (contents a) zs (s ∷ contents b) i above,
    k,
  )

  Descended-right :
      (r s : AddrRange A) (c : Color) (a b : RangeTree A) (path : List (Frame A))
      → leb (r.high_addr) (s.low_addr) ≡ false
      → leb (s.high_addr) (r.low_addr) ≡ true
      → All (λ q. Below q r) (contents a)
      → Below s r
      → Descended r b (frame right c s a ∷ path)
      → Descended r (node c s a b) path
  unfolding descend around
  Descended-right r s c a b path e d below h (inl (m, run, q, k, o)) =
      inl (m, (rw e (rw d run)), q, Memᴰ.append_right (contents a) (tail k), o)
  Descended-right r s c a b path e d below h (inr (place, run, f, zs, i, k)) = inr (
    place,
    (rw e (rw d run)),
    f,
    contents a ++ s ∷ zs,
    Inserted-right r (s ∷ contents b) (s ∷ zs) (contents a)
        (Inserted-right r (contents b) zs (s ∷ []) i (h, tt)) below,
    k,
  )

  descended :
      (r : AddrRange A) (n : ℕ) (t : RangeTree A) (path : List (Frame A))
      → r.low_addr ≤ r.high_addr
      → HasHeight n t
      → IsOrdered (contents t)
      → Fits n path
      → (is_red t ≡ false) ⊎ (top_black path ≡ true)
      → Descended r t path
  unfolding descend around
  descended r n leaf path w h o f c =
      inr (path, refl, subst (λ k. Fits k path) h f, r ∷ [], ([], [], refl, refl, tt, tt), refl)
  descended r n (node c s a b) path w h o f d =
      let (oa, below, (width, above, ob)) = IsOrdered-split (contents a) s (contents b) o in
      let (m, (ha, fa, ca), (hb, fb, cb)) = children-Fit n c s a b path h f d in
      elim (Bool-cases (leb (r.high_addr) (s.low_addr))) [
        | inl e ↦
            let low = leb→le (r.high_addr) (s.low_addr) e in
            Descended-left r s c a b path e
              (low, All-imp (Below s) (Below r) (λ q k. omega arith) (contents b) above)
              (descended r m a (frame left c s b ∷ path) w ha oa fa ca)
        | inr e ↦ elim (Bool-cases (leb (s.high_addr) (r.low_addr))) [
          | inl d ↦
              let high = leb→le (s.high_addr) (r.low_addr) d in
              Descended-right r s c a b path e d
                (All-imp (λ q. Below q s) (λ q. Below q r) (λ q k. omega arith) (contents a) below)
                high (descended r m b (frame right c s a ∷ path) w hb ob fb cb)
          | inr d ↦ inl (
            "new address node range overlaps our range",
            (rw e (rw d refl)),
            s,
            Memᴰ.append_right (contents a) (head refl),
            not_leb2 (r.low_addr) (r.high_addr) (s.low_addr) (s.high_addr) e d,
          )
        ]
      ]

  abbrev pub IsValid : RangeTree A → Type 0
  IsValid t = IsRedBlack t × IsOrdered (contents t)

  -- In a red-black tree whose ranges lie one above the other, where two may touch, `add_range` of
  -- a range whose ends are in order either aborts, and then a range of the tree has inner
  -- addresses in common with it, or returns a red-black tree whose ranges, in order, are the old
  -- ones with the new one put between those below it and those above it.
  pub add_range-Inserted :
      (low high : ℕ) (i : A) (t : RangeTree A)
      → IsValid t
      → low ≤ high
      → let r : AddrRange A = record { low_addr = low; high_addr = high; info = i } in
        ((m : String) × (add_range low high i t ≡ abort m)
          × (s : AddrRange A) × Memᴰ s (contents t)
          × Overlaps r s)
        ⊎ Returns (add_range low high i t) (λ u. IsValid u × Inserted r (contents t) (contents u))
  unfolding add_range around
  add_range-Inserted low high i t ((n, h, b), o) w =
      let r : AddrRange A = record { low_addr = low; high_addr = high; info = i } in
      elim (descended r n t [] w h o tt (inl b)) [
        | inl (m, run, s, k, ov) ↦ inl (m, (rw (le→leb low high w) (rw run refl)), s, k, ov)
        | inr (place, run, f, zs, (xs, ys, eo, en, below, above), k) ↦
            let (u, built, (e, rb)) =
              rebalance-Balanced 0 (node red r leaf leaf) place (refl, refl, refl, refl) refl f in
            inr (
              u,
              (rw (le→leb low high w) (rw run built)),
              (
                (
                  rb,
                  subst IsOrdered (sym (e ∙ k ∙ en))
                      (IsOrdered-join xs r ys (subst IsOrdered eo o) w below above),
                ),
                (xs, ys, eo, e ∙ k ∙ en, below, above),
              ),
            )
      ]
