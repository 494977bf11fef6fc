-- ===== src/AddrRanges/Balance.antt =====
-- The red-black invariant of the trees of pc_lookup_dwarf.c, and that the loop that balances a tree
-- behind an insertion ends with a tree that has it and with the same ranges.
use a_mpi_p.Prelude.{
  ℕ, suc, Bool, true, false, List, [], ◌∷◌, ◌≡◌, refl, ap, ◌∙◌, sym, Returns, Bool-cases, inl, inr,
}
use a_mpi_p.AddrRanges.{
  Color, red, black, AddrRange, RangeTree, leaf, node, Side, left, right, Frame, frame, under, plug,
  blacken, is_red, left_rotate, right_rotate, straighten, rotate_up, rebalance,
}
use a_mpi_p.AddrRanges.Contents.{contents, around, contents-plug, contents-blacken, contents-turned}

module _ {ℓ} {A : Type ℓ} where
  -- `n` black nodes on every way down to a leaf, and no red child of a red node
  abbrev pub HasHeight : ℕ → RangeTree A → Type 0
  HasHeight n leaf = n ≡ 0
  HasHeight n (node red r a b) =
      HasHeight n a × HasHeight n b × (is_red a ≡ false) × (is_red b ≡ false)
  HasHeight n (node black r a b) = (m : ℕ) × (n ≡ suc m) × HasHeight m a × HasHeight m b

  abbrev pub IsRedBlack : RangeTree A → Type 0
  IsRedBlack t = (n : ℕ) × HasHeight n t × (is_red t ≡ false)

  abbrev pub top_black : List (Frame A) → Bool
  top_black [] = false
  top_black (frame s red r b ∷ path) = false
  top_black (frame s black r b ∷ path) = true

  -- a path around a subtree of that height; the root is not red
  abbrev pub Fits : ℕ → List (Frame A) → Type 0
  Fits n [] = Unit
  Fits n (frame s black r b ∷ path) = HasHeight n b × Fits (suc n) path
  Fits n (frame s red r b ∷ path) =
      HasHeight n b × (is_red b ≡ false) × (top_black path ≡ true) × Fits n path

  under-black :
      (n : ℕ) (s : Side) (r : AddrRange A) (b t : RangeTree A)
      → HasHeight n t
      → HasHeight n b
      → HasHeight (suc n) (under (frame s black r b) t)
        × (is_red (under (frame s black r b) t) ≡ false)
  under-black n left r b t p q = ((n, refl, p, q), refl)
  under-black n right r b t p q = ((n, refl, q, p), refl)

  under-red :
      (n : ℕ) (s : Side) (r : AddrRange A) (b t : RangeTree A)
      → HasHeight n t
      → HasHeight n b
      → is_red t ≡ false
      → is_red b ≡ false
      → HasHeight n (under (frame s red r b) t) × (is_red (under (frame s red r b) t) ≡ true)
  under-red n left r b t p q bt bb = ((p, q, bt, bb), refl)
  under-red n right r b t p q bt bb = ((q, p, bb, bt), refl)

  blacken-under :
      (s : Side) (c : Color) (r : AddrRange A) (b t : RangeTree A)
      → blacken (under (frame s c r b) t) ≡ under (frame s black r b) t
  blacken-under left c r b t = refl
  blacken-under right c r b t = refl

  plug-HasHeight :
      (n : ℕ) (t : RangeTree A) (path : List (Frame A))
      → HasHeight n t
      → is_red t ≡ false
      → Fits n path
      → (m : ℕ) × HasHeight m (plug t path)
  unfolding plug
  plug-HasHeight n t [] p bt f = (n, p)
  plug-HasHeight n t (frame s black r b ∷ path) p bt f =
      let (q, bq) = under-black n s r b t p f.0 in plug-HasHeight (suc n) _ path q bq f.1
  plug-HasHeight n t (frame s red r b ∷ []) p bt f = absurd (cc)
  plug-HasHeight n t (frame s red r b ∷ frame side red g u ∷ path) p bt f = absurd (cc)
  plug-HasHeight n t (frame s red r b ∷ frame side black g u ∷ path) p bt (hb, bb, top, (hu, f)) =
      let q = under-red n s r b t p hb bt bb in
      let (q2, bq) = under-black n side g u _ q.0 hu in plug-HasHeight (suc n) _ path q2 bq f

  blacken-IsRedBlack : (n : ℕ) (t : RangeTree A) → HasHeight n t → IsRedBlack (blacken t)
  blacken-IsRedBlack n leaf p = (n, p, refl)
  blacken-IsRedBlack n (node red r a b) p = (suc n, (n, refl, p.0, p.1), refl)
  blacken-IsRedBlack n (node black r a b) p = (n, p, refl)

  -- the node, its parent and its grandparent end as a black node with two red children
  rotate-HasHeight :
      (n : ℕ) (s side : Side) (r g q : AddrRange A) (b u x y : RangeTree A)
      → HasHeight n (node red q x y)
      → HasHeight n b × (is_red b ≡ false)
      → HasHeight n u × (is_red u ≡ false)
      → let t = rotate_up side g (straighten side (frame s red r b) (node red q x y)) u in
        HasHeight (suc n) t × (is_red t ≡ false)
  unfolding rotate_up straighten left_rotate right_rotate
  rotate-HasHeight n left left r g q b u x y p hb hu =
      ((n, refl, p, (hb.0, hu.0, hb.1, hu.1)), refl)
  rotate-HasHeight n right left r g q b u x y p hb hu =
      ((n, refl, (hb.0, p.0, hb.1, p.2), (p.1, hu.0, p.3, hu.1)), refl)
  rotate-HasHeight n left right r g q b u x y p hb hu =
      ((n, refl, (hu.0, p.0, hu.1, p.2), (p.1, hb.0, p.3, hb.1)), refl)
  rotate-HasHeight n right right r g q b u x y p hb hu =
      ((n, refl, (hu.0, hb.0, hu.1, hb.1), p), refl)

  abbrev pub Balanced : List (AddrRange A) → RangeTree A → Type ℓ
  Balanced xs t = (contents t ≡ xs) × IsRedBlack t

  plug-Balanced :
      (n : ℕ) (t : RangeTree A) (path : List (Frame A))
      → HasHeight n t
      → is_red t ≡ false
      → Fits n path
      → Balanced (around (contents t) path) (blacken (plug t path))
  plug-Balanced n t path p bt f =
      let (m, q) = plug-HasHeight n t path p bt f in
      (contents-blacken (plug t path) ∙ contents-plug t path, blacken-IsRedBlack m _ q)

  around-under :
      (f : Frame A) (path : List (Frame A)) (t : RangeTree A)
      → around (contents t) (f ∷ path) ≡ around (contents (under f t)) path
  unfolding around
  around-under (frame left c r b) path t = refl
  around-under (frame right c r b) path t = refl

  -- colors do not matter
  around-turned :
      (s side : Side) (r g : AddrRange A) (b u t : RangeTree A) (path : List (Frame A))
      → around (contents t) (frame s red r b ∷ frame side black g u ∷ path)
        ≡ around (contents (under (frame side red g u) (under (frame s red r b) t))) path
  unfolding around
  around-turned left left r g b u t path = refl
  around-turned left right r g b u t path = refl
  around-turned right left r g b u t path = refl
  around-turned right right r g b u t path = refl

  -- the red uncle turns black, too
  recolored-HasHeight :
      (n : ℕ) (s side : Side) (r g : AddrRange A) (b u t : RangeTree A)
      → HasHeight n t
      → HasHeight n b
      → HasHeight n u
      → is_red u ≡ true
      → let v = under (frame side red g (blacken u)) (blacken (under (frame s red r b) t)) in
        HasHeight (suc n) v
        × (is_red v ≡ true)
        × (contents v ≡ contents (under (frame side red g u) (under (frame s red r b) t)))
  recolored-HasHeight n s side r g b leaf t p hb hu ru = absurd (cc)
  recolored-HasHeight n s side r g b (node black h v w) t p hb hu ru = absurd (cc)
  recolored-HasHeight n left left r g b (node red h v w) t p hb hu ru =
      (((n, refl, p, hb), (n, refl, hu.0, hu.1), refl, refl), refl, refl)
  recolored-HasHeight n right left r g b (node red h v w) t p hb hu ru =
      (((n, refl, hb, p), (n, refl, hu.0, hu.1), refl, refl), refl, refl)
  recolored-HasHeight n left right r g b (node red h v w) t p hb hu ru =
      (((n, refl, hu.0, hu.1), (n, refl, p, hb), refl, refl), refl, refl)
  recolored-HasHeight n right right r g b (node red h v w) t p hb hu ru =
      (((n, refl, hu.0, hu.1), (n, refl, hb, p), refl, refl), refl, refl)

  pub rebalance-Balanced :
      (n : ℕ) (t : RangeTree A) (path : List (Frame A))
      → HasHeight n t
      → is_red t ≡ true
      → Fits n path
      → Returns (rebalance t path) (Balanced (around (contents t) path))
  unfolding rebalance plug around
  rebalance-Balanced n leaf path p rt f = absurd (cc)
  rebalance-Balanced n (node black q x y) path p rt f = absurd (cc)
  rebalance-Balanced n (node red q x y) [] p rt f =
      (_, refl, (refl, blacken-IsRedBlack n (node red q x y) p))
  rebalance-Balanced n (node red q x y) (frame s black r b ∷ path) p rt f =
      let (h, bt) = under-black n s r b (node red q x y) p f.0 in
      let (e, rb) = plug-Balanced (suc n) _ path h bt f.1 in
      (_, refl, (e ∙ sym (around-under (frame s black r b) path _), rb))
  rebalance-Balanced n (node red q x y) (frame s red r b ∷ []) p rt f = absurd (cc)
  rebalance-Balanced n (node red q x y) (frame s red r b ∷ frame side red g u ∷ path) p rt f =
      absurd (cc)
  rebalance-Balanced n (node red q x y) (frame s red r b ∷ frame side black g u ∷ path) p rt
        (hb, bb, top, (hu, f)) =
      elim (Bool-cases (is_red u)) [
        | inl e ↦
            let (h, rv, same) = recolored-HasHeight n s side r g b u (node red q x y) p hb hu e in
            let (v, run, (e2, rb)) = rebalance-Balanced (suc n) _ path h rv f in
            (
              v,
              (rw e run),
              (e2 ∙ ap (λ xs. around xs path) same ∙ sym (around-turned s side r g b u _ path), rb),
            )
        | inr e ↦
            let (h, bt) = rotate-HasHeight n s side r g q b u x y p (hb, bb) (hu, e) in
            let (e2, rb) = plug-Balanced (suc n) _ path h bt f in
            (
              _,
              (rw e),
              (
                e2
                    ∙ ap (λ xs. around xs path) (contents-turned s side r g b u _)
                    ∙ sym (around-turned s side r g b u _ path),
                rb,
              ),
            )
      ]
