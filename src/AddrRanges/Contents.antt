-- ===== src/AddrRanges/Contents.antt =====
-- The ranges of a tree in the order of their addresses, and what keeps that order. This is the view
-- in which the colors and the shape of the tree of pc_lookup_dwarf.c are forgotten.
use mathlib.Core.List.{append_assoc, Permᴰ}
use mathlib.Core.List.Permᴰ
use a_mpi_p.Prelude.{List, [], ◌∷◌, ◌++◌, ◌≡◌, refl, ap, ◌∙◌, sym}
use a_mpi_p.AddrRanges.{
  red, AddrRange, RangeTree, leaf, node, Side, left, right, Frame, frame, under, plug, blacken,
  left_rotate, right_rotate, straighten, rotate_up, destroy,
}

module _ {ℓ} {A : Type ℓ} where
  abbrev pub contents : RangeTree A → List (AddrRange A)
  contents leaf = []
  contents (node c r a b) = contents a ++ r ∷ contents b

  -- the ranges on the two sides of a path
  unfoldable pub around : List (AddrRange A) → List (Frame A) → List (AddrRange A)
  around xs [] = xs
  around xs (frame left c r b ∷ path) = around (xs ++ r ∷ contents b) path
  around xs (frame right c r a ∷ path) = around (contents a ++ r ∷ xs) path

  pub contents-plug :
      (t : RangeTree A) (path : List (Frame A)) → contents (plug t path) ≡ around (contents t) path
  unfolding plug around
  contents-plug t [] = refl
  contents-plug t (frame left c r b ∷ path) = contents-plug (node c r t b) path
  contents-plug t (frame right c r a ∷ path) = contents-plug (node c r a t) path

  pub contents-blacken : (t : RangeTree A) → contents (blacken t) ≡ contents t
  contents-blacken leaf = refl
  contents-blacken (node c r a b) = refl

  pub contents-left_rotate : (t : RangeTree A) → contents (left_rotate t) ≡ contents t
  unfolding left_rotate
  contents-left_rotate leaf = refl
  contents-left_rotate (node c r a leaf) = refl
  contents-left_rotate (node c r a (node d s b e)) = append_assoc (contents a) _ _

  pub contents-right_rotate : (t : RangeTree A) → contents (right_rotate t) ≡ contents t
  unfolding right_rotate
  contents-right_rotate leaf = refl
  contents-right_rotate (node c r leaf e) = refl
  contents-right_rotate (node c r (node d s a b) e) = sym (append_assoc (contents a) _ _)

  pub contents-straighten :
      (outer : Side) (f : Frame A) (t : RangeTree A)
      → contents (straighten outer f t) ≡ contents (under f t)
  unfolding straighten
  contents-straighten left (frame left c r b) t = refl
  contents-straighten left (frame right c r b) t = contents-left_rotate (node c r b t)
  contents-straighten right (frame right c r b) t = refl
  contents-straighten right (frame left c r b) t = contents-right_rotate (node c r t b)

  pub contents-rotate_up :
      (side : Side) (g : AddrRange A) (p u : RangeTree A)
      → contents (rotate_up side g p u) ≡ contents (under (frame side red g u) p)
  unfolding rotate_up
  contents-rotate_up left g p u =
      contents-right_rotate (node red g (blacken p) u)
      ∙ ap (λ xs. xs ++ g ∷ contents u) (contents-blacken p)
  contents-rotate_up right g p u =
      contents-left_rotate (node red g u (blacken p))
      ∙ ap (λ xs. contents u ++ g ∷ xs) (contents-blacken p)

  -- the part of the tree that a step of the loop handles keeps its ranges
  pub around-cong :
      (f : Frame A) (path : List (Frame A)) (s t : RangeTree A)
      → contents s ≡ contents t
      → around (contents (under f s)) path ≡ around (contents (under f t)) path
  around-cong (frame left c r b) path s t e = ap (λ xs. around (xs ++ r ∷ contents b) path) e
  around-cong (frame right c r a) path s t e = ap (λ xs. around (contents a ++ r ∷ xs) path) e

  pub contents-turned :
      (s side : Side) (r g : AddrRange A) (b u t : RangeTree A)
      → contents (rotate_up side g (straighten side (frame s red r b) t) u)
        ≡ contents (under (frame side red g u) (under (frame s red r b) t))
  contents-turned s left r g b u t =
      contents-rotate_up left g _ u
      ∙ ap (λ xs. xs ++ g ∷ contents u) (contents-straighten left (frame s red r b) t)
  contents-turned s right r g b u t =
      contents-rotate_up right g _ u
      ∙ ap (λ xs. contents u ++ g ∷ xs) (contents-straighten right (frame s red r b) t)

  -- the ranges whose nodes are freed are just those of the tree, each once
  pub destroy-Permuted : (t : RangeTree A) → Permᴰ (destroy t) (contents t)
  unfolding destroy
  destroy-Permuted leaf = Permᴰ.nil
  destroy-Permuted (node c r a b) =
      Permᴰ.trans (Permᴰ.append_left (destroy a ++ destroy b) (Permᴰ.refl (r ∷ []))) (
        Permᴰ.trans (Permᴰ.append_comm (destroy a ++ destroy b) (r ∷ [])) (
          Permᴰ.trans
            (Permᴰ.cons refl (
              Permᴰ.trans (Permᴰ.append_right (destroy b) (destroy-Permuted a))
                (Permᴰ.append_left (contents a) (destroy-Permuted b))))
            (Permᴰ.symm (Permᴰ.middle r (contents a) (contents b)))))
