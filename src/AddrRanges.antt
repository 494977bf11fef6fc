-- ===== src/AddrRanges.antt =====
-- The collection of address ranges of pc_lookup_dwarf.c, `struct AddrRangeMap`: a red-black tree
-- with parent pointers. A node in focus is a subtree with the path to the root, which holds what
-- its `parent` pointers lead to.
pub mod Contents
pub mod Balance
pub mod Insert
pub mod Lookup
pub mod Depth
use a_mpi_p.Prelude.{
  ℕ, Bool, true, false, Option, none, some, List, [], ◌∷◌, ◌++◌, leb, ltb, if◌then◌else◌, Run, ok,
  abort, ◌>>=◌,
}

-- `enum AddrRangeMapNodeColor`
pub data Color : Type 0 where
  red : Color
  black : Color

-- the fields of a node that the balancing does not look at
pub record AddrRange {ℓ} (A : Type ℓ) : Type ℓ where
  pub low_addr : ℕ
  pub high_addr : ℕ
  pub info : A

-- `leaf` is NULL; the children are the left one and the right one
pub data RangeTree {ℓ} (A : Type ℓ) : Type ℓ where
  leaf : RangeTree A
  node : Color → AddrRange A → RangeTree A → RangeTree A → RangeTree A

-- which child of its parent a node is
pub data Side : Type 0 where
  left : Side
  right : Side

-- the parent of a node: its color and range, and the sibling of the node
pub data Frame {ℓ} (A : Type ℓ) : Type ℓ where
  frame : Side → Color → AddrRange A → RangeTree A → Frame A

module _ {ℓ} {A : Type ℓ} where
  abbrev pub empty_map : RangeTree A
  empty_map = leaf

  -- the parent with the node and its sibling below it
  abbrev pub under : Frame A → RangeTree A → RangeTree A
  under (frame left c r sibling) t = node c r t sibling
  under (frame right c r sibling) t = node c r sibling t

  -- the whole tree around a node
  unfoldable pub plug : RangeTree A → List (Frame A) → RangeTree A
  plug t [] = t
  plug t (f ∷ path) = plug (under f t) path

  -- currNode->color = AddrRangeMapNodeColor_Black
  abbrev pub blacken : RangeTree A → RangeTree A
  blacken leaf = leaf
  blacken (node c r a b) = node black r a b

  -- a missing node is assumed to be black
  abbrev pub is_red : RangeTree A → Bool
  is_red leaf = false
  is_red (node red r a b) = true
  is_red (node black r a b) = false

  -- the caller has a right child, as the assert wants it
  unfoldable pub left_rotate : RangeTree A → RangeTree A
  left_rotate leaf = leaf
  left_rotate (node c r a leaf) = node c r a leaf
  left_rotate (node c r a (node d s b e)) = node d s (node c r a b) e

  unfoldable pub right_rotate : RangeTree A → RangeTree A
  right_rotate leaf = leaf
  right_rotate (node c r leaf e) = node c r leaf e
  right_rotate (node c r (node d s a b) e) = node d s a (node c r b e)

  -- if currNode is the inner child, its parent is rotated, and currNode is then that parent
  unfoldable pub straighten : (outer : Side) → Frame A → RangeTree A → RangeTree A
  straighten left (frame left c r b) t = under (frame left c r b) t
  straighten left (frame right c r b) t = left_rotate (under (frame right c r b) t)
  straighten right (frame right c r b) t = under (frame right c r b) t
  straighten right (frame left c r b) t = right_rotate (under (frame left c r b) t)

  -- the last rotation: the parent turns black, the grandparent red and goes down
  unfoldable pub rotate_up : Side → AddrRange A → (parent uncle : RangeTree A) → RangeTree A
  rotate_up left g p u = right_rotate (node red g (blacken p) u)
  rotate_up right g p u = left_rotate (node red g u (blacken p))

  -- the while loop over the red parents of the node `t`, and the root that turns black. The source
  -- reads through the parent of a parent that is red, also if that is NULL
  unfoldable pub rebalance : RangeTree A → List (Frame A) → Run (RangeTree A)
  rebalance t [] = ok (blacken t)
  rebalance t (frame s black r b ∷ path) = ok (blacken (plug t (frame s black r b ∷ path)))
  rebalance t (frame s red r b ∷ []) = abort "currNode->parent->parent is NULL"
  rebalance t (frame s red r b ∷ frame side c g u ∷ path) =
      if is_red u
      then rebalance (under (frame side red g (blacken u)) (blacken (under (frame s red r b) t)))
          path
      else ok (blacken (plug (rotate_up side g (straighten side (frame s red r b) t) u) path))

  -- the while loop from the root to the parent of the new node
  unfoldable pub descend : AddrRange A → RangeTree A → List (Frame A) → Run (List (Frame A))
  descend new leaf path = ok path
  descend new (node c r a b) path =
      if leb (new.high_addr) (r.low_addr)
      then descend new a (frame left c r b ∷ path)
      else if leb (r.high_addr) (new.low_addr)
      then descend new b (frame right c r a ∷ path)
      else abort "new address node range overlaps our range"

  -- AddrRangeMap_Add
  unfoldable pub add_range : (low high : ℕ) → A → RangeTree A → Run (RangeTree A)
  add_range low high i t =
      let new : AddrRange A = record { low_addr = low; high_addr = high; info = i } in
      if leb low high
      then (do path ← descend new t []; rebalance (node red new leaf leaf) path)
      else abort "lowAddr <= highAddr"

  -- AddrRangeMap_Find: both ends belong to a range
  unfoldable pub find_range : ℕ → RangeTree A → Option A
  find_range addr leaf = none
  find_range addr (node c r a b) =
      if ltb addr (r.low_addr)
      then find_range addr a
      else if ltb (r.high_addr) addr
      then find_range addr b
      else some (r.info)

  -- AddrRangeMap_Destroy: the ranges in the order in which their nodes are freed
  unfoldable pub destroy : RangeTree A → List (AddrRange A)
  destroy leaf = []
  destroy (node c r a b) = destroy a ++ destroy b ++ (r ∷ [])
