-- ===== src/Dwarf/Functions.antt =====
-- The loop over the children of a compilation unit in pc_lookup_dwarf.c: which functions it adds to
-- the map of functions.
use mathlib.Core.List.{Permᴰ}
use mathlib.Core.List.Permᴰ
use a_mpi_p.Prelude.{
  ℕ, ◌≤◌, true, Option, none, some, List, [], ◌∷◌, ◌++◌, ◌≡◌, refl, ◌∙◌, sym, subst, All, All-at,
  inl, inr, Returns, Option-cases, is_some,
}
use a_mpi_p.Callsites.{Text}
use a_mpi_p.AddrRanges.{AddrRange, RangeTree}
use a_mpi_p.AddrRanges.Contents.{contents}
use a_mpi_p.AddrRanges.Insert.{IsValid, Overlaps, add_range-Inserted}
use a_mpi_p.Dwarf.{
  DwarfState, DieTag, subprogram, entry_point, other_tag, ChildDie, function_add,
  handle_function_die, handle_tag, handle_children, not_null,
}

abbrev pub function_range : Text → ℕ → ℕ → AddrRange Text
function_range name low high = record { low_addr = low; high_addr = high; info = name }

abbrev pub range_of : Option Text → Option ℕ → Option ℕ → List (AddrRange Text)
range_of (some name) (some low) (some high) = function_range name low high ∷ []
range_of none low high = []
range_of (some name) none high = []
range_of (some name) (some low) none = []

-- the function that a child with this tag describes
abbrev pub tagged : Option DieTag → ChildDie → List (AddrRange Text)
tagged none d = []
tagged (some subprogram) d = range_of d.name d.low_pc d.high_pc
tagged (some entry_point) d = range_of d.name d.low_pc d.high_pc
tagged (some other_tag) d = []

abbrev pub functions : List ChildDie → List (AddrRange Text)
functions [] = []
functions (d ∷ ds) = tagged d.tag d ++ functions ds

-- the list with these ranges put in front one after the other
abbrev pub push {ℓ} : {A : Type ℓ} → List A → List A → List A
push [] gs = gs
push (x ∷ xs) gs = push xs (x ∷ gs)

-- the ranges can be added to `gs` one after the other: none overlaps another
abbrev pub Admits : (gs fs : List (AddrRange Text)) → Type 0
Admits gs [] = Unit
Admits gs (r ∷ rs) = (r.low_addr ≤ r.high_addr) × All (λ s. ¬ Overlaps r s) gs × Admits (r ∷ gs) rs

pub Admits-split :
    (gs xs ys : List (AddrRange Text))
    → Admits gs (xs ++ ys)
    → Admits gs xs × Admits (push xs gs) ys
Admits-split gs [] ys h = (tt, h)
Admits-split gs (x ∷ xs) ys (w, n, h) = let (p, q) = Admits-split (x ∷ gs) xs ys h in ((w, n, p), q)

pub push-append {ℓ} : {A : Type ℓ} (xs ys gs : List A) → push (xs ++ ys) gs ≡ push ys (push xs gs)
push-append [] ys gs = refl
push-append (x ∷ xs) ys gs = push-append xs ys (x ∷ gs)

pub push-perm {ℓ} : {A : Type ℓ} (xs gs : List A) → Permᴰ (push xs gs) (xs ++ gs)
push-perm [] gs = Permᴰ.refl gs
push-perm (x ∷ xs) gs = Permᴰ.trans (push-perm xs (x ∷ gs)) (Permᴰ.middle x xs gs)

-- the map of functions holds these ranges, and the rest of the state is as before
abbrev pub Functions : DwarfState → List (AddrRange Text) → DwarfState → Type 0
Functions s gs s' =
    (u : RangeTree Text) × (s'.function_map ≡ some u)
    × IsValid u
    × Permᴰ (contents u) gs
    × (s'.source_map ≡ s.source_map)
    × (s'.file_names ≡ s.file_names)
    × (s'.dw_fd ≡ s.dw_fd)
    × (s'.dw_handle ≡ s.dw_handle)

pub All-perm {ℓ κ} :
    {A : Type ℓ} (P : A → Type κ) {xs ys : List A} → Permᴰ xs ys → All P ys → All P xs
All-perm P Permᴰ.nil h = tt
All-perm P (Permᴰ.cons e p) h = (subst P (sym e) h.0, All-perm P p h.1)
All-perm P (Permᴰ.swap e k) h = (subst P (sym e) h.1.0, (subst P (sym k) h.0, h.1.1))
All-perm P (Permᴰ.trans p q) h = All-perm P p (All-perm P q h)

function_add-Functions :
    (name : Text) (low high : ℕ) (s : DwarfState) (u : RangeTree Text) (gs : List (AddrRange Text))
    → s.function_map ≡ some u
    → IsValid u
    → Permᴰ (contents u) gs
    → Admits gs (function_range name low high ∷ [])
    → Returns (function_add name low high s) (Functions s (function_range name low high ∷ gs))
unfolding function_add not_null
function_add-Functions name low high s u gs m v p (w, n, _) =
    let r = function_range name low high in
    elim (add_range-Inserted low high name u v w) [
      | inl (e, run, q, k, ov) ↦
          absurd
            (All-at (λ q. ¬ Overlaps r q) (contents u) (All-perm (λ q. ¬ Overlaps r q) p n) k ov)
      | inr (u', run, (valid, (xs, ys, old, new, below, above))) ↦ (
        record s { function_map = some u' },
        (rw m (rw run refl)),
        (
          u',
          refl,
          valid,
          subst (λ z. Permᴰ z (r ∷ gs)) (sym new)
              (Permᴰ.trans (Permᴰ.middle r xs ys)
                (Permᴰ.cons refl (subst (λ z. Permᴰ z gs) old p))),
          refl,
          refl,
          refl,
          refl,
        ),
      )
    ]

handle_function_die-Functions :
    (d : ChildDie) (s : DwarfState) (u : RangeTree Text) (gs : List (AddrRange Text))
    → s.function_map ≡ some u
    → IsValid u
    → Permᴰ (contents u) gs
    → Admits gs (range_of d.name d.low_pc d.high_pc)
    → Returns (handle_function_die d s) (Functions s (push (range_of d.name d.low_pc d.high_pc) gs))
unfolding handle_function_die
handle_function_die-Functions d s u gs m v p = elim (Option-cases (d.name)) [
  | inl e1 ↦ rw e1 (λ a. (s, refl, (u, m, v, p, refl, refl, refl, refl)))
  | inr (name, e1) ↦ elim (Option-cases (d.low_pc)) [
    | inl e2 ↦ rw (e1, e2) (λ a. (s, refl, (u, m, v, p, refl, refl, refl, refl)))
    | inr (low, e2) ↦ elim (Option-cases (d.high_pc)) [
      | inl e3 ↦ rw (e1, e2, e3) (λ a. (s, refl, (u, m, v, p, refl, refl, refl, refl)))
      | inr (high, e3) ↦ rw (e1, e2, e3) (function_add-Functions name low high s u gs m v p)
    ]
  ]
]

-- a child whose tag can be read is handled without an abort
handle_tag-Functions :
    (tag : Option DieTag) (d : ChildDie) (s : DwarfState) (u : RangeTree Text)
    (gs : List (AddrRange Text))
    → s.function_map ≡ some u
    → IsValid u
    → Permᴰ (contents u) gs
    → is_some tag ≡ true
    → Admits gs (tagged tag d)
    → Returns (handle_tag tag d s) (Functions s (push (tagged tag d) gs))
unfolding handle_tag
handle_tag-Functions none d s u gs m v p h a = absurd (cc)
handle_tag-Functions (some subprogram) d s u gs m v p h a =
    handle_function_die-Functions d s u gs m v p a
handle_tag-Functions (some entry_point) d s u gs m v p h a =
    handle_function_die-Functions d s u gs m v p a
handle_tag-Functions (some other_tag) d s u gs m v p h a =
    (s, refl, (u, m, v, p, refl, refl, refl, refl))

-- if the functions of a unit overlap no function, the loop over the children returns with all of
-- them in the map
pub handle_children-Functions :
    (ds : List ChildDie) (s : DwarfState) (u : RangeTree Text) (gs : List (AddrRange Text))
    → s.function_map ≡ some u
    → IsValid u
    → Permᴰ (contents u) gs
    → All (λ d. is_some (d.tag) ≡ true) ds
    → Admits gs (functions ds)
    → Returns (handle_children true ds s) (Functions s (push (functions ds) gs))
unfolding handle_children
handle_children-Functions [] s u gs m v p h a = (s, refl, (u, m, v, p, refl, refl, refl, refl))
handle_children-Functions (d ∷ ds) s u gs m v p h a =
    let (a1, a2) = Admits-split gs (tagged (d.tag) d) (functions ds) a in
    let (s1, run1, (u1, m1, v1, p1, q1, w1, y1, z1)) =
      handle_tag-Functions (d.tag) d s u gs m v p (h.0) a1 in
    let (s2, run2, (u2, m2, v2, p2, q2, w2, y2, z2)) =
      handle_children-Functions ds s1 u1 _ m1 v1 p1 (h.1) a2 in
    (
      s2,
      (rw run1 run2),
      (
        u2,
        m2,
        v2,
        subst (Permᴰ (contents u2)) (sym (push-append (tagged (d.tag) d) (functions ds) gs)) p2,
        q2 ∙ q1,
        w2 ∙ w1,
        y2 ∙ y1,
        z2 ∙ z1,
      ),
    )
