-- ===== src/Dwarf/Units.antt =====
-- The loop over the compilation units of open_dwarf_executable in pc_lookup_dwarf.c: what the two
-- maps hold behind it.
use mathlib.Core.List.{Permᴰ, append_assoc}
use mathlib.Core.List.Permᴰ
use a_mpi_p.Prelude.{
  Bool, true, false, some, List, [], ◌∷◌, ◌++◌, ◌≡◌, refl, ◌∙◌, sym, subst, All, ok, Returns,
  is_some,
}
use a_mpi_p.Callsites.{Text}
use a_mpi_p.AddrRanges.{AddrRange, RangeTree}
use a_mpi_p.AddrRanges.Contents.{contents}
use a_mpi_p.AddrRanges.Insert.{IsValid}
use a_mpi_p.Dwarf.{
  SourceInfo, DwarfState, ChildDie, Status, dlv_ok, dlv_no_entry, dlv_error, CompileUnit, LineEntry,
  unit_lines, unit_functions, read_unit, read_units,
}
use a_mpi_p.Dwarf.Names.{IsDistinct}
use a_mpi_p.Dwarf.Lines.{IsFilling, IsLocated, statements, save_lines-Fills}
use a_mpi_p.Dwarf.Functions.{
  functions, push, Admits, Admits-split, push-append, handle_children-Functions,
}

-- the maps hold these statements and these functions
pub record Holds (xs : List (AddrRange SourceInfo)) (gs : List (AddrRange Text)) (s : DwarfState)
    : Type 0 where
  pub sources : RangeTree SourceInfo
  pub is_sources : s.source_map ≡ some sources
  pub filling : IsFilling sources
  pub all_statements : Permᴰ (contents sources) xs
  pub distinct : IsDistinct s.file_names
  pub function_tree : RangeTree Text
  pub is_functions : s.function_map ≡ some function_tree
  pub valid : IsValid function_tree
  pub all_functions : Permᴰ (contents function_tree) gs
  pub opened : (s.dw_fd ≡ true) × (s.dw_handle ≡ true)

-- what libdwarf gives for a code
abbrev pub listed {ℓ} : {A : Type ℓ} → Status → List A → List A
listed dlv_ok xs = xs
listed dlv_no_entry xs = []
listed dlv_error xs = []

abbrev is_error : Status → Bool
is_error dlv_ok = false
is_error dlv_no_entry = false
is_error dlv_error = true

abbrev pub file_statements : List CompileUnit → List (AddrRange SourceInfo)
file_statements [] = []
file_statements (u ∷ us) = file_statements us ++ listed u.srclines (statements u.line_entries)

abbrev pub file_functions : List CompileUnit → List (AddrRange Text)
file_functions [] = []
file_functions (u ∷ us) = listed u.first_child (functions u.children) ++ file_functions us

-- no call of libdwarf fails on the unit
abbrev pub IsReadable : CompileUnit → Type 0
IsReadable u =
    (u.first_die ≡ dlv_ok)
    × (is_error u.srclines ≡ false)
    × All IsLocated u.line_entries
    × (u.is_unit ≡ true)
    × (is_error u.first_child ≡ false)
    × All (λ d. is_some d.tag ≡ true) u.children
    × (u.last_sibling ≡ true)

unit_lines-Holds :
    (code : Status) (es : List LineEntry) (xs : List (AddrRange SourceInfo))
    (gs : List (AddrRange Text)) (s : DwarfState)
    → is_error code ≡ false
    → All IsLocated es
    → Holds xs gs s
    → Returns (unit_lines code es s) (Holds (listed code (statements es) ++ xs) gs)
unfolding unit_lines
unit_lines-Holds dlv_error es xs gs s h l k = absurd (cc)
unit_lines-Holds dlv_no_entry es xs gs s h l k = (s, refl, k)
unit_lines-Holds dlv_ok es xs gs s h l k =
    let (s1, run, (t, m, f, p, d, u, v, w)) =
      save_lines-Fills es s (k.sources) l (k.is_sources) (k.filling) (k.distinct) in
    (
      s1,
      run,
      record {
        sources = t;
        is_sources = m;
        filling = f;
        all_statements = Permᴰ.trans p (Permᴰ.append_left (statements es) (k.all_statements));
        distinct = d;
        function_tree = k.function_tree;
        is_functions = u ∙ k.is_functions;
        valid = k.valid;
        all_functions = k.all_functions;
        opened = (v ∙ k.opened.0, w ∙ k.opened.1);
      },
    )

unit_functions-Holds :
    (code : Status) (ds : List ChildDie) (xs : List (AddrRange SourceInfo))
    (gs : List (AddrRange Text)) (s : DwarfState)
    → is_error code ≡ false
    → All (λ d. is_some d.tag ≡ true) ds
    → Admits gs (listed code (functions ds))
    → Holds xs gs s
    → Returns (unit_functions code true ds s) (Holds xs (push (listed code (functions ds)) gs))
unfolding unit_functions
unit_functions-Holds dlv_error ds xs gs s h l a k = absurd (cc)
unit_functions-Holds dlv_no_entry ds xs gs s h l a k = (s, refl, k)
unit_functions-Holds dlv_ok ds xs gs s h l a k =
    let (s1, run, (u, m, v, p, q, n, y, z)) =
      handle_children-Functions ds s (k.function_tree) gs (k.is_functions) (k.valid)
        (k.all_functions) l a in
    (
      s1,
      run,
      record {
        sources = k.sources;
        is_sources = q ∙ k.is_sources;
        filling = k.filling;
        all_statements = k.all_statements;
        distinct = subst IsDistinct (sym n) (k.distinct);
        function_tree = u;
        is_functions = m;
        valid = v;
        all_functions = p;
        opened = (y ∙ k.opened.0, z ∙ k.opened.1);
      },
    )

read_unit-run :
    (code : Status) (u : CompileUnit) (s s1 s2 : DwarfState)
    → code ≡ dlv_ok
    → unit_lines u.srclines u.line_entries s ≡ ok s1
    → u.is_unit ≡ true
    → u.last_sibling ≡ true
    → unit_functions u.first_child true u.children s1 ≡ ok s2
    → read_unit code u s ≡ ok s2
unfolding read_unit
read_unit-run dlv_ok u s s1 s2 first run1 unit last run2 = rw run1 (rw unit (rw last run2))
read_unit-run dlv_no_entry u s s1 s2 first run1 unit last run2 = absurd (cc)
read_unit-run dlv_error u s s1 s2 first run1 unit last run2 = absurd (cc)

read_unit-Holds :
    (u : CompileUnit) (xs : List (AddrRange SourceInfo)) (gs : List (AddrRange Text))
    (s : DwarfState)
    → IsReadable u
    → Admits gs (listed u.first_child (functions u.children))
    → Holds xs gs s
    → Returns (read_unit u.first_die u s) (
        Holds
          (listed u.srclines (statements u.line_entries) ++ xs)
          (push (listed u.first_child (functions u.children)) gs))
unfolding read_unit
read_unit-Holds u xs gs s (first, lines, located, unit, child, tags, last) a k =
    let (s1, run1, k1) = unit_lines-Holds (u.srclines) (u.line_entries) xs gs s lines located k in
    let (s2, run2, k2) =
      unit_functions-Holds (u.first_child) (u.children) _ gs s1 child tags a k1 in
    (s2, read_unit-run (u.first_die) u s s1 s2 first run1 unit last run2, k2)

-- all units are read, if no function overlaps another
pub read_units-Holds :
    (us : List CompileUnit) (xs : List (AddrRange SourceInfo)) (gs : List (AddrRange Text))
    (s : DwarfState)
    → All IsReadable us
    → Admits gs (file_functions us)
    → Holds xs gs s
    → Returns
        (read_units true us s)
        (Holds (file_statements us ++ xs) (push (file_functions us) gs))
unfolding read_units
read_units-Holds [] xs gs s h a k = (s, refl, k)
read_units-Holds (u ∷ us) xs gs s h a k =
    let fs = listed u.first_child (functions u.children) in
    let st = listed u.srclines (statements u.line_entries) in
    let (a1, a2) = Admits-split gs fs (file_functions us) a in
    let (s1, run1, k1) = read_unit-Holds u xs gs s (h.0) a1 k in
    let (s2, run2, k2) = read_units-Holds us (st ++ xs) (push fs gs) s1 (h.1) a2 k1 in
    (
      s2,
      (rw run1 run2),
      subst (λ l. Holds l (push (file_functions (u ∷ us)) gs) s2)
          (sym (append_assoc (file_statements us) st xs))
          (subst (λ l. Holds (file_statements us ++ (st ++ xs)) l s2)
            (sym (push-append fs (file_functions us) gs)) k2),
    )
