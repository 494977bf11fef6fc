-- ===== src/Dwarf/Session.antt =====
-- open_dwarf_executable of pc_lookup_dwarf.c on a file that libdwarf can read: what the two maps
-- hold when it returns.
use mathlib.Core.List.{Permᴰ, append-nil}
use a_mpi_p.Prelude.{
  true, false, none, some, List, [], ◌++◌, ◌≡◌, refl, ap, ◌∙◌, sym, subst, All, ok, Returns, ◌>>=◌,
}
use a_mpi_p.Callsites.{Text}
use a_mpi_p.AddrRanges.{AddrRange, RangeTree, empty_map}
use a_mpi_p.Dwarf.{
  SourceInfo, DwarfState, dlv_ok, DwarfFile, read_units, load, open_dwarf_executable,
  close_dwarf_executable, patch_ranges, not_null,
}
use a_mpi_p.Dwarf.Names.{IsDistinct}
use a_mpi_p.Dwarf.Functions.{functions, push, Admits}
use a_mpi_p.Dwarf.Units.{Holds, IsReadable, file_statements, file_functions, read_units-Holds}

-- no executable is open
abbrev pub IsClosed : DwarfState → Type 0
IsClosed s =
    (s.dw_fd ≡ false)
    × (s.dw_handle ≡ false)
    × (s.source_map ≡ none)
    × (s.function_map ≡ none)
    × IsDistinct s.file_names

-- libdwarf can read the file, and no function overlaps another
abbrev pub IsSound : DwarfFile → Type 0
IsSound f =
    (f.opened ≡ true)
    × (f.initialised ≡ dlv_ok)
    × (f.last_unit ≡ true)
    × All IsReadable f.units
    × Admits [] (file_functions f.units)

-- the maps hold the statements and the functions of the file, and the ranges are patched
abbrev pub IsLoaded : DwarfFile → DwarfState → Type 0
IsLoaded f s =
    (filled : DwarfState) × (k : Holds (file_statements f.units) (push (file_functions f.units) [])
      filled)
    × (s ≡ record filled { source_map = some (patch_ranges k.sources) })

-- the state before the first unit is read
empty_maps : DwarfState → DwarfState
empty_maps s = record s {
  source_map = some empty_map;
  function_map = some empty_map;
  dw_fd = true;
  dw_handle = true;
}

empty_maps-Holds : (s : DwarfState) → IsDistinct s.file_names → Holds [] [] (empty_maps s)
unfolding empty_maps
empty_maps-Holds s d = record {
  sources = empty_map;
  is_sources = refl;
  filling = (((0, refl, refl), tt), tt);
  all_statements = Permᴰ.nil;
  distinct = d;
  function_tree = empty_map;
  is_functions = refl;
  valid = ((0, refl, refl), tt);
  all_functions = Permᴰ.nil;
  opened = (refl, refl);
}

without_nil :
    (xs : List (AddrRange SourceInfo)) {gs : List (AddrRange Text)} {s : DwarfState}
    → Holds (xs ++ []) gs s
    → Holds xs gs s
without_nil xs {gs} {s} k = subst (λ l. Holds l gs s) (append-nil xs) k

load-run :
    (f : DwarfFile) (s s1 : DwarfState) (t : RangeTree SourceInfo)
    → s.function_map ≡ none
    → f.last_unit ≡ true
    → read_units true f.units (empty_maps s) ≡ ok s1
    → s1.source_map ≡ some t
    → load f (record s { dw_fd = true }) ≡ ok (1, record s1 { source_map = some (patch_ranges t) })
unfolding load empty_maps not_null
load-run f s s1 t n l run m = rw n (rw l (rw run (rw m refl)))

open-run :
    (f : DwarfFile) (s : DwarfState)
    → s.dw_fd ≡ false
    → s.dw_handle ≡ false
    → f.opened ≡ true
    → f.initialised ≡ dlv_ok
    → open_dwarf_executable f s ≡ load f (record s { dw_fd = true })
unfolding open_dwarf_executable
open-run f s fd handle o i = rw (fd, o, handle, i) (rw (o, i, handle))

-- If no executable is open, libdwarf reads the whole file without a failure and no function
-- overlaps another, opening returns 1. Before the ranges are patched the two maps are red-black
-- trees in order which hold just the functions of the file, and the statements of its line tables,
-- where of several entries in a row with one address the last one counts and entries that are not
-- complete are left out.
pub open_dwarf_executable-Loaded :
    (f : DwarfFile) (s : DwarfState)
    → IsClosed s
    → IsSound f
    → Returns (open_dwarf_executable f s) (λ r. (r.0 ≡ 1) × IsLoaded f (r.1))
open_dwarf_executable-Loaded f s (fd, handle, sources, functions, distinct) (o, i, l, us, a) =
    let (s1, run, held) =
      read_units-Holds (f.units) [] [] (empty_maps s) us a (empty_maps-Holds s distinct) in
    let k = without_nil (file_statements f.units) held in
    (
      (1, record s1 { source_map = some (patch_ranges (k.sources)) }),
      open-run f s fd handle o i ∙ load-run f s s1 (k.sources) functions l run (k.is_sources),
      (refl, (s1, k, refl)),
    )

close-run :
    (s : DwarfState)
    → s.dw_handle ≡ true
    → s.dw_fd ≡ true
    → close_dwarf_executable s
      ≡ ok (record s { dw_handle = false; dw_fd = false; source_map = none; function_map = none })
unfolding close_dwarf_executable
close-run s handle fd = rw (handle, fd) refl

-- closing an executable gives back a state in which one can be opened; only the pool of names stays
pub close_dwarf_executable-Closed :
    (f : DwarfFile) (s : DwarfState)
    → IsLoaded f s
    → Returns (close_dwarf_executable s) (λ r. IsClosed r × (r.file_names ≡ s.file_names))
unfolding close_dwarf_executable
close_dwarf_executable-Closed f s (filled, k, e) =
    let handle = ap (λ z. z.dw_handle) e ∙ k.opened.1 in
    let fd = ap (λ z. z.dw_fd) e ∙ k.opened.0 in
    (
      record s { dw_handle = false; dw_fd = false; source_map = none; function_map = none },
      close-run s handle fd,
      (
        (refl, refl, refl, refl, subst IsDistinct (sym (ap (λ z. z.file_names) e)) (k.distinct)),
        refl,
      ),
    )

-- Under the same conditions on the state and on the file, opening and then closing an executable
-- returns, with no file and no handle open, both maps gone and the names of the pool distinct, so
-- that an executable can be opened again.
pub open-close-Closed :
    (f : DwarfFile) (s : DwarfState)
    → IsClosed s
    → IsSound f
    → Returns (open_dwarf_executable f s >>= (λ r. close_dwarf_executable (r.1))) IsClosed
open-close-Closed f s c h =
    let (r, run, (code, loaded)) = open_dwarf_executable-Loaded f s c h in
    let (s', run', (closed, names)) = close_dwarf_executable-Closed f (r.1) loaded in
    (s', (rw run run'), closed)
