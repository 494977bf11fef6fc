-- ===== src/Dwarf.antt =====
-- The debugging information that pc_lookup_dwarf.c keeps: the pool of file names, the maps from
-- addresses to source lines and to functions, how open_dwarf_executable fills them, and the lookup.
-- What libdwarf answers is the record `DwarfFile`; messages and the release of its data are left
-- out.
pub mod Names
pub mod Patch
pub mod Lines
pub mod Functions
pub mod Nearest
pub mod Units
pub mod Session
pub mod Find
use Prim.Native.String.{String}
use a_mpi_p.Prelude.{
  ℕ, ◌+◌, ◌%◌, Bool, true, false, Option, none, some, List, [], ◌∷◌, ◌==◌, not, ◌||◌, if◌then◌else◌,
  Run, ok, abort, ◌>>=◌, is_zero, is_some,
}
use a_mpi_p.Callsites.{Text}
use a_mpi_p.Sources.{strcmp}
use a_mpi_p.AddrRanges.{AddrRange, RangeTree, leaf, node, empty_map, add_range, find_range}

-- the names of `uniqueFileNameList`, the newest first
unfoldable pub unique_file_name_search : Text → List Text → Option Text
unique_file_name_search name [] = none
unique_file_name_search name (n ∷ names) =
    if is_zero (strcmp name n) then some n else unique_file_name_search name names

-- UniqueFileName_Get: the name in the pool and the pool
unfoldable pub unique_file_name_get : Text → List Text → Text × List Text
unique_file_name_get name names = elim (unique_file_name_search name names) [
  | some n ↦ (n, names)
  | none ↦ (name, name ∷ names)
]

-- `struct AddrToSourceInfo`
pub record SourceInfo : Type 0 where
  pub file_name : Text
  pub line_number : ℕ

-- `uniqueFileNameList`, `addrToSourceMap` and `functionMap`, where `none` is NULL; whether `dwFd`
-- and `dwHandle` are set
pub record DwarfState : Type 0 where
  pub file_names : List Text
  pub source_map : Option (RangeTree SourceInfo)
  pub function_map : Option (RangeTree Text)
  pub dw_fd : Bool
  pub dw_handle : Bool

unfoldable pub not_null {ℓ} : {A : Type ℓ} → String → Option A → Run A
not_null what none = abort what
not_null what (some a) = ok a

-- AddrToSourceMap_Add; the ends of the ranges are patched later
unfoldable pub source_add : ℕ → Text → (line : ℕ) → DwarfState → Run DwarfState
unfolding not_null
source_add addr file line s =
    let (name, names) = unique_file_name_get file s.file_names in
    do
      t ← not_null "addrToSourceMap != NULL" s.source_map
      u ← add_range addr addr (record { file_name = name; line_number = line }) t
      ok (record s { file_names = names; source_map = some u })

-- 2 ^ 64 - 1, the complement of 0
abbrev pub max_address : ℕ
max_address = 18446744073709551615

-- maxAddress - 1 in 64 bits
abbrev pub before : ℕ → ℕ
before a = (a + max_address) % 18446744073709551616

-- AddrToSourceMap_PatchRangesAux: the smallest address and the subtree. A child that is missing
-- gives back what the call would get as its largest address
unfoldable pub patch_ranges_aux {ℓ} :
    {A : Type ℓ} → RangeTree A → (max_address : ℕ) → ℕ × RangeTree A
patch_ranges_aux leaf m = (m, leaf)
patch_ranges_aux (node c r a b) m =
    let (ret, a') = patch_ranges_aux a (r.low_addr) in
    let (m', b') = patch_ranges_aux b m in (ret, node c (record r { high_addr = before m' }) a' b')

-- AddrToSourceMap_PatchRanges
unfoldable pub patch_ranges {ℓ} : {A : Type ℓ} → RangeTree A → RangeTree A
patch_ranges t = (patch_ranges_aux t max_address).1

-- FunctionMap_Add
unfoldable pub function_add : Text → (low high : ℕ) → DwarfState → Run DwarfState
unfolding not_null
function_add name low high s = do
  t ← not_null "functionMap != NULL" s.function_map
  u ← add_range low high name t
  ok (record s { function_map = some u })

-- a line of `dwarf_srclines`: the answers of dwarf_lineno, dwarf_lineaddr and dwarf_linesrc
pub record LineEntry : Type 0 where
  pub line_no : Option ℕ
  pub line_addr : Option ℕ
  pub line_src : Option Text

pub data DieTag : Type 0 where
  subprogram : DieTag
  entry_point : DieTag
  other_tag : DieTag

-- a child of a compilation unit: the answers of dwarf_tag, dwarf_diename, dwarf_lowpc and
-- dwarf_highpc
pub record ChildDie : Type 0 where
  pub tag : Option DieTag
  pub name : Option Text
  pub low_pc : Option ℕ
  pub high_pc : Option ℕ

-- DW_DLV_OK, DW_DLV_NO_ENTRY and DW_DLV_ERROR
pub data Status : Type 0 where
  dlv_ok : Status
  dlv_no_entry : Status
  dlv_error : Status

-- `first_die`, `srclines` and `first_child` are the codes of dwarf_siblingof, dwarf_srclines and
-- dwarf_child, `is_unit` is the assert on the tag, and `last_sibling` tells whether the children
-- end with DW_DLV_NO_ENTRY
pub record CompileUnit : Type 0 where
  pub first_die : Status
  pub srclines : Status
  pub line_entries : List LineEntry
  pub is_unit : Bool
  pub first_child : Status
  pub children : List ChildDie
  pub last_sibling : Bool

-- `opened` and `initialised` are the results of open and dwarf_init, and `last_unit` tells whether
-- the units end with DW_DLV_NO_ENTRY
pub record DwarfFile : Type 0 where
  pub opened : Bool
  pub initialised : Status
  pub units : List CompileUnit
  pub last_unit : Bool

-- whether an entry is saved: the last one, and one whose address differs from the next
unfoldable pub save_current_entry : (addr : ℕ) → List LineEntry → Run Bool
save_current_entry addr [] = ok true
save_current_entry addr (next ∷ rest) = do
  next_addr ← not_null "nextLineAddrStatus == DW_DLV_OK" next.line_addr
  ok (not (next_addr == addr))

-- the body of the loop over the line entries
unfoldable pub save_line : LineEntry → List LineEntry → DwarfState → Run DwarfState
unfolding save_current_entry
save_line e rest s = elim (e.line_no) [
  | none ↦ ok s
  | some line ↦ elim (e.line_addr) [
    | none ↦ ok s
    | some addr ↦ elim (e.line_src) [
      | none ↦ ok s
      | some file ↦ do
        save ← save_current_entry addr rest
        if save then source_add addr file line s else ok s
    ]
  ]
]

-- for (i = 0; i < nLineEntries; i++)
unfoldable pub save_lines : List LineEntry → DwarfState → Run DwarfState
unfolding save_line
save_lines [] s = ok s
save_lines (e ∷ rest) s = do s' ← save_line e rest s; save_lines rest s'

-- HandleFunctionDIE
unfoldable pub handle_function_die : ChildDie → DwarfState → Run DwarfState
handle_function_die d s = elim (d.name) [
  | none ↦ ok s
  | some name ↦ elim (d.low_pc) [
    | none ↦ ok s
    | some low ↦ elim (d.high_pc) [ none ↦ ok s | some high ↦ function_add name low high s ]
  ]
]

-- by the tag of the child
unfoldable pub handle_tag : Option DieTag → ChildDie → DwarfState → Run DwarfState
handle_tag none d s = abort "unable to determine tag of current child DIE"
handle_tag (some subprogram) d s = handle_function_die d s
handle_tag (some entry_point) d s = handle_function_die d s
handle_tag (some other_tag) d s = ok s

-- while (dwStatus == DW_DLV_OK)
unfoldable pub handle_children : (last_sibling : Bool) → List ChildDie → DwarfState → Run DwarfState
handle_children last [] s =
    if last then ok s else abort "unable to access next child DIE of current compilation unit"
handle_children last (d ∷ ds) s = do s' ← handle_tag d.tag d s; handle_children last ds s'

-- by the code of dwarf_srclines
unfoldable pub unit_lines : Status → List LineEntry → DwarfState → Run DwarfState
unit_lines dlv_ok es s = save_lines es s
unit_lines dlv_no_entry es s = ok s
unit_lines dlv_error es s = abort "failed to obtain line info for the current DIE"

-- by the code of dwarf_child
unfoldable pub unit_functions : Status → Bool → List ChildDie → DwarfState → Run DwarfState
unit_functions dlv_ok last ds s = handle_children last ds s
unit_functions dlv_no_entry last ds s = ok s
unit_functions dlv_error last ds s = abort "failed to access first child DIE of compile unit DIE"

-- the body of the loop over the compilation units, by the code of the first dwarf_siblingof
unfoldable pub read_unit : Status → CompileUnit → DwarfState → Run DwarfState
read_unit dlv_ok u s = do
  s1 ← unit_lines u.srclines u.line_entries s
  if u.is_unit
      then unit_functions u.first_child u.last_sibling u.children s1
      else abort "currDIETag == DW_TAG_compile_unit"
read_unit dlv_no_entry u s = abort "failed to access first DWARF DIE"
read_unit dlv_error u s = abort "failed to access first DWARF DIE"

unfoldable pub read_units : (last_unit : Bool) → List CompileUnit → DwarfState → Run DwarfState
read_units last [] s = if last then ok s else abort "failed to access next DWARF cu header"
read_units last (u ∷ us) s = do s' ← read_unit u.first_die u s; read_units last us s'

-- the maps are made, filled and patched
unfoldable pub load : DwarfFile → DwarfState → Run (ℕ × DwarfState)
unfolding not_null
load f s = if is_some s.function_map then abort "functionMap == NULL" else do
  s1 ←
      read_units f.last_unit f.units
        (record s { source_map = some empty_map; function_map = some empty_map; dw_handle = true })
  t ← not_null "addrToSourceMap != NULL" s1.source_map
  ok (1, record s1 { source_map = some (patch_ranges t) })

-- open_dwarf_executable: 1 if the file could be read
unfoldable pub open_dwarf_executable : DwarfFile → DwarfState → Run (ℕ × DwarfState)
open_dwarf_executable f s =
    if s.dw_fd
    then abort "dwFd == -1"
    else if not f.opened
    then ok (0, s)
    else if s.dw_handle
    then abort "dwHandle == NULL"
    else elim (f.initialised) [
      | dlv_ok ↦ load f (record s { dw_fd = true })
      | dlv_no_entry ↦ ok (0, record s { dw_fd = true })
      | dlv_error ↦ abort "could not initialize DWARF library"
    ]

-- close_dwarf_executable
unfoldable pub close_dwarf_executable : DwarfState → Run DwarfState
close_dwarf_executable s =
    if not s.dw_handle
    then abort "dwHandle != NULL"
    else if not s.dw_fd
    then abort "dwFd != -1"
    else ok (record s { dw_handle = false; dw_fd = false; source_map = none; function_map = none })

-- what follows the last '/', if there is one
unfoldable pub after_slash : Text → Option Text
after_slash [] = none
after_slash (c ∷ cs) = elim (after_slash cs) [
  | some t ↦ some t
  | none ↦ if c == 47 then some cs else none
]

-- the directories are taken off if `mpiPi.baseNames` is 0
unfoldable pub shown_name : (base_names : ℕ) → Text → Text
unfolding after_slash
shown_name base_names file =
    if base_names == 0 then elim (after_slash file) [ some t ↦ t | none ↦ file ] else file

-- `*o_file_str`, `*o_lineno` and `*o_funct_str`, where `none` is NULL
pub record SrcFound : Type 0 where
  pub code : ℕ
  pub file : Text
  pub lineno : ℕ
  pub funct : Option Text

-- the results for what the two maps give; a file that is not known is "??"
unfoldable pub src_found : (base_names : ℕ) → Option SourceInfo → Option Text → SrcFound
unfolding shown_name
src_found base_names (some i) function = record {
  code = 0;
  file = shown_name base_names i.file_name;
  lineno = i.line_number;
  funct = function;
}
src_found base_names none function = record {
  code = if is_some function then 0 else 1;
  file = 63 ∷ 63 ∷ [];
  lineno = 0;
  funct = function;
}

-- mpiP_find_src_loc
unfoldable pub find_src_loc : (base_names : ℕ) → DwarfState → (addr : ℕ) → Run SrcFound
unfolding not_null
find_src_loc base_names s addr = do
  sources ← not_null "addrToSourceMap != NULL" s.source_map
  functions ← not_null "functionMap != NULL" s.function_map
  ok (src_found base_names (find_range addr sources) (find_range addr functions))
