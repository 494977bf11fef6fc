-- ===== src/Tests/Addresses.antt =====
-- Address ranges, debugging information and regions: the theorems at concrete inputs, and runs.
use a_mpi_p.Prelude.{
  ℕ, true, false, none, some, List, [], ◌∷◌, replicate, length-replicate, zero, ◌≡◌, refl, All,
  arith, ok, abort, ◌>>=◌, Returns, ◌⊎◌, suc,
}
use Prim.Native.String.{String}
use mathlib.Core.List.Memᴰ.{Memᴰ}
use a_mpi_p.Callsites.{Text}
use a_mpi_p.AddrRanges.{
  red, black, AddrRange, RangeTree, leaf, node, add_range, find_range, descend, rebalance, plug,
}
use a_mpi_p.AddrRanges.Contents.{contents}
use a_mpi_p.AddrRanges.Lookup.{Rise, IsAnswer, find_range-Answer}
use a_mpi_p.AddrRanges.Insert.{IsValid, Inserted, Overlaps, add_range-Inserted}
use a_mpi_p.Dwarf.{
  DwarfState, LineEntry, subprogram, ChildDie, dlv_ok, CompileUnit, DwarfFile, patch_ranges_aux,
  open_dwarf_executable, close_dwarf_executable, find_src_loc,
}
use a_mpi_p.Dwarf.Patch.{first_low, patched, patch_ranges_aux-patched}
use a_mpi_p.Dwarf.Units.{file_statements}
use a_mpi_p.Dwarf.Session.{IsClosed, IsSound, open-close-Closed}
use a_mpi_p.Dwarf.Find.{Locates, InSpace, open-find_src_loc-Locates}
use a_mpi_p.Regions.{has_dot, region_enter, c_string}
use a_mpi_p.Regions.Buffer.{IsText}
use a_mpi_p.Regions.Nesting.{
  IsAt, Nest, nothing, inside, visit, Fits, visit-Restored, region_enter-Unterminated,
}

abbrev range : (low high info : ℕ) → AddrRange ℕ
range low high info = record { low_addr = low; high_addr = high; info = info }

-- three ranges in a row
abbrev three : RangeTree ℕ
three =
    node black (range 20 30 2) (node red (range 10 20 1) leaf leaf)
      (node red (range 40 50 3) leaf leaf)

three-IsValid : IsValid three
three-IsValid = (
  (1, (0, refl, (refl, refl, refl, refl), (refl, refl, refl, refl)), refl),
  (
    omega arith,
    (omega arith, (omega arith, tt)),
    (omega arith, (omega arith, tt), (omega arith, tt, tt)),
  ),
)

add_range-Inserted_example :
    ((m : String) × (add_range 30 35 4 three ≡ abort m)
      × (s : AddrRange ℕ) × Memᴰ s (contents three)
      × Overlaps (range 30 35 4) s)
    ⊎ Returns
        (add_range 30 35 4 three)
        (λ u. IsValid u × Inserted (range 30 35 4) (contents three) (contents u))
add_range-Inserted_example = add_range-Inserted 30 35 4 three three-IsValid (omega arith)

-- the uncle is red, and the root turns black again
three-added :
    add_range 30 35 4 three
    ≡ ok (
        node black
          (range 20 30 2)
          (node black (range 10 20 1) leaf leaf)
          (node black (range 40 50 3) (node red (range 30 35 4) leaf leaf) leaf))
unfolding add_range descend rebalance plug
three-added = refl

three-overlapped : add_range 25 45 4 three ≡ abort "new address node range overlaps our range"
unfolding add_range descend
three-overlapped = refl

three-Rise : Rise (contents three)
three-Rise = (
  ((omega arith, omega arith), ((omega arith, omega arith), tt)),
  (((omega arith, omega arith), tt), (tt, tt)),
)

find_range-Answer_example : IsAnswer 45 (contents three) (find_range 45 three)
find_range-Answer_example = find_range-Answer 45 three three-Rise

-- the end of a range belongs to it also where the next range begins
three-shared : find_range 20 three ≡ some 2
unfolding find_range
three-shared = refl

-- an address at which one function ends and the next one begins is found in either, as the tree
-- happens to be
abbrev two_functions : RangeTree ℕ
two_functions = node black (range 10 20 1) leaf (node red (range 20 30 2) leaf leaf)

two_functions-shared : find_range 20 two_functions ≡ some 1
unfolding find_range
two_functions-shared = refl

patch_ranges_aux-patched_example :
    ((patch_ranges_aux three 100).0 ≡ first_low (contents three) 100)
    × (contents ((patch_ranges_aux three 100).1) ≡ patched (contents three) 100)
patch_ranges_aux-patched_example = patch_ranges_aux-patched three 100

-- "a/x" and "y"
abbrev ax : Text
ax = 97 ∷ 47 ∷ 120 ∷ []

abbrev y : Text
y = 121 ∷ []

abbrev line : (at addr : ℕ) → Text → LineEntry
line at addr file = record { line_no = some at; line_addr = some addr; line_src = some file }

abbrev function : (name : Text) (low high : ℕ) → ChildDie
function name low high = record {
  tag = some subprogram;
  name = some name;
  low_pc = some low;
  high_pc = some high;
}

abbrev unit : List LineEntry → List ChildDie → CompileUnit
unit lines children = record {
  first_die = dlv_ok;
  srclines = dlv_ok;
  line_entries = lines;
  is_unit = true;
  first_child = dlv_ok;
  children = children;
  last_sibling = true;
}

-- two units; of the two lines at 4096 the second one counts
abbrev program : DwarfFile
program = record {
  opened = true;
  initialised = dlv_ok;
  units =
      unit (line 1 4096 ax ∷ line 2 4096 ax ∷ line 3 4112 ax ∷ []) (function ax 4096 4128 ∷ [])
      ∷ unit (line 7 8192 y ∷ []) (function y 8192 8200 ∷ [])
      ∷ [];
  last_unit = true;
}

abbrev closed : DwarfState
closed = record {
  file_names = [];
  source_map = none;
  function_map = none;
  dw_fd = false;
  dw_handle = false;
}

closed-IsClosed : IsClosed closed
closed-IsClosed = (refl, refl, refl, refl, tt)

program-IsSound : IsSound program
program-IsSound = (
  refl,
  refl,
  refl,
  (
    (refl, refl, (refl, (refl, (refl, tt))), refl, refl, (refl, tt), refl),
    ((refl, refl, (refl, tt), refl, refl, (refl, tt), refl), tt),
  ),
  (omega arith, tt, (omega arith, ((λ h. omega arith), tt), tt)),
)

program-InSpace : All InSpace (file_statements program.units)
program-InSpace =
    ((omega arith, omega arith), ((omega arith, omega arith), ((omega arith, omega arith), tt)))

open-close-Closed_example :
    Returns (open_dwarf_executable program closed >>= (λ r. close_dwarf_executable (r.1))) IsClosed
open-close-Closed_example = open-close-Closed program closed closed-IsClosed program-IsSound

open-find_src_loc-Locates_example :
    Returns
      (open_dwarf_executable program closed >>= (λ r. find_src_loc 0 (r.1) 4100))
      (Locates program 0 4100)
open-find_src_loc-Locates_example =
    open-find_src_loc-Locates program closed 0 4100 closed-IsClosed program-IsSound program-InSpace
      (omega arith)

-- "ab", with "c" and "d" inside it
abbrev nest : Nest
nest = inside (97 ∷ 98 ∷ []) (inside (99 ∷ []) nothing (inside (100 ∷ []) nothing nothing)) nothing

abbrev no_region : List ℕ
no_region = replicate 1024 0

nest-Fits : Fits [] nest
unfolding has_dot
nest-Fits = (
  (refl, (omega arith, (omega arith, tt)), omega arith),
  omega arith,
  (
    (refl, (omega arith, tt), omega arith),
    omega arith,
    tt,
    ((refl, (omega arith, tt), omega arith), omega arith, tt, tt),
  ),
  tt,
)

no_region-IsAt : IsAt [] no_region
unfolding c_string replicate
no_region-IsAt = (length-replicate {A = ℕ} 1024 0, refl)

visit-Restored_example : Returns (visit nest no_region) (IsAt [])
visit-Restored_example = visit-Restored nest [] no_region nest-Fits no_region-IsAt

letters-IsText : (n : ℕ) → IsText (replicate n 98)
unfolding replicate
letters-IsText zero = tt
letters-IsText (suc n) = (omega arith, letters-IsText n)

letters-plain : (n : ℕ) → has_dot (replicate n 98) ≡ false
unfolding replicate has_dot
letters-plain zero = refl
letters-plain (suc n) = letters-plain n

abbrev in_a : List ℕ
in_a = 97 ∷ replicate 1023 0

in_a-IsAt : IsAt (97 ∷ []) in_a
unfolding c_string replicate
in_a-IsAt = (omega (arith, length-replicate {A = ℕ} 1023 0), refl)

-- a region with the name "a", and a name that fills the array
region_enter-Unterminated_example :
    Returns (region_enter (replicate 1022 98) in_a) (λ r. c_string r ≡ none)
region_enter-Unterminated_example =
    region_enter-Unterminated (replicate 1022 98) 97 [] in_a
      (letters-plain 1022, letters-IsText 1022, omega (arith, length-replicate {A = ℕ} 1022 98))
      in_a-IsAt (omega arith) (omega (arith, length-replicate {A = ℕ} 1022 98))
