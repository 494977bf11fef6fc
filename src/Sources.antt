-- ===== src/Sources.antt =====
-- The second part of mpiP-callsites.c, with the cache from addresses to source lines;
-- Sources/Stacks has the keys of the cache from call stacks to call-site ids, and Sources/Lookup
-- its use. `find` is `mpiP_find_src_loc`, which reads the debugging information of the executable;
-- `none` is its failure. What a local key leaves unset is zero.
pub mod Stacks
pub mod Lookup
pub mod Cache
pub mod Query
use a_mpi_p.Prelude.{
  ℕ, zero, suc, ◌+◌, ◌-◌, ◌^◌, bit_xor, Bool, true, false, ◌&&◌, Option, none, some, List, [], ◌∷◌,
  ◌==◌, ltb, if◌then◌else◌, ℤ, pos, negsuc, is_zero, Run, ok, ◌>>=◌, get_or, replicate,
}
use a_mpi_p.Hash.{HashFns, HashTable, h_open, h_search, h_insert}
use a_mpi_p.Globals.{Globals}
use a_mpi_p.Callsites.{Text, CallsiteStats}
use a_mpi_p.Callsites.Keys.{express}

-- `callsite_pc_cache_entry_t`
pub record PcEntry : Type 0 where
  pub pc : ℕ
  pub filename : Text
  pub functname : Text
  pub line : ℕ

unfoldable pub pc_cache_comparator : PcEntry → PcEntry → ℤ
pc_cache_comparator a b = express a.pc b.pc (pos 0)

unfoldable pub pc_cache_hashkey : PcEntry → ℕ
pc_cache_hashkey a = bit_xor 662917 a.pc

abbrev pub pc_fns : HashFns PcEntry
pc_fns = record { hf = pc_cache_hashkey; hc = pc_cache_comparator }

-- "[unknown]" and "??"
abbrev pub unknown : Text
unknown = 91 ∷ 117 ∷ 110 ∷ 107 ∷ 110 ∷ 111 ∷ 119 ∷ 110 ∷ 93 ∷ []

-- `strcmp`, by its sign
unfoldable pub strcmp : Text → Text → ℤ
strcmp [] [] = pos 0
strcmp [] (b ∷ bs) = negsuc 0
strcmp (a ∷ xs) [] = pos 1
strcmp (a ∷ xs) (b ∷ bs) = express a b (strcmp xs bs)

abbrev pub SrcLoc : Type 0
SrcLoc = Option (Option Text × ℕ × Option Text)

file_or_unknown : Option Text → Text
unfolding strcmp
file_or_unknown none = unknown
file_or_unknown (some name) = if is_zero (strcmp name (63 ∷ 63 ∷ [])) then unknown else name

function_or_unknown : Option Text → Text
function_or_unknown none = unknown
function_or_unknown (some name) = name

-- The entry that `mpiPi_query_pc` makes for an address.
unfoldable pub new_pc_entry : ℕ → SrcLoc → PcEntry
unfolding file_or_unknown function_or_unknown
new_pc_entry pc none = record { pc = pc; filename = unknown; functname = unknown; line = 0 }
new_pc_entry pc (some (file, line, function)) = record {
  pc = pc;
  filename = file_or_unknown file;
  functname = function_or_unknown function;
  line = line;
}

abbrev pub pc_key : ℕ → PcEntry
pc_key pc = record { pc = pc; filename = []; functname = []; line = 0 }

-- the return code, 1 for a failed lookup
abbrev pub query_code : PcEntry → ℕ
query_code e = if e.line == 0 then 1 else 0

-- `mpiPi_query_pc`: the entry whose fields are returned, the code and the cache
unfoldable pub query_pc :
    (find : ℕ → SrcLoc) → HashTable PcEntry → (pc : ℕ) → Run ((PcEntry × ℕ) × HashTable PcEntry)
unfolding new_pc_entry
query_pc find cache pc = do
  found ← h_search pc_fns (some cache) (some (pc_key pc))
  elim found [
    | some e ↦ ok ((e, query_code e), cache)
    | none ↦ do
      let e = new_pc_entry pc (find pc)
      (_, cache') ← h_insert pc_fns (some cache) (some e)
      ok ((e, query_code e), cache')
  ]
