-- ===== src/Sources/Lookup.antt =====
-- `mpiPi_cs_cache_init` and `mpiPi_query_src` of mpiP-callsites.c.
use a_mpi_p.Prelude.{
  ℕ, zero, suc, ◌+◌, ◌-◌, Option, none, some, List, [], ◌∷◌, ◌==◌, if◌then◌else◌, Run, ok, ◌>>=◌,
  replicate,
}
use a_mpi_p.Hash.{HashFns, HashTable, h_open, h_search, h_insert}
use a_mpi_p.Globals.{Globals}
use a_mpi_p.Callsites.{CallsiteStats}
use a_mpi_p.Sources.{PcEntry, SrcLoc, pc_fns, unknown, query_pc}
use a_mpi_p.Sources.Stacks.{SrcIdEntry, src_id_cache_fns}

-- `callsite_pc_cache`, `callsite_src_id_cache` and `callsite_src_id_counter`
pub record Sources : Type 0 where
  pub pc_cache : HashTable PcEntry
  pub src_id_cache : HashTable SrcIdEntry
  pub id_counter : ℕ

open_cache {ℓ} : {A : Type ℓ} → Globals → HashFns A → Option (HashTable A) → Run (HashTable A)
open_cache g fns (some cache) = ok cache
open_cache g fns none = do (_, cache) ← h_open g.table_size (some fns.hf) (some fns.hc); ok cache

-- `mpiPi_cs_cache_init`
unfoldable pub cs_cache_init :
    Globals
    → Option (HashTable PcEntry)
    → Option (HashTable SrcIdEntry)
    → (id_counter : ℕ) → Run Sources
unfolding open_cache
cs_cache_init g pcs ids id_counter = do
  pc_cache ← open_cache g pc_fns pcs
  src_id_cache ← open_cache g (src_id_cache_fns g) ids
  ok (record { pc_cache = pc_cache; src_id_cache = src_id_cache; id_counter = id_counter })

-- one frame of the loop of `mpiPi_query_src`
unfoldable pub query_frame :
    Globals → (ℕ → SrcLoc) → HashTable PcEntry → ℕ → Run (PcEntry × HashTable PcEntry)
query_frame g find cache pc =
    if g.do_lookup
    then (query_pc find cache pc >>= λ r. ok (r.0.0, r.1))
    else ok (record { pc = pc; filename = unknown; functname = unknown; line = 0 }, cache)

-- for (i = 0; (i < mpiPi.fullStackDepth) && (p->pc[i] != NULL); i++)
unfoldable pub query_frames :
    Globals
    → (ℕ → SrcLoc)
    → HashTable PcEntry
    → (depth : ℕ) → List ℕ
    → Run (List PcEntry × HashTable PcEntry)
unfolding query_frame
query_frames g find cache zero pcs = ok ([], cache)
query_frames g find cache (suc n) [] = ok ([], cache)
query_frames g find cache (suc n) (pc ∷ pcs) = if pc == 0 then ok ([], cache) else do
  (e, cache') ← query_frame g find cache pc
  (rest, cache'') ← query_frames g find cache' n pcs
  ok (e ∷ rest, cache'')

-- dst[i] = f (frames[i])
abbrev pub fill {ℓ} : {A : Type ℓ} → (PcEntry → A) → List PcEntry → List A → List A
fill f [] dst = dst
fill f (e ∷ es) [] = []
fill f (e ∷ es) (d ∷ dst) = f e ∷ fill f es dst

-- the key of `mpiPi_query_src`, and with its id the entry that is made
abbrev pub src_id_entry : Globals → CallsiteStats → List PcEntry → (id : ℕ) → SrcIdEntry
src_id_entry g p frames id = record {
  id = id;
  op = p.op;
  tmpid = p.tmpid;
  filename = fill (λ e. some e.filename) frames (replicate g.stack_depth_max none);
  functname = fill (λ e. some e.functname) frames (replicate g.stack_depth_max none);
  line = fill (λ e. e.line) frames (replicate g.stack_depth_max 0);
  pc = fill (λ e. e.pc) frames (replicate g.stack_depth_max 0);
}

-- the id of a new entry, and the state with the entry
abbrev pub new_id : Globals → Sources → CallsiteStats → ℕ
new_id g s p = if g.report_stack_depth == 0 then p.op - g.base else s.id_counter

abbrev pub assigned :
    Globals → Sources → CallsiteStats → HashTable SrcIdEntry → CallsiteStats × Sources
assigned g s p cache = (
  record p { csid = new_id g s p },
  record s {
    src_id_cache = cache;
    id_counter = if g.report_stack_depth == 0 then s.id_counter else s.id_counter + 1;
  },
)

-- the end of `mpiPi_query_src`, with what the search in the cache has found
unfoldable pub assign_id :
    Globals
    → Sources
    → CallsiteStats
    → List PcEntry
    → Option SrcIdEntry
    → Run (CallsiteStats × Sources)
assign_id g s p frames (some e) = ok (record p { csid = e.id }, s)
assign_id g s p frames none = do
  (_, cache) ←
      h_insert (src_id_cache_fns g) (some s.src_id_cache)
        (some (src_id_entry g p frames (new_id g s p)))
  ok (assigned g s p cache)

-- the record with its source locations, and the local `key`
abbrev pub located : CallsiteStats → List PcEntry → CallsiteStats
located p frames = record p {
  filename = fill (λ e. some e.filename) frames p.filename;
  functname = fill (λ e. some e.functname) frames p.functname;
  lineno = fill (λ e. e.line) frames p.lineno;
}

abbrev pub src_id_key : Globals → CallsiteStats → List PcEntry → SrcIdEntry
src_id_key g p frames = record (src_id_entry g p frames (p.op - g.base)) { op = 0; tmpid = 0 }

-- `mpiPi_query_src`
unfoldable pub query_src :
    Globals → (ℕ → SrcLoc) → Sources → CallsiteStats → Run (CallsiteStats × Sources)
unfolding assign_id
query_src g find s p = do
  (frames, pc_cache) ← query_frames g find s.pc_cache g.full_stack_depth p.pc
  found ← h_search (src_id_cache_fns g) (some s.src_id_cache) (some (src_id_key g p frames))
  assign_id g (record s { pc_cache = pc_cache }) (located p frames) frames found
