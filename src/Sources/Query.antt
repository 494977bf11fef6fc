-- ===== src/Sources/Query.antt =====
-- `mpiPi_query_src` of mpiP-callsites.c: what it does to the record.
use a_mpi_p.Prelude.{ℕ, ◌≡◌, refl, Option, none, some, List, Returns, ◌∙◌, ap}
use a_mpi_p.Hash.Insert.{h_search-view, h_insert_total}
use a_mpi_p.Hash.Buckets.{view}
use a_mpi_p.Globals.{Globals}
use a_mpi_p.Callsites.{CallsiteStats}
use a_mpi_p.Sources.{SrcLoc, PcEntry}
use a_mpi_p.Sources.Stacks.{SrcIdEntry, src_id_cache_fns}
use a_mpi_p.Sources.Lookup.{
  Sources, src_id_entry, assign_id, query_src, fill, new_id, assigned, located, src_id_key,
}
use a_mpi_p.Sources.Cache.{IsCache, frames_of, query_frames-frames_of}

-- `q` is `p` with an id and with source locations
abbrev pub IsLocated : (p q : CallsiteStats) → Type 0
IsLocated p q =
    q
    ≡ record p { csid = q.csid; filename = q.filename; functname = q.functname; lineno = q.lineno }

module _ (g : Globals) (find : ℕ → SrcLoc) where
  assign_id-returns :
      (s : Sources) (p : CallsiteStats) (frames : List PcEntry) (o : Option SrcIdEntry)
      → Returns
          (assign_id g s p frames o)
          (λ r. (r.0 ≡ record p { csid = r.0.csid }) × (r.1.pc_cache ≡ s.pc_cache))
  unfolding assign_id
  assign_id-returns s p frames (some e) = ((record p { csid = e.id }, s), refl, (refl, refl))
  assign_id-returns s p frames none =
      let (r, run, _) =
        h_insert_total (src_id_cache_fns g) s.src_id_cache
          (src_id_entry g p frames (new_id g s p)) in
      (assigned g s p r.1, rw run, (refl, refl))

  -- If the address cache is right, the query of the source of a record returns and changes no
  -- field of it but its id and its source locations. The file names and line numbers of its
  -- frames, down to the stack depth or the first NULL, are those of a lookup without a cache, and
  -- the address cache stays right.
  pub query_src-IsLocated :
      (s : Sources) (p : CallsiteStats)
      → IsCache find s.pc_cache
      → Returns (query_src g find s p) λ r.
        IsLocated p r.0
        × IsCache find r.1.pc_cache
        × (r.0.filename
            ≡ fill (λ e. some e.filename) (frames_of find g g.full_stack_depth p.pc) p.filename)
        × (r.0.lineno ≡ fill (λ e. e.line) (frames_of find g g.full_stack_depth p.pc) p.lineno)
  unfolding query_src
  query_src-IsLocated s p c =
      let (fr, run, (frames, kept)) =
        query_frames-frames_of find g g.full_stack_depth p.pc s.pc_cache c in
      let p' = located p fr.0 in
      let found = view (src_id_cache_fns g) s.src_id_cache (src_id_key g p fr.0) in
      let (r, done, (same, cache)) =
        assign_id-returns (record s { pc_cache = fr.1 }) p' fr.0 found in
      let file : r.0.filename ≡ p'.filename = ap (λ (x : CallsiteStats). x.filename) same in
      let function : r.0.functname ≡ p'.functname = ap (λ (x : CallsiteStats). x.functname) same in
      let line : r.0.lineno ≡ p'.lineno = ap (λ (x : CallsiteStats). x.lineno) same in
      (
        r,
        rw run (rw h_search-view done),
        (same ∙ rw (file, function, line), rw cache kept, file ∙ rw frames, line ∙ rw frames),
      )
