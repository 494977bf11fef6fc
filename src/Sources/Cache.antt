-- ===== src/Sources/Cache.antt =====
-- The cache of `mpiPi_query_pc` of mpiP-callsites.c against a lookup without a cache.
use a_mpi_p.Prelude.{
  ℕ, zero, suc, ◌≡◌, refl, true, ◌==◌, if◌then◌else◌, Bool-cases, Option-cases, none, some, inl,
  inr, List, [], ◌∷◌, arith, Returns, or_else, ◌∙◌, sym, ap,
}
use a_mpi_p.Chain.{matches}
use a_mpi_p.Hash.{HashTable, empty_table}
use a_mpi_p.Hash.Buckets.{
  IsHashable, view, view_congr, IsValid, empty_table-IsValid, view-empty_table,
}
use a_mpi_p.Hash.Insert.{Inserted, h_search-view, h_insert-Inserted}
use a_mpi_p.Globals.{Globals}
use a_mpi_p.Sources.{
  PcEntry, pc_cache_comparator, pc_cache_hashkey, pc_fns, unknown, SrcLoc, new_pc_entry, pc_key,
  query_code, query_pc,
}
use a_mpi_p.Sources.Lookup.{query_frame, query_frames}

pub pc_fns-IsHashable : IsHashable pc_fns
unfolding pc_cache_comparator pc_cache_hashkey
pc_fns-IsHashable = record {
  comparator = record {
    matches_refl = λ a. ground arith;
    matches_symm = λ a b h. ground arith;
    matches_trans = λ a b c h k. ground arith;
  };
  agree = λ a b h. let same : a.pc ≡ b.pc = ground arith in rw same;
}

same_pc : (a b : PcEntry) → matches pc_fns.hc a b ≡ true → a.pc ≡ b.pc
unfolding pc_cache_comparator
same_pc a b h = ground arith

module _ (find : ℕ → SrcLoc) where
  abbrev pub resolve : ℕ → PcEntry
  resolve pc = new_pc_entry pc (find pc)

  -- a valid cache in which every key finds nothing, or what a lookup of its address gives
  pub record IsCache (cache : HashTable PcEntry) : Type 0 where
    pub valid : IsValid pc_fns cache
    pub right : (q e : PcEntry) → view pc_fns cache q ≡ some e → e ≡ resolve q.pc

  pub empty_table-IsCache : IsCache (empty_table 5)
  empty_table-IsCache = record {
    valid = empty_table-IsValid pc_fns 5 (omega arith);
    right = λ q e h. let nothing = view-empty_table pc_fns 5 q in absurd (cc);
  }

  resolve-pc : (pc : ℕ) → (resolve pc).pc ≡ pc
  unfolding new_pc_entry
  resolve-pc pc = elim (Option-cases (find pc)) [ inl e ↦ rw e | inr (loc, e) ↦ rw e ]

  resolve-matches : (pc : ℕ) → matches pc_fns.hc (resolve pc) (pc_key pc) ≡ true
  unfolding pc_cache_comparator
  resolve-matches pc = ground (arith, resolve-pc pc)

  Inserted-IsCache :
      (cache : HashTable PcEntry) (pc : ℕ) (r : ℕ × HashTable PcEntry)
      → IsCache cache
      → view pc_fns cache (resolve pc) ≡ none
      → Inserted pc_fns cache (resolve pc) r
      → IsCache r.1
  unfolding or_else
  Inserted-IsCache cache pc r c absent ins = record {
    valid = ins.valid;
    right = λ q e h. elim (Bool-cases (matches pc_fns.hc (resolve pc) q)) [
      | inl m ↦
          let now : view pc_fns r.1 q ≡ some (resolve pc) = ins.reads q ∙ rw (m, absent) in
          let there : pc ≡ q.pc = sym (resolve-pc pc) ∙ same_pc (resolve pc) q m in
          let new : e ≡ resolve pc = cc in new ∙ ap resolve there
      | inr m ↦ c.right q e (sym (ins.reads q ∙ rw m) ∙ h)
    ];
  }

  query_miss :
      (cache : HashTable PcEntry) (pc : ℕ)
      → IsCache cache
      → view pc_fns cache (pc_key pc) ≡ none
      → Returns
          (query_pc find cache pc)
          (λ r. (r.0 ≡ (resolve pc, query_code (resolve pc))) × IsCache r.1)
  unfolding query_pc or_else
  query_miss cache pc c miss =
      let absent =
        view_congr pc_fns pc_fns-IsHashable cache (resolve pc) (pc_key pc) (resolve-matches pc)
        ∙ miss in
      let (r, run, ins) = h_insert-Inserted pc_fns pc_fns-IsHashable cache c.valid (resolve pc) in
      (
        ((resolve pc, query_code (resolve pc)), r.1),
        rw (h_search-view, miss) (rw run),
        (refl, Inserted-IsCache cache pc r c absent ins),
      )

  query_hit :
      (cache : HashTable PcEntry) (pc : ℕ)
      → IsCache cache
      → (e : PcEntry) → view pc_fns cache (pc_key pc) ≡ some e
      → Returns
          (query_pc find cache pc)
          (λ r. (r.0 ≡ (resolve pc, query_code (resolve pc))) × IsCache r.1)
  unfolding query_pc
  query_hit cache pc c e hit =
      let right : e ≡ resolve pc = c.right (pc_key pc) e hit in
      (((e, query_code e), cache), rw (h_search-view, hit), (rw right, c))

  -- If the cache is valid and every key finds in it nothing or what a lookup of its address gives,
  -- the cached query returns what a lookup without a cache gives, with the code of that entry, and
  -- leaves such a cache.
  pub query_pc-resolve :
      (cache : HashTable PcEntry) (pc : ℕ)
      → IsCache cache
      → Returns
          (query_pc find cache pc)
          (λ r. (r.0 ≡ (resolve pc, query_code (resolve pc))) × IsCache r.1)
  query_pc-resolve cache pc c = elim (Option-cases (view pc_fns cache (pc_key pc))) [
    | inl miss ↦ query_miss cache pc c miss
    | inr (e, hit) ↦ query_hit cache pc c e hit
  ]

  -- the entries of a stack without a cache, down to the depth or to the first NULL
  pub entry_of : Globals → ℕ → PcEntry
  entry_of g pc =
      if g.do_lookup
      then resolve pc
      else record { pc = pc; filename = unknown; functname = unknown; line = 0 }

  pub frames_of : Globals → (depth : ℕ) → List ℕ → List PcEntry
  frames_of g zero pcs = []
  frames_of g (suc n) [] = []
  frames_of g (suc n) (pc ∷ pcs) =
      let rest = entry_of g pc ∷ frames_of g n pcs in if pc == 0 then [] else rest

  query_frame-entry_of :
      (g : Globals) (cache : HashTable PcEntry) (pc : ℕ)
      → IsCache cache
      → Returns (query_frame g find cache pc) (λ r. (r.0 ≡ entry_of g pc) × IsCache r.1)
  unfolding query_frame entry_of
  query_frame-entry_of g cache pc c = elim (Bool-cases g.do_lookup) [
    | inr off ↦ rw off ((_, cache), refl, (refl, c))
    | inl on ↦
        let (r, run, (e, kept)) = query_pc-resolve cache pc c in
        rw on ((r.0.0, r.1), rw run, (ap (λ x. x.0) e, kept))
  ]

  pub query_frames-frames_of :
      (g : Globals) (depth : ℕ) (pcs : List ℕ) (cache : HashTable PcEntry)
      → IsCache cache
      → Returns
          (query_frames g find cache depth pcs)
          (λ r. (r.0 ≡ frames_of g depth pcs) × IsCache r.1)
  unfolding query_frames frames_of
  query_frames-frames_of g zero pcs cache c = (([], cache), refl, (refl, c))
  query_frames-frames_of g (suc n) [] cache c = (([], cache), refl, (refl, c))
  query_frames-frames_of g (suc n) (pc ∷ pcs) cache c = elim (Bool-cases (pc == 0)) [
    | inl stop ↦ rw stop (([], cache), refl, (refl, c))
    | inr go ↦
        let (first, run, (e, kept)) = query_frame-entry_of g cache pc c in
        let (r, rest, (es, still)) = query_frames-frames_of g n pcs first.1 kept in
        rw go ((first.0 ∷ r.0, r.1), rw run (rw rest), (rw (e, es), still))
  ]
