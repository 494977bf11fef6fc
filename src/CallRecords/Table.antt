-- ===== src/CallRecords/Table.antt =====
-- The search for a key and the creation of its record, as `mpiPi_stats_thr_cs_upd` and
-- `mpiPi_stats_thr_cs_merge` of mpiP-stats.c make them, against the table seen as a map.
use a_mpi_p.Prelude.{
  ℕ, zero, suc, ◌+◌, ◌≤◌, ◌<◌, ◌≡◌, refl, true, Bool-cases, Option-cases, Option, none, some, inl,
  inr, List, [], ◌∷◌, arith, if◌then◌else◌, Returns, sym, ◌∙◌, get_or, replicate, get_or-replicate,
  Bool, or_else, ◌>>=◌,
}
use a_mpi_p.Chain.{matches, matches_congr_left}
use a_mpi_p.Hash.{HashTable}
use a_mpi_p.Hash.Buckets.{view, IsValid, view_congr}
use a_mpi_p.Hash.Insert.{h_search-view, h_insert-Inserted}
use a_mpi_p.Globals.{Globals}
use a_mpi_p.Callsites.{CallsiteStats, copy_pcs}
use a_mpi_p.Callsites.Keys.{thread_fns, trd_pc_comparator, thread_fns-IsHashable, matches_of_same}
use a_mpi_p.CallRecords.{new_record, created, find_or_create, call_key}

get_or-copy_pcs :
    (depth n : ℕ) (src : List ℕ) (i : ℕ)
    → depth ≤ n
    → i < depth
    → get_or (copy_pcs depth (replicate n 0) src) i 0 ≡ get_or src i 0
unfolding copy_pcs replicate get_or
get_or-copy_pcs zero n src i le lt = absurd (omega arith)
get_or-copy_pcs (suc d) zero src i le lt = absurd (omega arith)
get_or-copy_pcs (suc d) (suc n) [] zero le lt = refl
get_or-copy_pcs (suc d) (suc n) [] (suc i) le lt = get_or-replicate n i 0
get_or-copy_pcs (suc d) (suc n) (s ∷ src) zero le lt = refl
get_or-copy_pcs (suc d) (suc n) (s ∷ src) (suc i) le lt =
    get_or-copy_pcs d n src i (omega arith) (omega arith)

-- the table of a thread seen as a map from keys to records
abbrev pub records : Globals → HashTable CallsiteStats → CallsiteStats → Option CallsiteStats
records g = view (thread_fns g.full_stack_depth)

abbrev pub IsTable : Globals → HashTable CallsiteStats → Type 0
IsTable g = IsValid (thread_fns g.full_stack_depth)

-- two records of one call site, in one operation and rank
abbrev pub same_site : Globals → CallsiteStats → CallsiteStats → Bool
same_site g = matches (trd_pc_comparator g.full_stack_depth)

abbrev pub or_new : Option CallsiteStats → CallsiteStats → CallsiteStats
or_new none fresh = fresh
or_new (some r) fresh = r

pub new_record-call_key :
    (g : Globals) (pc : List ℕ) (op rank ctr : ℕ)
    → same_site g (new_record g pc op rank ctr) (call_key g pc op rank) ≡ true
unfolding new_record call_key
new_record-call_key g pc op rank ctr =
    matches_of_same g.full_stack_depth _ _ refl refl (λ j lt. refl)

pub new_record-same_site :
    (g : Globals) (src : CallsiteStats) (ctr : ℕ)
    → g.full_stack_depth ≤ g.stack_depth_max
    → same_site g (new_record g src.pc src.op src.rank ctr) src ≡ true
unfolding new_record
new_record-same_site g src ctr le =
    matches_of_same g.full_stack_depth _ src refl refl
      (λ j lt. get_or-copy_pcs g.full_stack_depth g.stack_depth_max src.pc j le lt)

-- The outcome: the record of the key, made from `fresh` where there was none, is in the table, and
-- nothing else has changed.
pub record Found (g : Globals) (table : HashTable CallsiteStats) (key fresh : CallsiteStats)
    (r : CallsiteStats × HashTable CallsiteStats × ℕ) : Type 0 where
  pub csp : r.0 ≡ or_new (records g table key) fresh
  pub valid : IsTable g r.1
  pub reads :
      (q : CallsiteStats)
      → records g r.1 q ≡ (if same_site g key q then some r.0 else records g table q)

module _ (g : Globals) (table : HashTable CallsiteStats) (v : IsTable g table) (key : CallsiteStats)
    (pc : List ℕ) (op rank ctr : ℕ)
    (same : same_site g (new_record g pc op rank ctr) key ≡ true) where
  Found-old :
      (e : CallsiteStats)
      → records g table key ≡ some e
      → Returns
          (created g table pc op rank ctr (some e))
          (Found g table key (new_record g pc op rank ctr))
  unfolding created
  Found-old e old = (
    (e, table, ctr),
    refl,
    record {
      csp = rw old;
      valid = v;
      reads = λ q. elim (Bool-cases (same_site g key q)) [
        | inl m ↦ rw m (sym (view_congr _ (thread_fns-IsHashable _) table key q m) ∙ old)
        | inr m ↦ rw m
      ];
    },
  )

  Found-new :
      records g table key ≡ none
      → Returns
          (created g table pc op rank ctr none)
          (Found g table key (new_record g pc op rank ctr))
  unfolding created
  Found-new none_yet =
      let hash = thread_fns-IsHashable g.full_stack_depth in
      let csp = new_record g pc op rank ctr in
      let absent : records g table csp ≡ none = view_congr _ hash table csp key same ∙ none_yet in
      let ((rc, table'), run, ins) =
        h_insert-Inserted (thread_fns g.full_stack_depth) hash table v csp in
      (
        (csp, table', ctr + 1),
        rw run,
        record {
          csp = rw none_yet;
          valid = ins.valid;
          reads = λ q.
              ins.reads q
              ∙ rw (absent, matches_congr_left _ hash.comparator csp key q same)
                  (unfold or_else in refl);
        },
      )

  -- If a table is valid and the record made for a call matches the key, the search with creation
  -- returns the record of the key, or the new one if there was none, and leaves a valid table in
  -- which the keys that match find that record and the others what they found before.
  pub find_or_create-Found :
      Returns
        (find_or_create g table key pc op rank ctr)
        (Found g table key (new_record g pc op rank ctr))
  unfolding find_or_create
  find_or_create-Found =
      rw (h_search-view, ◌>>=◌)
        (elim (Option-cases (records g table key)) [
          | inl none_yet ↦ rw none_yet (Found-new none_yet)
          | inr (e, old) ↦ rw old (Found-old e old)
        ])
