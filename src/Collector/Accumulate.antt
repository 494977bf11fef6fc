-- ===== src/Collector/Accumulate.antt =====
-- The step `search, then insert or merge` of mpiPi.c against the table seen as a map.
use a_mpi_p.Prelude.{
  ◌≡◌, true, if◌then◌else◌, Bool-cases, Option-cases, Option, none, some, inl, inr, Returns,
  or_else, ◌∙◌, sym,
}
use a_mpi_p.Chain.{matches, matches_congr_left}
use a_mpi_p.Hash.{HashFns, HashTable, write_through}
use a_mpi_p.Hash.Buckets.{IsHashable, view, view_congr, IsValid}
use a_mpi_p.Hash.Insert.{
  h_search-view, h_insert-Inserted, write_through-IsValid, view-write_through,
}
use a_mpi_p.Callsites.{CallsiteStats}
use a_mpi_p.Collector.{accumulate}

module _ (fns : HashFns CallsiteStats) (hash : IsHashable fns)
    (fresh : CallsiteStats → CallsiteStats) (merge : CallsiteStats → CallsiteStats → CallsiteStats)
    (keeps_fresh : (p : CallsiteStats) → matches fns.hc (fresh p) p ≡ true)
    (keeps_merge : (a p : CallsiteStats) → matches fns.hc (merge a p) a ≡ true) where
  -- the record of the key behind the step
  abbrev pub joined : Option CallsiteStats → CallsiteStats → CallsiteStats
  joined none p = fresh p
  joined (some a) p = merge a p

  -- The table is valid, the keys that match find the joined record, and the others what they found.
  pub record Accumulated (table : HashTable CallsiteStats) (p : CallsiteStats)
      (r : HashTable CallsiteStats) : Type 0 where
    pub valid : IsValid fns r
    pub reads :
        (q : CallsiteStats)
        → view fns r q
          ≡ (if matches fns.hc p q then some (joined (view fns table q) p) else view fns table q)

  module _ (table : HashTable CallsiteStats) (v : IsValid fns table) (p : CallsiteStats) where
    accumulate_new :
        view fns table p ≡ none → Returns (accumulate fns fresh merge table p) (Accumulated table p)
    unfolding accumulate or_else
    accumulate_new miss =
        let (r, run, ins) = h_insert-Inserted fns hash table v (fresh p) in
        let absent : view fns table (fresh p) ≡ none =
          view_congr fns hash table (fresh p) p (keeps_fresh p) ∙ miss in
        (
          r.1,
          rw (h_search-view, miss) (rw run),
          record {
            valid = ins.valid;
            reads = λ q.
                ins.reads q
                ∙ rw
                    (
                      absent,
                      matches_congr_left fns.hc hash.comparator (fresh p) p q (keeps_fresh p),
                    )
                    (elim (Bool-cases (matches fns.hc p q)) [
                      | inl m ↦
                          let none_there : view fns table q ≡ none =
                            sym (view_congr fns hash table p q m) ∙ miss in
                          rw (m, none_there)
                      | inr m ↦ rw m
                    ]);
          },
        )

    accumulate_old :
        (e : CallsiteStats)
        → view fns table p ≡ some e
        → Returns (accumulate fns fresh merge table p) (Accumulated table p)
    unfolding accumulate
    accumulate_old e hit = (
      write_through fns table p (λ dst. merge dst p),
      rw (h_search-view, hit),
      record {
        valid = write_through-IsValid fns hash table v p _ (λ a. keeps_merge a p);
        reads = λ q.
            view-write_through fns hash table v p (λ dst. merge dst p) (λ a. keeps_merge a p) e hit
              q
            ∙ elim (Bool-cases (matches fns.hc p q)) [
              | inl m ↦
                  let there : view fns table q ≡ some e =
                    sym (view_congr fns hash table p q m) ∙ hit in
                  rw (m, there)
              | inr m ↦ rw m
            ];
      },
    )

    -- Let the callbacks fit each other, let a fresh record match the record that it is made from,
    -- and a merge the one that it writes. On a valid table the step that searches for a record and
    -- then inserts or merges returns a valid table; the keys that match the record find the merge
    -- with what they found, or the fresh record if they found nothing, and the others what they
    -- found.
    pub accumulate-Accumulated : Returns (accumulate fns fresh merge table p) (Accumulated table p)
    accumulate-Accumulated = elim (Option-cases (view fns table p)) [
      | inl miss ↦ accumulate_new miss
      | inr (e, hit) ↦ accumulate_old e hit
    ]
