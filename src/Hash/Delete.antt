-- ===== src/Hash/Delete.antt =====
-- `h_delete` of mpiP-hash.c against the table seen as a map.
use a_mpi_p.Prelude.{
  ◌+◌, ◌-◌, ◌≤◌, ◌≡◌, refl, Bool-cases, Option-cases, Option, none, some, inl, inr, arith,
  if◌then◌else◌, Returns, is_some, to_nat, length, sym, ◌∙◌, length-flatten-set, [],
}
use a_mpi_p.Chain.{matches, unlink, length-unlink, count-unlink-le, find-unlink}
use a_mpi_p.Hash.{HashFns, HashTable, table_index, chain_of, put_chain, h_delete}
use a_mpi_p.Hash.Buckets.{
  IsHashable, view, IsValid, put_chain-IsValid, view-put_chain_update, view_congr, table_index-lt,
}

module _ {ℓ} {A : Type ℓ} (fns : HashFns A) where
  -- The outcome of a deletion: what the map held is returned and, if there was something, is gone.
  pub record Deleted (ht : HashTable A) (k : A) (r : Option A × HashTable A) : Type ℓ where
    pub returns : r.0 ≡ view fns ht k
    pub valid : IsValid fns r.1
    pub size : r.1.size ≡ ht.size
    pub shrunk : r.1.count + to_nat (is_some r.0) ≡ ht.count
    pub reads : (q : A) → view fns r.1 q ≡ (if matches fns.hc k q then none else view fns ht q)

  module _ (h : IsHashable fns) (ht : HashTable A) (v : IsValid fns ht) (k : A) where
    length-chain-le : length (chain_of fns ht k) ≤ ht.count
    length-chain-le = omega (
      arith,
      length-flatten-set ht.table (table_index fns ht k) [] (table_index-lt fns k v),
      v.counted,
    )

    delete_none : view fns ht k ≡ none → Returns (h_delete fns (some ht) (some k)) (Deleted ht k)
    unfolding h_delete view
    delete_none absent = (
      (none, ht),
      rw (absent, h_delete),
      record {
        returns = sym absent;
        valid = v;
        size = refl;
        shrunk = omega arith;
        reads = λ q. elim (Bool-cases (matches fns.hc k q)) [
          | inl m ↦ rw m (sym (view_congr fns h ht k q m) ∙ absent)
          | inr m ↦ rw m
        ];
      },
    )

    delete_some :
        (e : A) → view fns ht k ≡ some e → Returns (h_delete fns (some ht) (some k)) (Deleted ht k)
    unfolding h_delete view
    delete_some e found =
        let c = chain_of fns ht k in
        let short = length-unlink fns.hc k c e found in
        (
          (some e, put_chain fns ht k (ht.count - 1) (unlink fns.hc k c)),
          rw (found, h_delete),
          record {
            returns = sym found;
            valid =
                put_chain-IsValid fns ht v k (ht.count - 1) _
                  (omega (arith, short, length-chain-le))
                  (λ q. omega (arith, count-unlink-le fns.hc k q c, (v.placed q _).0))
                  (λ q away. omega (arith, count-unlink-le fns.hc k q c, (v.placed q _).1 away));
            size = refl;
            shrunk = omega (arith, short, length-chain-le);
            reads =
                view-put_chain_update fns ht v k (ht.count - 1) _ h none
                  (λ q. find-unlink fns.hc h.comparator k q c (v.placed q _).0);
          },
        )

    -- For callbacks that fit each other and a valid table, `h_delete` of a key returns the record
    -- that the key found, if any, and leaves a valid table of the same size, whose count is one
    -- less if there was a record; the keys that match the given one find nothing in it, and every
    -- other key what it found before.
    pub h_delete-Deleted : Returns (h_delete fns (some ht) (some k)) (Deleted ht k)
    h_delete-Deleted = elim (Option-cases (view fns ht k)) [
      | inl absent ↦ delete_none absent
      | inr (e, found) ↦ delete_some e found
    ]
