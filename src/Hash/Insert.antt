-- ===== src/Hash/Insert.antt =====
-- `h_search` and `h_insert` of mpiP-hash.c against the table seen as a map, and the write through
-- the pointer that a search returns.
use a_mpi_p.Prelude.{
  ℕ, ◌+◌, ◌≡◌, refl, true, Bool-cases, Option-cases, none, some, inl, inr, arith, if◌then◌else◌, ok,
  Returns, is_some, or_else, ◌∷◌, sym, ◌∙◌,
}
use a_mpi_p.Chain.{matches, find, count, count-eq-zero, length-modify, count-modify, find-modify}
use a_mpi_p.Hash.{
  HashFns, HashTable, table_index, chain_of, put_chain, h_insert, h_search, write_through,
}
use a_mpi_p.Hash.Buckets.{
  IsHashable, view, IsValid, put_chain-IsValid, view-put_chain_update, view_congr, index_congr,
}

module _ {ℓ} {A : Type ℓ} (fns : HashFns A) where
  -- `h_search` returns what the map holds.
  pub h_search-view :
      (ht : HashTable A) (k : A) → h_search fns (some ht) (some k) ≡ ok (view fns ht k)
  unfolding h_search view
  h_search-view ht k = refl

  -- The outcome of an insertion of `x`: code 1 and nothing changed where an identical record is
  -- there, and else code 0, one record more, found by exactly the keys that match it.
  pub record Inserted (ht : HashTable A) (x : A) (r : ℕ × HashTable A) : Type ℓ where
    -- the table itself is left as it was if it has a match
    pub unchanged : is_some (view fns ht x) ≡ true → r.1 ≡ ht
    pub code : r.0 ≡ (if is_some (view fns ht x) then 1 else 0)
    pub valid : IsValid fns r.1
    pub size : r.1.size ≡ ht.size
    pub grown : r.1.count + r.0 ≡ ht.count + 1
    pub reads :
        (q : A)
        → view fns r.1 q
          ≡ (if matches fns.hc x q then or_else (view fns ht x) (some x) else view fns ht q)

  module _ (h : IsHashable fns) (ht : HashTable A) (v : IsValid fns ht) where
    insert_dup :
        (x e : A)
        → view fns ht x ≡ some e
        → Returns (h_insert fns (some ht) (some x)) (Inserted ht x)
    unfolding h_insert view or_else
    insert_dup x e dup = (
      (1, ht),
      rw dup,
      record {
        unchanged = λ k. refl;
        code = rw dup;
        valid = v;
        size = refl;
        grown = refl;
        reads = λ q. elim (Bool-cases (matches fns.hc x q)) [
          | inl m ↦ rw (m, dup) (sym (view_congr fns h ht x q m) ∙ dup)
          | inr m ↦ rw m
        ];
      },
    )

    insert_new :
        (x : A) → view fns ht x ≡ none → Returns (h_insert fns (some ht) (some x)) (Inserted ht x)
    unfolding h_insert view or_else count find
    insert_new x new = (
      (0, put_chain fns ht x (ht.count + 1) (x ∷ chain_of fns ht x)),
      rw new,
      record {
        unchanged = λ k. (let no : is_some {A = A} none ≡ true = rw new at k in absurd cc);
        code = rw new;
        valid =
            put_chain-IsValid fns ht v x (ht.count + 1) _ (omega arith)
              (λ q. ground (
                arith,
                v.placed q (table_index fns ht x),
                count-eq-zero fns.hc h.comparator x q (chain_of fns ht x) new,
              ))
              (λ q away.
                ground (arith, v.placed q (table_index fns ht x), index_congr fns h ht x q));
        size = refl;
        grown = omega arith;
        reads =
            view-put_chain_update fns ht v x (ht.count + 1) _ h (or_else (view fns ht x) (some x))
              (λ q. rw new);
      },
    )

    -- For callbacks that fit each other and a valid table, `h_insert` of a record returns code 1
    -- and the table as it was if the table has a record that matches, and else code 0. The table
    -- that it leaves is valid and of the same size, has one record more in the second case, and
    -- every key that matches the new record finds the old match or else the new record, and every
    -- other key what it found before.
    pub h_insert-Inserted : (x : A) → Returns (h_insert fns (some ht) (some x)) (Inserted ht x)
    h_insert-Inserted x = elim (Option-cases (view fns ht x)) [
      | inl new ↦ insert_new x new
      | inr (e, dup) ↦ insert_dup x e dup
    ]

    -- A write through the pointer that `h_search` returned, to fields that no key consists of.
    pub write_through-IsValid :
        (k : A) (f : A → A)
        → ((a : A) → matches fns.hc (f a) a ≡ true)
        → IsValid fns (write_through fns ht k f)
    unfolding write_through
    write_through-IsValid k f same =
        put_chain-IsValid fns ht v k ht.count _ (rw length-modify)
          (λ q. rw (count-modify fns.hc h.comparator f same) (v.placed q _).0)
          (λ q away. rw (count-modify fns.hc h.comparator f same) ((v.placed q _).1 away))

    -- For callbacks that fit each other and a valid table, let a key find a record, and let a
    -- write through the pointer that the search returned keep the record a match of what it was.
    -- Then the keys that match find the written record, and every other key what it found before.
    pub view-write_through :
        (k : A) (f : A → A)
        → ((a : A) → matches fns.hc (f a) a ≡ true)
        → (e : A) → view fns ht k ≡ some e
        → (q : A)
        → view fns (write_through fns ht k f) q
          ≡ (if matches fns.hc k q then some (f e) else view fns ht q)
    unfolding write_through view
    view-write_through k f same e found =
        view-put_chain_update fns ht v k ht.count _ h (some (f e))
          (λ q. find-modify fns.hc h.comparator f same k q _ e found)

  -- An insertion of a record into a table returns, also where nothing is known of the callbacks.
  pub h_insert_total :
      (ht : HashTable A) (x : A) → Returns (h_insert fns (some ht) (some x)) (λ r. Unit {0})
  unfolding h_insert view
  h_insert_total ht x = elim (Option-cases (view fns ht x)) [
    | inl new ↦ rw new (_, refl, tt)
    | inr (e, dup) ↦ rw dup (_, refl, tt)
  ]
