-- ===== src/Hash/Buckets.antt =====
-- Where records stand in the table of mpiP-hash.c, what the table means as a map, and what
-- replacing one chain does to both.
use a_mpi_p.Prelude.{
  ℕ, zero, suc, ◌+◌, ◌%◌, ◌^◌, ◌≤◌, ◌<◌, ◌≡◌, ◌≢◌, refl, sym, ap, true, false, some, ok, pos, ltb_ℤ,
  Option, none, List, [], flatten, arith, ◌==◌, ==_iff, Bool-cases, inl, inr, if◌then◌else◌, length,
  get_or, length-set, get_or-set, length-flatten-set, replicate, length-replicate, get_or-replicate,
}
use a_mpi_p.Chain.{matches, IsComparator, find, count, find_congr}
use a_mpi_p.Hash.{
  HashFns, HashTable, empty_table, open_with, h_open, table_index, chain_of, put_chain,
}

-- what the table asks of its two callbacks: records that match have the same hash
pub record IsHashable {ℓ} {A : Type ℓ} (fns : HashFns A) : Type ℓ where
  pub comparator : IsComparator fns.hc
  pub agree : (a b : A) → matches fns.hc a b ≡ true → fns.hf a % 2 ^ 32 ≡ fns.hf b % 2 ^ 32

flatten-replicate {ℓ} : {A : Type ℓ} (size : ℕ) → flatten {A = A} (replicate size []) ≡ []
unfolding flatten replicate
flatten-replicate zero = refl
flatten-replicate (suc size) = flatten-replicate size

module _ {ℓ} {A : Type ℓ} (fns : HashFns A) where
  -- The record that the table holds for a key.
  unfoldable pub view : HashTable A → A → Option A
  view ht q = find fns.hc q (chain_of fns ht q)

  -- A key has at most one record, in the chain that its hash names.
  abbrev pub IsPlaced : HashTable A → Type ℓ
  IsPlaced ht =
      (q : A) (i : ℕ)
      → (count fns.hc q (get_or ht.table i []) ≤ 1)
        × (table_index fns ht q ≢ i → count fns.hc q (get_or ht.table i []) ≡ 0)

  pub record IsValid (ht : HashTable A) : Type ℓ where
    pub sized : 2 ≤ ht.size
    pub width : length ht.table ≡ ht.size
    pub counted : ht.count ≡ length (flatten ht.table)
    pub placed : IsPlaced ht

  pub table_index-lt :
      {ht : HashTable A} (k : A) → IsValid ht → table_index fns ht k < length ht.table
  unfolding table_index
  table_index-lt k v = omega (arith, v.sized, v.width)

  pub empty_table-IsValid : (n : ℕ) → 2 ≤ n → IsValid (empty_table n)
  unfolding empty_table count
  empty_table-IsValid n h = record {
    sized = h;
    width = length-replicate n [];
    counted = sym (ap length (flatten-replicate n));
    placed = λ q i. rw get_or-replicate (omega arith, λ _. refl);
  }

  -- For a size of at least 2 and two callbacks, `h_open` returns the callbacks and the empty table
  -- of that size, which is valid.
  pub h_open-IsValid :
      (n : ℕ)
      → 2 ≤ n
      → (h_open (pos n) (some fns.hf) (some fns.hc) ≡ ok (fns, empty_table n))
        × IsValid (empty_table n)
  unfolding h_open open_with
  h_open-IsValid n two =
      let wide : ltb_ℤ (pos n) (pos 2) ≡ false = ground arith in
      (rw wide, empty_table-IsValid n two)

  pub view-empty_table : (n : ℕ) (q : A) → view (empty_table n) q ≡ none
  unfolding view empty_table find
  view-empty_table n q = rw get_or-replicate

  pub view_congr :
      IsHashable fns
      → (ht : HashTable A) (a b : A) → matches fns.hc a b ≡ true
      → view ht a ≡ view ht b
  unfolding view table_index
  view_congr h ht a b e = rw (h.agree a b e) (find_congr fns.hc h.comparator a b _ e)

  pub index_congr :
      IsHashable fns
      → (ht : HashTable A) (a b : A) → matches fns.hc a b ≡ true
      → table_index fns ht a ≡ table_index fns ht b
  unfolding table_index
  index_congr h ht a b e = rw (h.agree a b e)

  -- Replacing the chain of one key keeps the table valid, if the new chain has at most one record
  -- for each key, and only records that the hash sends there.
  module _ (ht : HashTable A) (v : IsValid ht) (k : A) (n : ℕ) (c : List A) where
    pub put_chain-IsValid :
        n + length (chain_of fns ht k) ≡ ht.count + length c
        → ((q : A) → count fns.hc q c ≤ 1)
        → ((q : A) → table_index fns ht q ≢ table_index fns ht k → count fns.hc q c ≡ 0)
        → IsValid (put_chain fns ht k n c)
    unfolding table_index
    put_chain-IsValid size few away = record {
      sized = v.sized;
      width = rw (length-set) v.width;
      counted = omega (
        arith,
        length-flatten-set ht.table (table_index fns ht k) c (table_index-lt k v),
        v.counted,
      );
      placed = λ q i.
          rw (get_or-set ht.table (table_index fns ht k) i c [] (table_index-lt k v))
            (ground (arith, v.placed q i, few q, away q));
    }

    view-put_chain :
        (q : A)
        → view (put_chain fns ht k n c) q
          ≡ (if table_index fns ht k == table_index fns ht q then find fns.hc q c else view ht q)
    unfolding view table_index
    view-put_chain q =
        rw
          (get_or-set ht.table (table_index fns ht k) (table_index fns ht q) c []
            (table_index-lt k v))
          (elim (Bool-cases (table_index fns ht k == table_index fns ht q)) [
            | inl e ↦ rw e
            | inr e ↦ rw e
          ])

    view_same :
        (q : A)
        → (table_index fns ht k == table_index fns ht q) ≡ true
        → find fns.hc q (chain_of fns ht k) ≡ view ht q
    unfolding view
    view_same q e = rw ((==_iff _ _).0 e)

    -- If the new chain reads as the old one but at the keys that match `k`, so does the table.
    pub view-put_chain_update :
        IsHashable fns
        → (o : Option A)
        → ((q : A)
            → find fns.hc q c
              ≡ (if matches fns.hc k q then o else find fns.hc q (chain_of fns ht k)))
        → (q : A) → view (put_chain fns ht k n c) q ≡ (if matches fns.hc k q then o else view ht q)
    view-put_chain_update h o reads q =
        rw (view-put_chain q) (elim (Bool-cases (table_index fns ht k == table_index fns ht q)) [
          | inl e ↦ rw e (rw (← view_same q e) (reads q))
          | inr e ↦ rw e (elim (Bool-cases (matches fns.hc k q)) [
            | inl m ↦ absurd (ground (arith, index_congr h ht k q m))
            | inr m ↦ rw m
          ])
        ])
