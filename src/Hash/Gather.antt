-- ===== src/Hash/Gather.antt =====
-- `h_gather_data` and `h_drain` of mpiP-hash.c: what their loops over the buckets leave.
use a_mpi_p.Prelude.{
  ℕ, zero, suc, ◌≤◌, ◌≡◌, ◌≢◌, refl, Option, none, some, List, [], ◌∷◌, ◌++◌, flatten, arith, ok,
  Returns, length, get_or, replicate, ◌∙◌, or_else, ap, sym,
}
use mathlib.Core.List.{append_assoc, append-nil}
use mathlib.Core.Logic.{Ne-symm}
use native.Mathlib.Numerals.{add-one}
use a_mpi_p.Chain.{find, count, count-append, find-append, find-eq-none}
use a_mpi_p.Hash.{
  HashFns, HashTable, empty_table, table_index, gather_from, clear_from, h_gather_data, h_drain,
}
use a_mpi_p.Hash.Buckets.{view, IsValid}

or_else-none {ℓ} : {A : Type ℓ} (o : Option A) → or_else o none ≡ o
unfolding or_else
or_else-none none = refl
or_else-none (some a) = refl

module _ {ℓ} {A : Type ℓ} where
  gather_from-cons :
      (n i : ℕ) (c : List A) (table : List (List A)) (av : List A)
      → gather_from n (suc i) (c ∷ table) av ≡ gather_from n i table av
  unfolding gather_from get_or
  gather_from-cons zero i c table av = refl
  gather_from-cons (suc n) i c table av =
      rw (add-one, add-one) (gather_from-cons n (suc i) c table _)

  -- The loop visits the chains in order.
  gather_from-flatten :
      (table : List (List A)) (av : List A)
      → gather_from (length table) 0 table av ≡ av ++ flatten table
  unfolding gather_from flatten get_or
  gather_from-flatten [] av = rw append-nil
  gather_from-flatten (c ∷ table) av =
      gather_from-cons (length table) 0 c table _
      ∙ gather_from-flatten table (av ++ c)
      ∙ append_assoc av c (flatten table)

  clear_from-cons :
      (n i : ℕ) (c : List A) (table : List (List A))
      → clear_from n (suc i) (c ∷ table) ≡ c ∷ clear_from n i table
  unfolding clear_from
  clear_from-cons zero i c table = refl
  clear_from-cons (suc n) i c table = rw (add-one, add-one) (clear_from-cons n (suc i) c _)

  clear_from-replicate :
      (table : List (List A)) → clear_from (length table) 0 table ≡ replicate (length table) []
  unfolding clear_from replicate
  clear_from-replicate [] = refl
  clear_from-replicate (c ∷ table) =
      clear_from-cons (length table) 0 [] table ∙ ap (λ t. [] ∷ t) (clear_from-replicate table)

module _ {ℓ} {A : Type ℓ} (fns : HashFns A) where
  count-flatten_nowhere :
      (q : A) (table : List (List A))
      → ((i : ℕ) → count fns.hc q (get_or table i []) ≡ 0)
      → count fns.hc q (flatten table) ≡ 0
  unfolding flatten get_or count
  count-flatten_nowhere q [] h = refl
  count-flatten_nowhere q (c ∷ table) h =
      rw (count-append, h 0) (omega (arith, count-flatten_nowhere q table (λ i. h (suc i))))

  -- A key that only bucket `j` holds is found in the flat array as in that bucket.
  flatten_only :
      (q : A) (table : List (List A)) (j : ℕ)
      → ((i : ℕ) → i ≢ j → count fns.hc q (get_or table i []) ≡ 0)
      → (find fns.hc q (flatten table) ≡ find fns.hc q (get_or table j []))
        × (count fns.hc q (flatten table) ≡ count fns.hc q (get_or table j []))
  unfolding flatten get_or or_else
  flatten_only q [] j h = (refl, refl)
  flatten_only q (c ∷ table) zero h =
      let rest = count-flatten_nowhere q table (λ i. h (suc i) (omega arith)) in
      let gone = find-eq-none fns.hc q (flatten table) rest in
      (
        rw (find-append, gone) (or_else-none (find fns.hc q c)),
        rw (count-append, rest) (omega arith),
      )
  flatten_only q (c ∷ table) (suc j) h =
      let here = h 0 (omega arith) in
      let (found, counted) = flatten_only q table j (λ i n. h (suc i) (omega arith)) in
      (rw (find-append, find-eq-none fns.hc q c here) found, rw (count-append, here) (omega arith))

  -- What a gathering of the table gives: as many records as the table counts, which is the
  -- length that the array was allocated with, each key's record once, and no other record.
  pub record Gathered (ht : HashTable A) (r : ℕ × List A) : Type ℓ where
    pub number : r.0 ≡ ht.count
    pub filled : length r.1 ≡ ht.count
    pub once : (q : A) → count fns.hc q r.1 ≤ 1
    pub reads : (q : A) → find fns.hc q r.1 ≡ view fns ht q

  module _ (ht : HashTable A) (v : IsValid fns ht) where
    gather-flatten : gather_from ht.size 0 ht.table [] ≡ flatten ht.table
    gather-flatten = rw (← v.width) (gather_from-flatten ht.table [])

    -- The array is the chains in bucket order.
    pub h_gather_data-flatten :
        h_gather_data (some ht) ≡ ok (length (flatten ht.table), flatten ht.table)
    unfolding h_gather_data
    h_gather_data-flatten = rw gather-flatten

    flatten-Gathered : Gathered ht (length (flatten ht.table), flatten ht.table)
    unfolding view
    flatten-Gathered = record {
      number = sym v.counted;
      filled = sym v.counted;
      once = λ q.
          rw
            (flatten_only q ht.table (table_index fns ht q) (λ i n. (v.placed q i).1 (Ne-symm n))).1
            (v.placed q _).0;
      reads = λ q.
          (flatten_only q ht.table (table_index fns ht q) (λ i n. (v.placed q i).1 (Ne-symm n))).0;
    }

    -- For a valid table `h_gather_data` returns an array of exactly as many records as the table
    -- counts, in which no key has two matching records and the first match of every key is the
    -- record that the key finds in the table.
    pub h_gather_data-Gathered : Returns (h_gather_data (some ht)) (Gathered ht)
    h_gather_data-Gathered = (_, h_gather_data-flatten, flatten-Gathered)

    -- For a valid table `h_drain` returns an array of exactly as many records as the table counts,
    -- in which no key has two matching records and the first match of every key is the record that
    -- the key finds in the table, and leaves the empty table of the same size, with the count 0.
    pub h_drain-Gathered :
        Returns (h_drain (some ht)) (λ r. Gathered ht r.0 × (r.1 ≡ empty_table ht.size))
    unfolding h_drain empty_table
    h_drain-Gathered = (
      (_, record { size = ht.size; count = 0; table = clear_from ht.size 0 ht.table }),
      rw gather-flatten,
      (flatten-Gathered, rw (← v.width) (rw (clear_from-replicate ht.table))),
    )
