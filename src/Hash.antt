-- ===== src/Hash.antt =====
-- mpiP-hash.c and mpiP-hash.h: the chained hash table that every statistics store is built on.
-- A table is its bucket array of chains. The callbacks `hf` and `hc`, which `h_open` stores in the
-- table and nothing changes later, are the parameter `fns`. A pointer that may be NULL is an
-- `Option`; the out-parameters are results; `malloc` and `bzero` give a fresh array of NULLs.
pub mod Buckets
pub mod Insert
pub mod Delete
pub mod Gather
use a_mpi_p.Prelude.{
  ℕ, zero, suc, ◌+◌, ◌-◌, ◌%◌, ◌^◌, Option, none, some, List, [], ◌∷◌, ◌++◌, if◌then◌else◌, ℤ, pos,
  ltb_ℤ, pos_part, Run, ok, abort, ◌>>=◌, is_some, get_or, set, replicate, length,
}
use a_mpi_p.Chain.{find, unlink, modify}

-- `h_HashFunct` and `h_Comparator`; the hash is the bit pattern that the conversion to
-- `unsigned` leaves
pub record HashFns {ℓ} (A : Type ℓ) : Type ℓ where
  pub hf : A → ℕ
  pub hc : A → A → ℤ

pub record HashTable {ℓ} (A : Type ℓ) : Type ℓ where
  pub size : ℕ
  pub count : ℕ
  pub table : List (List A)

-- The table of `n` empty chains.
unfoldable pub empty_table {ℓ} : {A : Type ℓ} → ℕ → HashTable A
empty_table n = record { size = n; count = 0; table = replicate n [] }

open_with {ℓ} :
    {A : Type ℓ} → ℤ → Option (A → ℕ) → Option (A → A → ℤ) → Run (HashFns A × HashTable A)
unfolding empty_table
open_with size none hc = abort "hash key function not defined"
open_with size (some hf) none = abort "hash comparator function not defined"
open_with size (some hf) (some hc) = ok (record { hf = hf; hc = hc }, empty_table (pos_part size))

unfoldable pub h_open {ℓ} :
    {A : Type ℓ} → ℤ → Option (A → ℕ) → Option (A → A → ℤ) → Run (HashFns A × HashTable A)
unfolding open_with
h_open size hf hc =
    if ltb_ℤ size (pos 2) then abort "size too small for hash table" else open_with size hf hc

unfoldable pub h_close {ℓ} : {A : Type ℓ} → Option (HashTable A) → Run (Unit {0})
h_close none = abort "hash table uninitialized"
h_close (some ht) = ok tt

unfoldable pub h_count {ℓ} : {A : Type ℓ} → Option (HashTable A) → Run ℕ
h_count none = abort "hash table uninitialized"
h_count (some ht) = ok ht.count

-- for (i = 0; i < ht->size; i++): `rounds` are left, and `av` is what has been written
gather_from {ℓ} : {A : Type ℓ} → (rounds i : ℕ) → List (List A) → List A → List A
gather_from zero i table av = av
gather_from (suc n) i table av = gather_from n (i + 1) table (av ++ get_or table i [])

-- The count `*ac` and the array `*ptr`, in the order in which the loop fills it.
unfoldable pub h_gather_data {ℓ} : {A : Type ℓ} → Option (HashTable A) → Run (ℕ × List A)
unfolding gather_from
h_gather_data none = abort "hash table uninitialized"
h_gather_data (some ht) = let av = gather_from ht.size 0 ht.table [] in ok (length av, av)

-- the second loop of `h_drain`: free the chain and clear its bucket
clear_from {ℓ} : {A : Type ℓ} → (rounds i : ℕ) → List (List A) → List (List A)
clear_from zero i table = table
clear_from (suc n) i table = clear_from n (i + 1) (set table i [])

unfoldable pub h_drain {ℓ} : {A : Type ℓ} → Option (HashTable A) → Run ((ℕ × List A) × HashTable A)
unfolding h_gather_data clear_from
h_drain none = abort "hash table uninitialized"
h_drain (some ht) = do
  gathered ← h_gather_data (some ht)
  ok (gathered, record ht { count = 0; table = clear_from ht.size 0 ht.table })

module _ {ℓ} {A : Type ℓ} (fns : HashFns A) where
  -- tableIndex = (ht->hf (ptr)); tableIndex %= (ht->size);
  unfoldable pub table_index : HashTable A → A → ℕ
  table_index ht key = fns.hf key % 2 ^ 32 % ht.size

  abbrev pub chain_of : HashTable A → A → List A
  chain_of ht key = get_or ht.table (table_index ht key) []

  -- The table after the chain of `key` has become `c` and the count `n`.
  abbrev pub put_chain : HashTable A → A → ℕ → List A → HashTable A
  put_chain ht key n c = record {
    size = ht.size;
    count = n;
    table = set ht.table (table_index ht key) c;
  }

  -- The return code and the table; 1 says that an identical entry is there already.
  unfoldable pub h_insert : Option (HashTable A) → Option A → Run (ℕ × HashTable A)
  unfolding table_index
  h_insert none ptr = abort "hash table uninitialized"
  h_insert (some ht) none = abort "h_insert: ptr == NULL"
  h_insert (some ht) (some ptr) =
      if is_some (find fns.hc ptr (chain_of ht ptr))
      then ok (1, ht)
      else ok (0, put_chain ht ptr (ht.count + 1) (ptr ∷ chain_of ht ptr))

  unfoldable pub h_search : Option (HashTable A) → Option A → Run (Option A)
  unfolding table_index
  h_search none key = abort "hash table uninitialized"
  h_search (some ht) none = abort "h_search: key == NULL"
  h_search (some ht) (some key) = ok (find fns.hc key (chain_of ht key))

  unfoldable pub h_delete : Option (HashTable A) → Option A → Run (Option A × HashTable A)
  unfolding table_index
  h_delete none key = abort "hash table uninitialized"
  h_delete (some ht) none = abort "h_insert: key == NULL"
  h_delete (some ht) (some key) =
      let c = chain_of ht key in
      elim (find fns.hc key c) [
        | none ↦ ok (none, ht)
        | some e ↦ ok (some e, put_chain ht key (ht.count - 1) (unlink fns.hc key c))
      ]

  -- The table after the caller has written through the pointer that `h_search` gave it.
  unfoldable pub write_through : HashTable A → A → (A → A) → HashTable A
  unfolding table_index
  write_through ht key f = put_chain ht key ht.count (modify fns.hc key f (chain_of ht key))
