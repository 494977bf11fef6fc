-- ===== src/Tests/Tables.antt =====
-- The theorems on the hash table at concrete tables, and runs of its operations.
use a_mpi_p.Prelude.{
  ℕ, ◌≡◌, ◌%◌, refl, true, some, [], ◌∷◌, arith, pos, ok, Returns, if◌then◌else◌, ◌==◌, ◌≤◌, ◌≢◌,
  ◌+◌, zero, suc, flatten, replicate, get_or,
}
use a_mpi_p.Chain.{matches, count, find, unlink}
use a_mpi_p.Hash.{
  HashFns, HashTable, empty_table, table_index, h_insert, h_delete, h_gather_data, h_drain,
}
use a_mpi_p.Hash.Buckets.{IsHashable, view, IsValid}
use a_mpi_p.Hash.Insert.{Inserted, h_insert-Inserted}
use a_mpi_p.Hash.Delete.{Deleted, h_delete-Deleted}
use a_mpi_p.Hash.Gather.{Gathered, h_gather_data-Gathered, h_drain-Gathered}

-- numbers that are compared modulo 10
abbrev digits : HashFns ℕ
digits = record { hf = λ a. a % 10; hc = λ a b. if a % 10 == b % 10 then pos 0 else pos 1 }

abbrev two_digits : HashTable ℕ
two_digits = record { size = 3; count = 2; table = [] ∷ (21 ∷ 14 ∷ []) ∷ [] ∷ [] }

digits-IsHashable : IsHashable digits
digits-IsHashable = record {
  comparator = record {
    matches_refl = λ a. ground arith;
    matches_symm = λ a b h. ground arith;
    matches_trans = λ a b c h k. ground arith;
  };
  agree = λ a b h. ground arith;
}

two_digits-placed :
    (q i : ℕ)
    → (count digits.hc q (get_or two_digits.table i []) ≤ 1)
      × (table_index digits two_digits q ≢ i → count digits.hc q (get_or two_digits.table i []) ≡ 0)
unfolding count get_or table_index
two_digits-placed q zero = (ground arith, λ away. ground arith)
two_digits-placed q (suc zero) = (ground arith, λ away. ground arith)
two_digits-placed q (suc (suc zero)) = (ground arith, λ away. ground arith)
two_digits-placed q (suc (suc (suc i))) = (ground arith, λ away. ground arith)

two_digits-IsValid : IsValid digits two_digits
unfolding flatten
two_digits-IsValid = record {
  sized = omega arith;
  width = refl;
  counted = refl;
  placed = two_digits-placed;
}

h_insert-Inserted_example :
    Returns (h_insert digits (some two_digits) (some 17)) (Inserted digits two_digits 17)
h_insert-Inserted_example =
    h_insert-Inserted digits digits-IsHashable two_digits two_digits-IsValid 17

h_delete-Deleted_example :
    Returns (h_delete digits (some two_digits) (some 34)) (Deleted digits two_digits 34)
h_delete-Deleted_example =
    h_delete-Deleted digits digits-IsHashable two_digits two_digits-IsValid 34

h_gather_data-Gathered_example :
    Returns (h_gather_data (some two_digits)) (Gathered digits two_digits)
h_gather_data-Gathered_example = h_gather_data-Gathered digits two_digits two_digits-IsValid

h_drain-Gathered_example :
    Returns
      (h_drain (some two_digits))
      (λ r. Gathered digits two_digits r.0 × (r.1 ≡ empty_table 3))
h_drain-Gathered_example = h_drain-Gathered digits two_digits two_digits-IsValid

add_ten-matches : (a : ℕ) → matches digits.hc (a + 10) a ≡ true
add_ten-matches a = ground arith

found_14 : view digits two_digits 4 ≡ some 14
unfolding view find get_or table_index
found_14 = refl

run_insert :
    h_insert digits (some (empty_table 3)) (some 14)
    ≡ ok (0, record { size = 3; count = 1; table = [] ∷ (14 ∷ []) ∷ [] ∷ [] })
unfolding h_insert empty_table find get_or replicate
run_insert = refl

run_insert_twice : h_insert digits (some two_digits) (some 4) ≡ ok (1, two_digits)
unfolding h_insert find get_or
run_insert_twice = refl

run_delete :
    h_delete digits (some two_digits) (some 34)
    ≡ ok (some 14, record { size = 3; count = 1; table = [] ∷ (21 ∷ []) ∷ [] ∷ [] })
unfolding h_delete find get_or unlink
run_delete = refl

run_gather : h_gather_data (some two_digits) ≡ ok (2, 21 ∷ 14 ∷ [])
unfolding h_gather_data get_or
run_gather = refl
