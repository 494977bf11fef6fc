-- ===== src/Chain.antt =====
-- The chains of the hash table of mpiP-hash.c: the loops over `next` pointers, as recursions on
-- the list of the records that the entries of one chain point to.
use a_mpi_p.Prelude.{
  ℕ, ◌+◌, ◌≤◌, ◌≡◌, refl, Bool, true, Option, none, some, List, [], ◌∷◌, ◌++◌, arith, if◌then◌else◌,
  to_nat, ℤ, is_zero, length, or_else,
}

-- `hc (a, b) == 0`
abbrev pub matches {ℓ} : {A : Type ℓ} → (A → A → ℤ) → A → A → Bool
matches hc a b = is_zero (hc a b)

-- what the table asks of a comparator: that its answer 0 is an equivalence
pub record IsComparator {ℓ} {A : Type ℓ} (hc : A → A → ℤ) : Type ℓ where
  pub matches_refl : (a : A) → matches hc a a ≡ true
  pub matches_symm : (a b : A) → matches hc a b ≡ true → matches hc b a ≡ true
  pub matches_trans :
      (a b c : A) → matches hc a b ≡ true → matches hc b c ≡ true → matches hc a c ≡ true

module _ {ℓ} {A : Type ℓ} (hc : A → A → ℤ) where
  -- the loop of `h_search`, and the test for an identical entry in `h_insert`
  unfoldable pub find : A → List A → Option A
  find key [] = none
  find key (e ∷ c) = if matches hc e key then some e else find key c

  -- the loop of `h_delete`, with the relinking through `next_addr`
  unfoldable pub unlink : A → List A → List A
  unlink key [] = []
  unlink key (e ∷ c) = if matches hc e key then c else e ∷ unlink key c

  -- a write through the pointer that the search returned
  unfoldable pub modify : A → (A → A) → List A → List A
  modify key f [] = []
  modify key f (e ∷ c) = if matches hc e key then f e ∷ c else e ∷ modify key f c

  -- how many records of a chain match a key
  unfoldable pub count : A → List A → ℕ
  count q [] = 0
  count q (e ∷ c) = to_nat (matches hc e q) + count q c

  pub count-append :
      (key : A) (front back : List A) → count key (front ++ back) ≡ count key front + count key back
  unfolding count
  count-append key [] back = omega arith
  count-append key (x ∷ front) back = omega (arith, count-append key front back)

  pub find-append :
      (key : A) (front back : List A)
      → find key (front ++ back) ≡ or_else (find key front) (find key back)
  unfolding find or_else
  find-append key [] back = refl
  find-append key (x ∷ front) back = rw (find-append key front back) (ground arith)

  pub find-eq-none : (key : A) (chain : List A) → count key chain ≡ 0 → find key chain ≡ none
  unfolding count find
  find-eq-none key [] h = refl
  find-eq-none key (x ∷ chain) h = ground (arith, find-eq-none key chain)

  -- what a search finds matches the key
  pub find-matches : (q : A) (c : List A) (e : A) → find q c ≡ some e → matches hc e q ≡ true
  unfolding find
  find-matches q [] e h = absurd (cc)
  find-matches q (x ∷ c) e h = ground (arith, find-matches q c e)

  pub length-unlink :
      (k : A) (c : List A) (e : A) → find k c ≡ some e → length (unlink k c) + 1 ≡ length c
  unfolding unlink find
  length-unlink k [] e h = absurd (cc)
  length-unlink k (x ∷ c) e h = ground (arith, length-unlink k c e)

  pub length-modify : (k : A) (f : A → A) (c : List A) → length (modify k f c) ≡ length c
  unfolding modify
  length-modify k f [] = refl
  length-modify k f (e ∷ c) = ground (arith, length-modify k f c)

  pub count-unlink-le : (k q : A) (c : List A) → count q (unlink k c) ≤ count q c
  unfolding count unlink
  count-unlink-le k q [] = omega arith
  count-unlink-le k q (e ∷ c) = ground (arith, count-unlink-le k q c)

module _ {ℓ} {A : Type ℓ} (hc : A → A → ℤ) (cmp : IsComparator hc) where
  pub matches_congr_left : (a b c : A) → matches hc a b ≡ true → matches hc a c ≡ matches hc b c
  matches_congr_left a b c e =
      ground (arith, cmp.matches_symm a b, cmp.matches_trans a b c, cmp.matches_trans b a c)

  pub matches_congr_right : (a b c : A) → matches hc b c ≡ true → matches hc a b ≡ matches hc a c
  matches_congr_right a b c e =
      ground (arith, cmp.matches_symm b c, cmp.matches_trans a b c, cmp.matches_trans a c b)

  pub count-eq-zero :
      (k q : A) (c : List A) → find hc k c ≡ none → matches hc k q ≡ true → count hc q c ≡ 0
  unfolding count find
  count-eq-zero k q [] h e = refl
  count-eq-zero k q (x ∷ c) h e = ground (arith, count-eq-zero k q c, matches_congr_right x k q)

  pub find_congr : (k q : A) (c : List A) → matches hc k q ≡ true → find hc k c ≡ find hc q c
  unfolding find
  find_congr k q [] e = refl
  find_congr k q (x ∷ c) e = ground (arith, find_congr k q c, matches_congr_right x k q)

  pub find-unlink :
      (k q : A) (c : List A)
      → count hc q c ≤ 1
      → find hc q (unlink hc k c) ≡ (if matches hc k q then none else find hc q c)
  unfolding find unlink count
  find-unlink k q [] h = ground arith
  find-unlink k q (x ∷ c) h = ground (
    arith,
    find-unlink k q c,
    find-eq-none hc q c,
    matches_congr_right x k q,
    matches_congr_left x k q,
  )

  module _ (f : A → A) (same : (a : A) → matches hc (f a) a ≡ true) where
    matches-same : (a q : A) → matches hc (f a) q ≡ matches hc a q
    matches-same a q = matches_congr_left (f a) a q (same a)

    pub count-modify : (k q : A) (c : List A) → count hc q (modify hc k f c) ≡ count hc q c
    unfolding count modify
    count-modify k q [] = refl
    count-modify k q (x ∷ c) = ground (arith, count-modify k q c, matches-same x q)

    -- a write of fields that no key consists of shows in the searches for that key, and in no other
    pub find-modify :
        (k q : A) (c : List A) (e : A)
        → find hc k c ≡ some e
        → find hc q (modify hc k f c) ≡ (if matches hc k q then some (f e) else find hc q c)
    unfolding find modify
    find-modify k q [] e h = absurd (cc)
    find-modify k q (x ∷ c) e h = ground (
      arith,
      find-modify k q c e,
      matches-same x q,
      matches_congr_right x k q,
      matches_congr_left x k q,
    )
