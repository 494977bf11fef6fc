-- ===== src/Dwarf/Names.antt =====
-- The pool of file names of pc_lookup_dwarf.c.
use mathlib.Core.List.Memᴰ.{Memᴰ, head, tail}
use a_mpi_p.Prelude.{
  true, none, some, List, [], ◌∷◌, ◌≡◌, refl, ap, ◌∙◌, sym, subst, arith, is_zero, pos, inl, inr,
  Bool-cases, Option-cases, All,
}
use a_mpi_p.Callsites.{Text}
use a_mpi_p.Sources.{strcmp}
use a_mpi_p.Dwarf.{unique_file_name_search, unique_file_name_get}

pub strcmp-equal : (a b : Text) → is_zero (strcmp a b) ≡ true → a ≡ b
unfolding strcmp
strcmp-equal [] [] h = refl
strcmp-equal [] (y ∷ ys) h = absurd (cc)
strcmp-equal (x ∷ xs) [] h = absurd (cc)
strcmp-equal (x ∷ xs) (y ∷ ys) h = ground (arith, strcmp-equal xs ys)

pub strcmp_self : (a : Text) → strcmp a a ≡ pos 0
unfolding strcmp
strcmp_self [] = refl
strcmp_self (x ∷ xs) = ground (arith, strcmp_self xs)

some_inj : {a b : Text} → some a ≡ some b → a ≡ b
some_inj e = cc

some-ne : {a : Text} → some a ≡ none → ⊥
some-ne e = cc

search-Found :
    (name : Text) (names : List Text) (n : Text)
    → unique_file_name_search name names ≡ some n
    → (name ≡ n) × Memᴰ n names
unfolding unique_file_name_search
search-Found name [] n h = absurd (cc)
search-Found name (m ∷ names) n h = elim (Bool-cases (is_zero (strcmp name m))) [
  | inl e ↦
      let same = strcmp-equal name m e in
      let m_is : m ≡ n = some_inj (rw e at h) in (same ∙ m_is, head (sym m_is))
  | inr e ↦ (let (same, k) = search-Found name names n (rw e at h) in (same, tail k))
]

-- no name is in the pool twice
abbrev pub IsDistinct : List Text → Type 0
IsDistinct [] = Unit
IsDistinct (n ∷ names) = All (λ m. ¬ (n ≡ m)) names × IsDistinct names

search-missing :
    (name : Text) (names : List Text)
    → unique_file_name_search name names ≡ none
    → All (λ m. ¬ (name ≡ m)) names
unfolding unique_file_name_search
search-missing name [] h = tt
search-missing name (m ∷ names) h = elim (Bool-cases (is_zero (strcmp name m))) [
  | inl e ↦ absurd (some-ne (rw e at h))
  | inr e ↦ (
    (λ same.
        let self : is_zero (strcmp name m) ≡ true =
          subst (λ z. is_zero (strcmp name z) ≡ true) same (ap is_zero (strcmp_self name)) in
        absurd (cc)),
    search-missing name names (rw e at h),
  )
]

-- If no name is twice in the pool, `unique_file_name_get` returns the name that was asked for,
-- which is in the new pool, and no name is twice in the new pool.
pub unique_file_name_get-Pooled :
    (name : Text) (names : List Text)
    → IsDistinct names
    → let (n, pool) = unique_file_name_get name names in
      (n ≡ name) × Memᴰ name pool × IsDistinct pool
unfolding unique_file_name_get
unique_file_name_get-Pooled name names h =
    elim (Option-cases (unique_file_name_search name names)) [
      | inl e ↦ rw (e, unique_file_name_get) (refl, head refl, (search-missing name names e, h))
      | inr (n, e) ↦
          let (same, k) = search-Found name names n e in
          rw (e, unique_file_name_get) (sym same, subst (λ z. Memᴰ z names) (sym same) k, h)
    ]
