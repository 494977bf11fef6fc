-- ===== src/Report/Ranks.antt =====
-- The loop of the sections on the top twenty call sites of report.c: which lines it prints.
use mathlib.Core.List.Memᴰ.{Memᴰ, head, tail}
use a_mpi_p.Prelude.{
  ℕ, zero, suc, ◌+◌, ◌≤◌, ◌<◌, min, List, [], ◌∷◌, false, ltb, lt→ltb, ltb→lt, All, All-at, length,
  ◌≡◌, refl, ap, ◌⊎◌, inl, inr, arith, Bool-cases, subst, to_nat,
}
use a_mpi_p.Callsites.{CallsiteStats}
use a_mpi_p.Report.{
  Line, heading, message, blank, site_line, threshold_line, cell_line, rank_line, summary_line,
  concise_line, task_line, extreme_line,
}
use a_mpi_p.Report.Top.{site_of, print_top}

-- every value is at least those behind it
abbrev pub IsDescending : (CallsiteStats → ℕ) → List CallsiteStats → Type 0
IsDescending value [] = Unit
IsDescending value (a ∷ av) = All (λ b. value b ≤ value a) av × IsDescending value av

-- the value of the line of a site
abbrev pub line_value : Line → ℕ
line_value (heading text number) = 0
line_value (message text) = 0
line_value blank = 0
line_value (site_line op csid value count) = value
line_value (threshold_line count total) = 0
line_value (cell_line op comm size value) = 0
line_value (rank_line op csid rank count largest sum smallest) = 0
line_value (summary_line op csid count largest sum smallest) = 0
line_value (concise_line s) = 0
line_value (task_line label app mpi) = 0
line_value (extreme_line label app mpi app_rank mpi_rank) = 0

-- the number of records with a value
abbrev pub positives : (CallsiteStats → ℕ) → List CallsiteStats → ℕ
positives value [] = 0
positives value (a ∷ av) = to_nat (ltb 0 (value a)) + positives value av

-- every line shows at least the values of those behind it
abbrev pub Falls : List Line → Type 0
Falls [] = Unit
Falls (l ∷ ls) = All (λ k. line_value k ≤ line_value l) ls × Falls ls

-- The lines of the `n` records with the largest values.
pub record Ranked (value : CallsiteStats → ℕ) (n : ℕ) (av : List CallsiteStats) (lines : List Line)
    : Type 0 where
  -- there are `n` lines, or one for each record with a value
  pub number : length lines ≡ min n (positives value av)
  pub falls : Falls lines
  -- a line is that of a record with a value
  pub each :
      (l : Line)
      → Memᴰ l lines
      → (a : CallsiteStats) × Memᴰ a av × (l ≡ site_of value a) × (0 < value a)
  -- a record with a value has its line, or there are `n` lines that show at least its value
  pub shown :
      (a : CallsiteStats)
      → Memᴰ a av
      → 0 < value a
      → Memᴰ (site_of value a) lines
        ⊎ ((length lines ≡ n) × All (λ l. value a ≤ line_value l) lines)

-- behind a record without a value there is none with one
no_positives :
    (value : CallsiteStats → ℕ) (av : List CallsiteStats) (x : CallsiteStats)
    → ltb 0 (value x) ≡ false
    → All (λ b. value b ≤ value x) av
    → positives value av ≡ 0
no_positives value [] x e h = refl
no_positives value (a ∷ av) x e (h, hs) =
    let none_left : ltb 0 (value a) ≡ false = ground arith in
    let rest = no_positives value av x e hs in rw none_left (omega (arith, rest))

-- nothing is printed of records without a value
print_top-none :
    (value : CallsiteStats → ℕ) (n : ℕ) (av : List CallsiteStats)
    → positives value av ≡ 0
    → print_top value n av ≡ []
unfolding print_top
print_top-none value zero av h = refl
print_top-none value (suc n) [] h = refl
print_top-none value (suc n) (a ∷ av) h = elim (Bool-cases (ltb 0 (value a))) [
  | inl e ↦ absurd (let one : 1 + positives value av ≡ 0 = rw e at h in omega arith)
  | inr e ↦
      let counted : 0 + positives value av ≡ 0 = rw e at h in
      let rest : positives value av ≡ 0 = omega arith in rw e (print_top-none value n av rest)
]

-- the lines show no more than a bound on the values
print_top-le :
    (value : CallsiteStats → ℕ) (n bound : ℕ) (av : List CallsiteStats)
    → All (λ b. value b ≤ bound) av
    → All (λ l. line_value l ≤ bound) (print_top value n av)
unfolding print_top
print_top-le value zero bound av h = tt
print_top-le value (suc n) bound [] h = tt
print_top-le value (suc n) bound (a ∷ av) (h, hs) = elim (Bool-cases (ltb 0 (value a))) [
  | inl e ↦ rw e (h, print_top-le value n bound av hs)
  | inr e ↦ rw e (print_top-le value n bound av hs)
]

Ranked-none :
    (value : CallsiteStats → ℕ) (n : ℕ) (av : List CallsiteStats)
    → positives value av ≡ 0
    → ((a : CallsiteStats) → Memᴰ a av → 0 < value a → 1 ≤ positives value av)
    → Ranked value n av []
Ranked-none value n av h k = record {
  number = omega (arith, h);
  falls = tt;
  each = λ l m. elim m [ ];
  shown = λ a m p. absurd (omega (arith, h, k a m p));
}

positives-Mem :
    (value : CallsiteStats → ℕ) (av : List CallsiteStats) (a : CallsiteStats)
    → Memᴰ a av
    → 0 < value a
    → 1 ≤ positives value av
positives-Mem value [] a m h = elim m [ ]
positives-Mem value (x ∷ av) a (head e) h =
    let positive : 0 < value x = subst (λ z. 0 < value z) e h in
    rw (lt→ltb 0 (value x) positive) (omega arith)
positives-Mem value (x ∷ av) a (tail m) h = omega (arith, positives-Mem value av a m h)

-- one more line in front
Ranked-cons :
    (value : CallsiteStats → ℕ) (n : ℕ) (x : CallsiteStats) (av : List CallsiteStats)
    → 0 < value x
    → All (λ b. value b ≤ value x) av
    → Ranked value n av (print_top value n av)
    → Ranked value (suc n) (x ∷ av) (site_of value x ∷ print_top value n av)
Ranked-cons value n x av positive below r = record {
  number = let number = r.number in rw (lt→ltb 0 (value x) positive) (omega arith);
  falls = (print_top-le value n (value x) av below, r.falls);
  each = λ l m. each l m;
  shown = λ a m h. shown a m h;
}
  where
    each :
        (l : Line)
        → Memᴰ l (site_of value x ∷ print_top value n av)
        → (a : CallsiteStats) × Memᴰ a (x ∷ av) × (l ≡ site_of value a) × (0 < value a)
    each l (head e) = (x, head refl, e, positive)
    each l (tail m) = (let (a, k, e, p) = r.each l m in (a, tail k, e, p))

    shown :
        (a : CallsiteStats)
        → Memᴰ a (x ∷ av)
        → 0 < value a
        → Memᴰ (site_of value a) (site_of value x ∷ print_top value n av)
          ⊎ ((suc (length (print_top value n av)) ≡ suc n)
              × All (λ l. value a ≤ line_value l) (site_of value x ∷ print_top value n av))
    shown a (head e) h = inl (head (ap (site_of value) e))
    shown a (tail m) h = elim (r.shown a m h) [
      | inl k ↦ inl (tail k)
      | inr k ↦ inr (ap suc (k.0), (All-at (λ b. value b ≤ value x) av below m, k.1))
    ]

-- If the records descend by a value, then the loop prints n lines, or one for each record with a
-- positive value if these are fewer. Every line is that of a record with a positive value, no line
-- shows less than one behind it, and a record with a positive value has its line, or there are n
-- lines that each show at least its value.
pub print_top-Ranked :
    (value : CallsiteStats → ℕ) (n : ℕ) (av : List CallsiteStats)
    → IsDescending value av
    → Ranked value n av (print_top value n av)
unfolding print_top
print_top-Ranked value zero av d = record {
  number = omega arith;
  falls = tt;
  each = λ l m. elim m [ ];
  shown = λ a m h. inr (refl, tt);
}
print_top-Ranked value (suc n) [] d = Ranked-none value (suc n) [] refl (λ a m h. elim m [ ])
print_top-Ranked value (suc n) (x ∷ av) (d, ds) = elim (Bool-cases (ltb 0 (value x))) [
  | inl e ↦
      rw e (Ranked-cons value n x av (ltb→lt 0 (value x) e) d (print_top-Ranked value n av ds))
  | inr e ↦
      let none_behind = no_positives value av x e d in
      let none_there : positives value (x ∷ av) ≡ 0 = rw e (omega (arith, none_behind)) in
      rw (e, print_top-none value n av none_behind)
        (Ranked-none value (suc n) (x ∷ av) none_there (positives-Mem value (x ∷ av)))
]
