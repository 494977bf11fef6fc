-- ===== src/Report/Spans.antt =====
-- The loop over the tasks of mpiPi_print_concise_task_info in report.c.
use a_mpi_p.Prelude.{
  ℕ, false, zero, suc, ◌+◌, ◌≤◌, ◌<◌, Option, none, some, ltb, ◌≡◌, refl, subst, ◌==◌, ==_iff,
  arith, Bool-cases, inl, inr,
}
use a_mpi_p.Callsites.{dbl_max}
use a_mpi_p.Report.Profile.{Span, add_span, span_of}

-- the sum of the values of `n` tasks from task `i` on
abbrev pub sum_from : (ℕ → ℕ) → (i n : ℕ) → ℕ
sum_from values i zero = 0
sum_from values i (suc n) = values i + sum_from values (suc i) n

-- an extreme value is the start or the value of its rank
abbrev pub IsOf : (ℕ → ℕ) → (start value : ℕ) → Option ℕ → Type 0
IsOf values start value none = value ≡ start
IsOf values start value (some i) = value ≡ values i

-- a span over tasks: its total, its bounds for the tasks from `i` on, and where they are taken
abbrev pub Spans : (ℕ → ℕ) → (i n : ℕ) → (s t : Span) → Type 0
Spans values i n s t =
    (t.total ≡ s.total + sum_from values i n)
    × ((j : ℕ) → i ≤ j → j < i + n → (t.smallest ≤ values j) × (values j ≤ t.largest))
    × (t.smallest ≤ s.smallest)
    × (s.largest ≤ t.largest)
    × (IsOf values dbl_max s.smallest s.min_rank → IsOf values dbl_max t.smallest t.min_rank)
    × (IsOf values 0 s.largest s.max_rank → IsOf values 0 t.largest t.max_rank)

add_span-Spans :
    (values : ℕ → ℕ) (i : ℕ) (s : Span)
    → let t = add_span i (values i) s in
      (t.total ≡ s.total + values i)
      × (t.smallest ≤ values i)
      × (values i ≤ t.largest)
      × (t.smallest ≤ s.smallest)
      × (s.largest ≤ t.largest)
unfolding add_span
add_span-Spans values i s = ground arith

add_span-min :
    (values : ℕ → ℕ) (i : ℕ) (s : Span)
    → IsOf values dbl_max s.smallest s.min_rank
    → IsOf values dbl_max (add_span i (values i) s).smallest (add_span i (values i) s).min_rank
unfolding add_span
add_span-min values i s h = elim (Bool-cases (ltb (values i) (s.smallest))) [
  | inl e ↦ rw e refl
  | inr e ↦ rw e h
]

add_span-max :
    (values : ℕ → ℕ) (i : ℕ) (s : Span)
    → IsOf values 0 s.largest s.max_rank
    → IsOf values 0 (add_span i (values i) s).largest (add_span i (values i) s).max_rank
unfolding add_span
add_span-max values i s h = elim (Bool-cases (ltb (s.largest) (values i))) [
  | inl e ↦ rw e refl
  | inr e ↦ rw e h
]

later : (i j : ℕ) → (i == j) ≡ false → i ≤ j → suc i ≤ j
later i j e k = ground arith

-- The loop over n tasks from task i adds the sum of their values to the total. Its smallest and
-- largest value bound the value of each of these tasks and the values it started with, and each is
-- still the start or the value of the task whose rank is kept, if it was so before.
pub span_of-Spans :
    (values : ℕ → ℕ) (i n : ℕ) (s : Span) → Spans values i n s (span_of values i n s)
unfolding span_of
span_of-Spans values i zero s =
    (omega arith, (λ j h k. absurd (omega arith)), omega arith, omega arith, (λ h. h), (λ h. h))
span_of-Spans values i (suc n) s =
    let (total, low, high, below, above) = add_span-Spans values i s in
    let (t2, inside, b2, a2, m2, x2) = span_of-Spans values (suc i) n (add_span i (values i) s) in
    let t = span_of values i (suc n) s in
    let within : (j : ℕ)
        → i ≤ j
        → j < i + suc n
        → (t.smallest ≤ values j) × (values j ≤ t.largest) =
      (λ j h k. elim (Bool-cases (i == j)) [
        | inl e ↦
            subst (λ z. (t.smallest ≤ values z) × (values z ≤ t.largest)) ((==_iff i j).0 e)
              (omega arith, omega arith)
        | inr e ↦ (let apart = later i j e h in inside j (omega arith) (omega arith))
      ]) in
    (
      omega arith,
      within,
      omega arith,
      omega arith,
      (λ h. m2 (add_span-min values i s h)),
      (λ h. x2 (add_span-max values i s h)),
    )
