-- ===== src/Report/Totals.antt =====
-- The summary lines of a section of report.c against the records: what they add up to.
use a_mpi_p.Prelude.{
  ℕ, ◌+◌, Bool, true, false, not, ◌&&◌, Option, none, some, List, [], ◌∷◌, ◌++◌, ◌==◌, ==_iff, ltb,
  if◌then◌else◌, Run, ok, Returns, ◌≡◌, refl, ap, ◌∙◌, arith, Bool-cases, inl, inr, is_some, ◌||◌,
}
use a_mpi_p.Callsites.{CallsiteStats}
use a_mpi_p.Collector.Inserts.{sum_where}
use a_mpi_p.Report.{
  Report, Line, heading, message, blank, site_line, threshold_line, cell_line, rank_line,
  summary_line, concise_line, task_line, extreme_line,
}
use a_mpi_p.Report.Sites.{
  Measure, time, Tally, zero_tally, add_tally, summary_of, line_of, turns, round_lines,
  last_summary, above_threshold, time_lines, size_lines,
}

-- what a line says of the amount of a call site in its summary
abbrev pub line_sum : ℕ → Line → ℕ
line_sum c (heading text number) = 0
line_sum c (message text) = 0
line_sum c blank = 0
line_sum c (site_line op csid value count) = 0
line_sum c (threshold_line count total) = 0
line_sum c (cell_line op comm size value) = 0
line_sum c (rank_line op csid rank count largest sum smallest) = 0
line_sum c (summary_line op csid count largest sum smallest) = if csid == c then sum else 0
line_sum c (concise_line s) = 0
line_sum c (task_line label app mpi) = 0
line_sum c (extreme_line label app mpi app_rank mpi_rank) = 0

abbrev pub sum_for : ℕ → List Line → ℕ
sum_for c [] = 0
sum_for c (l ∷ ls) = line_sum c l + sum_for c ls

sum_for-append : (c : ℕ) (xs ys : List Line) → sum_for c (xs ++ ys) ≡ sum_for c xs + sum_for c ys
sum_for-append c [] ys = omega arith
sum_for-append c (x ∷ xs) ys = omega (arith, sum_for-append c xs ys)

-- what the tally of the last record carries on
abbrev pub carried : ℕ → Option CallsiteStats → Tally → ℕ
carried c none t = 0
carried c (some p) t = if p.csid == c then t.sum else 0

abbrev pub is_empty : List CallsiteStats → Bool
is_empty [] = true
is_empty (a ∷ av) = false

sum_for-four :
    (c : ℕ) (w x y z : List Line)
    → sum_for c (w ++ x ++ y ++ z) ≡ sum_for c w + sum_for c x + sum_for c y + sum_for c z
sum_for-four c w x y z =
    rw (sum_for-append c (w ++ x ++ y) z)
      (rw (sum_for-append c (w ++ x) y) (rw (sum_for-append c w x) refl))

-- a line for a record and an empty line are no summary
sum_for-rank :
    (c : ℕ) (b : Bool) (m : Measure) (a : CallsiteStats)
    → sum_for c (if b then line_of m a ∷ [] else []) ≡ 0
sum_for-rank c true m a = refl
sum_for-rank c false m a = refl

sum_for-blank : (c : ℕ) (b : Bool) → sum_for c (if b then blank ∷ [] else []) ≡ 0
sum_for-blank c true = refl
sum_for-blank c false = refl

-- the lines of one round
round-Sum :
    (c : ℕ) (before after : List Line) (b d : Bool) (m : Measure) (a : CallsiteStats)
    → sum_for c (round_lines m a before b d after) ≡ sum_for c before + sum_for c after
round-Sum c before after b d m a = omega (
  arith,
  sum_for-four c before (if b then blank ∷ [] else []) (if d then line_of m a ∷ [] else []) after,
  sum_for-blank c b,
  sum_for-rank c d m a,
)

pub one_site :
    (x y c s v : ℕ)
    → (x == y) ≡ true
    → (if x == c then s + v else 0) ≡ (if y == c then s else 0) + (if x == c then v else 0)
one_site x y c s v e = ground arith

pub sole : (x c s v : ℕ) → s ≡ 0 → (if x == c then s + v else 0) ≡ (if x == c then v else 0)
sole x c s v e = ground arith

-- the loop on the times
pub time_lines-Sum :
    (r : Report) (c : ℕ) (prev : Option CallsiteStats) (t : Tally) (av : List CallsiteStats)
    → (is_some prev || not (is_empty av)) ≡ true
    → (is_some prev || (t.sum == 0)) ≡ true
    → Returns (time_lines r prev t av) (λ ls.
      sum_for c ls ≡ carried c prev t + sum_where (λ a. a.csid == c) (λ a. a.cumulative_time) av)
unfolding time_lines last_summary add_tally zero_tally
time_lines-Sum r c none t [] h k = absurd (cc)
time_lines-Sum r c (some p) t [] h k = (summary_of p t ∷ [], refl, omega arith)
time_lines-Sum r c none t (a ∷ av) h k =
    let (ls, run, e) = time_lines-Sum r c (some a) (add_tally time a t) av refl refl in
    let empty = (==_iff (t.sum) 0).0 k in
    let first = sole (a.csid) c (t.sum) (a.cumulative_time) empty in
    (
      round_lines time a [] false (above_threshold r a) ls,
      (rw run refl),
      round-Sum c [] ls false (above_threshold r a) time a ∙ omega arith,
    )
time_lines-Sum r c (some p) t (a ∷ av) h k = elim (Bool-cases (a.csid == p.csid)) [
  | inl e ↦
      let (ls, run, e2) = time_lines-Sum r c (some a) (add_tally time a t) av refl refl in
      let first = one_site (a.csid) (p.csid) c (t.sum) (a.cumulative_time) e in
      (
        round_lines time a [] false (above_threshold r a) ls,
        (rw e (rw run refl)),
        round-Sum c [] ls false (above_threshold r a) time a ∙ omega arith,
      )
  | inr e ↦
      let (ls, run, e2) = time_lines-Sum r c (some a) (add_tally time a zero_tally) av refl refl in
      let first = sole (a.csid) c 0 (a.cumulative_time) refl in
      (
        round_lines time a (summary_of p t ∷ []) true (above_threshold r a) ls,
        (rw e (rw run refl)),
        round-Sum c (summary_of p t ∷ []) ls true (above_threshold r a) time a ∙ omega arith,
      )
]

pub not_positive : (n : ℕ) → ltb 0 n ≡ false → n ≡ 0
not_positive n e = ground arith

no_rest : (x c s : ℕ) → s ≡ 0 → 0 ≡ (if x == c then s else 0) + 0
no_rest x c s e = ground arith

and_false : (b : Bool) → (b && false) ≡ false
and_false true = refl
and_false false = refl

step_sum :
    (m : Measure) (a : CallsiteStats) (t : Tally)
    → (if ltb 0 (m.amount a) then add_tally m a t else t).sum ≡ t.sum + m.amount a
unfolding add_tally
step_sum m a t = elim (Bool-cases (ltb 0 (m.amount a))) [
  | inl e ↦ rw e refl
  | inr e ↦ (let none_left = not_positive (m.amount a) e in rw e (omega arith))
]

-- a tally that is not given out belongs to the same call site, or is empty
pub kept :
    (x y c s v : ℕ)
    → (ltb 0 s && not (x == y)) ≡ false
    → (if x == c then s + v else 0) ≡ (if y == c then s else 0) + (if x == c then v else 0)
kept x y c s v e = ground arith

-- a round of the loop, behind which the tally is `u`
abbrev next_lines :
    Measure → (last : ℕ) → CallsiteStats → Tally → List CallsiteStats → Run (List Line)
next_lines m last a u av =
    size_lines m (some a) (if ltb 0 (m.amount a) then a.csid else last)
      (if ltb 0 (m.amount a) then add_tally m a u else u) av

round-kept :
    (m : Measure) (c : ℕ) (prev : Option CallsiteStats) (last : ℕ) (t : Tally) (a : CallsiteStats)
    (av : List CallsiteStats) (ls : List Line)
    → (ltb 0 t.sum && turns prev a) ≡ false
    → next_lines m last a t av ≡ ok ls
    → Returns (size_lines m prev last t (a ∷ av)) (λ l. sum_for c l ≡ sum_for c ls)
unfolding size_lines
round-kept m c prev last t a av ls e run =
    let gap = ltb 0 (m.amount a) && not (last == 0) && not (last == a.csid) in
    (
      round_lines m a [] gap (ltb 0 (m.amount a)) ls,
      (rw e (rw run refl)),
      round-Sum c [] ls gap (ltb 0 (m.amount a)) m a ∙ omega arith,
    )

round-turned :
    (m : Measure) (c : ℕ) (p : CallsiteStats) (last : ℕ) (t : Tally) (a : CallsiteStats)
    (av : List CallsiteStats) (ls : List Line)
    → (ltb 0 t.sum && turns (some p) a) ≡ true
    → next_lines m last a zero_tally av ≡ ok ls
    → Returns
        (size_lines m (some p) last t (a ∷ av))
        (λ l. sum_for c l ≡ (if p.csid == c then t.sum else 0) + sum_for c ls)
unfolding size_lines last_summary
round-turned m c p last t a av ls e run =
    let gap = ltb 0 (m.amount a) && not (last == 0) && not (last == a.csid) in
    (
      round_lines m a (summary_of p t ∷ []) gap (ltb 0 (m.amount a)) ls,
      (rw e (rw run refl)),
      round-Sum c (summary_of p t ∷ []) ls gap (ltb 0 (m.amount a)) m a ∙ omega arith,
    )

-- the loop on sizes
pub size_lines-Sum :
    (m : Measure) (c : ℕ) (prev : Option CallsiteStats) (last : ℕ) (t : Tally)
    (av : List CallsiteStats)
    → (is_some prev || (t.sum == 0)) ≡ true
    → Returns
        (size_lines m prev last t av)
        (λ ls. sum_for c ls ≡ carried c prev t + sum_where (λ a. a.csid == c) (m.amount) av)
unfolding size_lines last_summary zero_tally
size_lines-Sum m c none last t [] h =
    let empty = (==_iff (t.sum) 0).0 h in ([], (rw empty refl), refl)
size_lines-Sum m c (some p) last t [] h = elim (Bool-cases (ltb 0 (t.sum))) [
  | inl e ↦ (summary_of p t ∷ [], (rw e refl), omega arith)
  | inr e ↦
      let empty = not_positive (t.sum) e in ([], (rw e refl), no_rest (p.csid) c (t.sum) empty)
]
size_lines-Sum m c none last t (a ∷ av) h =
    let u = if ltb 0 (m.amount a) then add_tally m a t else t in
    let (ls, run, e2) =
      size_lines-Sum m c (some a) (if ltb 0 (m.amount a) then a.csid else last) u av refl in
    let (l, run2, e3) = round-kept m c none last t a av ls (and_false (ltb 0 (t.sum))) run in
    let sums = ap (λ n. if a.csid == c then n else 0) (step_sum m a t) in
    let first = sole (a.csid) c (t.sum) (m.amount a) ((==_iff (t.sum) 0).0 h) in
    (l, run2, omega arith)
size_lines-Sum m c (some p) last t (a ∷ av) h =
    elim (Bool-cases (ltb 0 (t.sum) && turns (some p) a)) [
      | inl e ↦
          let u = if ltb 0 (m.amount a) then add_tally m a zero_tally else zero_tally in
          let (ls, run, e2) =
            size_lines-Sum m c (some a) (if ltb 0 (m.amount a) then a.csid else last) u av refl in
          let (l, run2, e3) = round-turned m c p last t a av ls e run in
          let sums = ap (λ n. if a.csid == c then n else 0) (step_sum m a zero_tally) in
          let first = sole (a.csid) c 0 (m.amount a) refl in (l, run2, omega arith)
      | inr e ↦
          let u = if ltb 0 (m.amount a) then add_tally m a t else t in
          let (ls, run, e2) =
            size_lines-Sum m c (some a) (if ltb 0 (m.amount a) then a.csid else last) u av refl in
          let (l, run2, e3) = round-kept m c (some p) last t a av ls e run in
          let sums = ap (λ n. if a.csid == c then n else 0) (step_sum m a t) in
          let first = kept (a.csid) (p.csid) c (t.sum) (m.amount a) e in (l, run2, omega arith)
    ]
