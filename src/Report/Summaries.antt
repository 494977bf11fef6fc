-- ===== src/Report/Summaries.antt =====
-- The summaries of the concise sections of report.c: what they add up to, and what the loop over
-- the records makes of them.
use a_mpi_p.Prelude.{
  ℕ, Run, ◌+◌, Bool, true, false, ◌||◌, Option, none, some, List, [], ◌∷◌, ◌++◌, ◌==◌, ltb,
  if◌then◌else◌, ◌≡◌, refl, arith, Bool-cases, inl, inr,
}
use a_mpi_p.Callsites.{CallsiteStats}
use a_mpi_p.Collector.Inserts.{sum_where}
use a_mpi_p.Report.{SiteSummary}
use a_mpi_p.Report.Sites.{Measure}
use a_mpi_p.Report.Concise.{Extremes, no_extremes, add_extremes, site_summary, concise_sites}
use a_mpi_p.Report.Totals.{one_site, sole, not_positive}
use a_mpi_p.Report.Arrays.{
  summary_for, summaries_inside, summary_behind, array_outcome, concise_sites-outcome,
}

-- the cumulative values of the summaries of a call site
abbrev pub stored_for : ℕ → List SiteSummary → ℕ
stored_for c [] = 0
stored_for c (s ∷ ss) = (if s.site == c then s.cumulative else 0) + stored_for c ss

-- what the last call site carries on
abbrev pub pending : ℕ → Option CallsiteStats → Extremes → ℕ
pending c none e = 0
pending c (some p) e = if p.csid == c then e.sum else 0

skipped : (x c s : ℕ) → s ≡ 0 → 0 ≡ (if x == c then s else 0)
skipped x c s e = ground arith

or_false : (a b : Bool) → (a || b) ≡ false → b ≡ false
or_false true b h = absurd cc
or_false false b h = h

stored_for-append :
    (c : ℕ) (xs ys : List SiteSummary) → stored_for c (xs ++ ys) ≡ stored_for c xs + stored_for c ys
stored_for-append c [] ys = omega arith
stored_for-append c (x ∷ xs) ys = omega (arith, stored_for-append c xs ys)

summary_for-stored :
    (all : Bool) (p : CallsiteStats) (e : Extremes) (c : ℕ)
    → stored_for c (summary_for all p e) ≡ pending c (some p) e
unfolding site_summary
summary_for-stored all p e c = elim (Bool-cases (all || ltb 0 (e.sum))) [
  | inl k ↦ rw k (omega arith)
  | inr k ↦ rw k (skipped (p.csid) c (e.sum) (not_positive _ (or_false all _ k)))
]

-- the summaries of a call site add up to its records
summaries-sum :
    (all : Bool) (m : Measure) (c : ℕ) (p : CallsiteStats) (e : Extremes) (av : List CallsiteStats)
    → stored_for c (summaries_inside all m p e av) + stored_for c (summary_behind all m p e av)
      ≡ pending c (some p) e + sum_where (λ a. a.csid == c) (m.amount) av
unfolding add_extremes no_extremes
summaries-sum all m c p e [] = omega (arith, summary_for-stored all p e c)
summaries-sum all m c p e (a ∷ av) = elim (Bool-cases (a.csid == p.csid)) [
  | inl same ↦
      let rest = summaries-sum all m c a (add_extremes m a e) av in
      let first = one_site (a.csid) (p.csid) c (e.sum) (m.amount a) same in
      rw same (omega (arith, rest, first))
  | inr other ↦
      let rest = summaries-sum all m c a (add_extremes m a no_extremes) av in
      let first = sole (a.csid) c 0 (m.amount a) refl in
      let ended = summary_for-stored all p e c in
      let parts =
        stored_for-append c (summary_for all p e)
          (summaries_inside all m a (add_extremes m a no_extremes) av) in
      rw other (omega (arith, rest, first, ended, parts))
]

-- The outcome of the loop on the records `a ∷ av`: what the array makes of the summaries, which add
-- up to the records of every call site.
pub record ConciseStored (all : Bool) (m : Measure) (limit : ℕ) (a : CallsiteStats)
    (av : List CallsiteStats) (r : Run (Option (List SiteSummary))) : Type 0 where
  pub outcome :
      r
      ≡ array_outcome limit []
          (summaries_inside all m a (add_extremes m a no_extremes) av)
          (summary_behind all m a (add_extremes m a no_extremes) av)
  pub sums :
      (c : ℕ)
      → stored_for c (summaries_inside all m a (add_extremes m a no_extremes) av)
          + stored_for c (summary_behind all m a (add_extremes m a no_extremes) av)
        ≡ sum_where (λ b. b.csid == c) (m.amount) (a ∷ av)

-- Take the loop of the concise sections, from its start on at least one record, with an array for
-- a number of call sites. If the summaries of the call sites that end before the last record do
-- not fit the array, it gives up; else, if the one behind the loop does not fit any more, it is
-- stored behind the array, which is an error; else it returns those summaries in order. For every
-- call site the cumulative values of the summaries are the sum over its records, also where call
-- sites without an amount are left out.
pub concise_sites-Stored :
    (all : Bool) (m : Measure) (limit : ℕ) (a : CallsiteStats) (av : List CallsiteStats)
    → ConciseStored all m limit a av (concise_sites all m limit none no_extremes [] (a ∷ av))
unfolding concise_sites add_extremes no_extremes
concise_sites-Stored all m limit a av = record {
  outcome = concise_sites-outcome all m limit a (add_extremes m a no_extremes) [] av (omega arith);
  sums = λ c.
      let rest = summaries-sum all m c a (add_extremes m a no_extremes) av in
      let first = sole (a.csid) c 0 (m.amount a) refl in omega (arith, rest, first);
}
