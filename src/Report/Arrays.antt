-- ===== src/Report/Arrays.antt =====
-- The loop of the concise sections of report.c, against the summaries that it is to store and an
-- array for a number of them.
use a_mpi_p.Prelude.{
  ℕ, abort, Run, ◌∙◌, ◌>>=◌, ◌+◌, ◌≤◌, Bool, true, false, ◌||◌, Option, none, some, List, [], ◌∷◌,
  ◌++◌, ◌==◌, ltb, leb, if◌then◌else◌, ok, ◌≡◌, refl, sym, arith, Bool-cases, inl, inr, length,
}
use mathlib.Core.List.{append_assoc, append-nil}
use a_mpi_p.Callsites.{CallsiteStats}
use a_mpi_p.Report.{SiteSummary}
use a_mpi_p.Report.Sites.{Measure}
use a_mpi_p.Report.Concise.{
  Extremes, no_extremes, add_extremes, site_summary, stored, stored_last, concise_sites,
}

length-snoc : (ss : List SiteSummary) (s : SiteSummary) → length (ss ++ s ∷ []) ≡ length ss + 1
length-snoc [] s = omega arith
length-snoc (x ∷ ss) s = omega (arith, length-snoc ss s)

-- the summary of a call site that ends with the record `p`, if it is to be stored
abbrev pub summary_for : (all : Bool) → CallsiteStats → Extremes → List SiteSummary
summary_for all p e = if all || ltb 0 e.sum then site_summary p e ∷ [] else []

-- the summaries of the call sites that end before the last record, where `p` is the record before
-- `av` and `e` belongs to its call site
abbrev pub summaries_inside :
    (all : Bool) → Measure → CallsiteStats → Extremes → List CallsiteStats → List SiteSummary
summaries_inside all m p e [] = []
summaries_inside all m p e (a ∷ av) =
    if a.csid == p.csid
    then summaries_inside all m a (add_extremes m a e) av
    else summary_for all p e ++ summaries_inside all m a (add_extremes m a no_extremes) av

-- the summary of the call site of the last record
abbrev pub summary_behind :
    (all : Bool) → Measure → CallsiteStats → Extremes → List CallsiteStats → List SiteSummary
summary_behind all m p e [] = summary_for all p e
summary_behind all m p e (a ∷ av) =
    summary_behind all m a (add_extremes m a (if a.csid == p.csid then e else no_extremes)) av

-- what an array of `limit` summaries makes of those inside and the one behind the loop: the function
-- returns early if those inside do not fit, and the store behind the loop is not tested
abbrev pub array_outcome :
    (limit : ℕ) → (done inside behind : List SiteSummary) → Run (Option (List SiteSummary))
array_outcome limit done inside behind =
    if ltb limit (length done + length inside)
    then ok none
    else if ltb limit (length done + length inside + length behind)
    then abort "callsite_stats[csidx]"
    else ok (some (done ++ inside ++ behind))

array_outcome-snoc :
    (limit : ℕ) (done inside behind : List SiteSummary) (s : SiteSummary)
    → array_outcome limit (done ++ s ∷ []) inside behind
      ≡ array_outcome limit done (s ∷ inside) behind
array_outcome-snoc limit done inside behind s =
    let longer : length (done ++ s ∷ []) + length inside ≡ length done + length (s ∷ inside) =
      omega (arith, length-snoc done s) in
    rw (longer, append_assoc done (s ∷ []) inside) refl

full_outcome :
    (limit : ℕ) (done inside behind : List SiteSummary) (s : SiteSummary)
    → leb limit (length done) ≡ true
    → array_outcome limit done (s ∷ inside) behind ≡ ok none
full_outcome limit done inside behind s e =
    let over : ltb limit (length done + length (s ∷ inside)) ≡ true = ground arith in rw over refl

-- the loop ends
stored_last-outcome :
    (all : Bool) (limit : ℕ) (p : CallsiteStats) (e : Extremes) (done : List SiteSummary)
    → length done ≤ limit
    → (stored_last all limit (some p) e done >>= (λ l. ok (some l)))
      ≡ array_outcome limit done [] (summary_for all p e)
unfolding stored_last
stored_last-outcome all limit p e done fits =
    let inside : ltb limit (length done + 0) ≡ false = ground arith in
    elim (Bool-cases (all || ltb 0 (e.sum))) [
      | inl k ↦ elim (Bool-cases (leb limit (length done))) [
        | inl full ↦
            let over : ltb limit (length done + 0 + 1) ≡ true = ground arith in
            rw (k, full, inside, over) refl
        | inr room ↦
            let under : ltb limit (length done + 0 + 1) ≡ false = ground arith in
            rw (k, room, inside, under, append-nil) refl
      ]
      | inr k ↦
          let under : ltb limit (length done + 0 + 0) ≡ false = ground arith in
          rw (k, inside, under, append-nil, append-nil) refl
    ]

-- a round within a call site, and a round that begins another one
concise_sites-kept :
    (all : Bool) (m : Measure) (limit : ℕ) (p a : CallsiteStats) (e : Extremes)
    (done : List SiteSummary) (av : List CallsiteStats)
    → (a.csid == p.csid) ≡ true
    → concise_sites all m limit (some p) e done (a ∷ av)
      ≡ concise_sites all m limit (some a) (add_extremes m a e) done av
unfolding concise_sites
concise_sites-kept all m limit p a e done av same = rw (same, concise_sites) (rw same refl)

concise_sites-turned :
    (all : Bool) (m : Measure) (limit : ℕ) (p a : CallsiteStats) (e : Extremes)
    (done after : List SiteSummary) (av : List CallsiteStats)
    → (a.csid == p.csid) ≡ false
    → stored all limit (some p) e done ≡ some after
    → concise_sites all m limit (some p) e done (a ∷ av)
      ≡ concise_sites all m limit (some a) (add_extremes m a no_extremes) after av
unfolding concise_sites
concise_sites-turned all m limit p a e done after av other put =
    rw (other, put, concise_sites) (rw other refl)

concise_sites-full :
    (all : Bool) (m : Measure) (limit : ℕ) (p a : CallsiteStats) (e : Extremes)
    (done : List SiteSummary) (av : List CallsiteStats)
    → (a.csid == p.csid) ≡ false
    → stored all limit (some p) e done ≡ none
    → concise_sites all m limit (some p) e done (a ∷ av) ≡ ok none
unfolding concise_sites
concise_sites-full all m limit p a e done av other full = rw (other, full, concise_sites) refl

-- a call site ends inside the loop
stored-outcome :
    (all : Bool) (m : Measure) (limit : ℕ) (p a : CallsiteStats) (e : Extremes)
    (done : List SiteSummary) (av : List CallsiteStats) (inside behind : List SiteSummary)
    → (a.csid == p.csid) ≡ false
    → length done ≤ limit
    → ((after : List SiteSummary)
        → length after ≤ limit
        → concise_sites all m limit (some a) (add_extremes m a no_extremes) after av
          ≡ array_outcome limit after inside behind)
    → concise_sites all m limit (some p) e done (a ∷ av)
      ≡ array_outcome limit done (summary_for all p e ++ inside) behind
unfolding stored
stored-outcome all m limit p a e done av inside behind other fits rest =
    elim (Bool-cases (all || ltb 0 (e.sum))) [
      | inl k ↦ elim (Bool-cases (leb limit (length done))) [
        | inl full ↦
            let given_up : stored all limit (some p) e done ≡ none = rw (k, full) refl in
            concise_sites-full all m limit p a e done av other given_up
            ∙ rw k (sym (full_outcome limit done inside behind (site_summary p e) full))
        | inr room ↦
            let put : stored all limit (some p) e done ≡ some (done ++ site_summary p e ∷ []) =
              rw (k, room) refl in
            let space : length (done ++ site_summary p e ∷ []) ≤ limit =
              ground (arith, length-snoc done (site_summary p e)) in
            concise_sites-turned all m limit p a e done _ av other put
            ∙ rest (done ++ site_summary p e ∷ []) space
            ∙ array_outcome-snoc limit done inside behind (site_summary p e)
            ∙ rw k refl
      ]
      | inr k ↦
          let put : stored all limit (some p) e done ≡ some done = rw k refl in
          concise_sites-turned all m limit p a e done done av other put ∙ rest done fits ∙ rw k refl
    ]

pub concise_sites-outcome :
    (all : Bool) (m : Measure) (limit : ℕ) (p : CallsiteStats) (e : Extremes)
    (done : List SiteSummary) (av : List CallsiteStats)
    → length done ≤ limit
    → concise_sites all m limit (some p) e done av
      ≡ array_outcome limit done (summaries_inside all m p e av) (summary_behind all m p e av)
unfolding concise_sites
concise_sites-outcome all m limit p e done [] fits = stored_last-outcome all limit p e done fits
concise_sites-outcome all m limit p e done (a ∷ av) fits = elim (Bool-cases (a.csid == p.csid)) [
  | inl same ↦
      concise_sites-kept all m limit p a e done av same
      ∙ concise_sites-outcome all m limit a (add_extremes m a e) done av fits
      ∙ rw same refl
  | inr other ↦
      stored-outcome all m limit p a e done av _ _ other fits (λ after fits'.
        concise_sites-outcome all m limit a (add_extremes m a no_extremes) after av fits')
      ∙ rw other refl
]
