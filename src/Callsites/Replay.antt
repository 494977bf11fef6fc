-- ===== src/Callsites/Replay.antt =====
-- `mpiPi_cs_update` and `mpiPi_cs_merge` of mpiP-callsites.c over whole sequences of calls: what
-- merging the records of two threads gives against one record that saw every call.
use a_mpi_p.Prelude.{
  ℕ, ◌+◌, ◌*◌, ◌≤◌, ◌≡◌, min, max, refl, List, [], ◌∷◌, ◌++◌, arith, ℤ, ◌∙◌, ap, length,
}
use a_mpi_p.Callsites.{CallsiteStats, dbl_max, cs_reset_stat, cs_update, cs_merge}

-- what one intercepted call adds
pub record Event : Type 0 where
  pub dur : ℕ
  pub send_size : ℕ
  pub io_size : ℕ
  pub rma_size : ℕ

-- the updates of a record by a sequence of calls at one site
unfoldable pub replay : ℤ → List Event → CallsiteStats → CallsiteStats
replay t [] csp = csp
replay t (e ∷ es) csp = replay t es (cs_update csp e.dur e.send_size e.io_size e.rma_size t)

-- `r` with the extremes of the RMA size of `d`
abbrev pub keep_rma : CallsiteStats → CallsiteStats → CallsiteStats
keep_rma d r = record r { max_rma = d.max_rma; min_rma = d.min_rma }

replay-append :
    (t : ℤ) (a b : List Event) (csp : CallsiteStats)
    → replay t (a ++ b) csp ≡ replay t b (replay t a csp)
unfolding replay
replay-append t [] b csp = refl
replay-append t (e ∷ a) b csp = replay-append t a b _

cs_merge-cs_update :
    (t : ℤ) (d s : CallsiteStats) (e : Event)
    → cs_merge d (cs_update s e.dur e.send_size e.io_size e.rma_size t)
      ≡ keep_rma d (cs_update (cs_merge d s) e.dur e.send_size e.io_size e.rma_size t)
unfolding cs_merge cs_update
cs_merge-cs_update t d s e = ground arith

replay_congr :
    (t : ℤ) (b : List Event) (d s r : CallsiteStats)
    → keep_rma d s ≡ keep_rma d r
    → keep_rma d (replay t b s) ≡ keep_rma d (replay t b r)
unfolding replay cs_update
replay_congr t [] d s r h = h
replay_congr t (e ∷ b) d s r h =
    replay_congr t b d _ _
      (ap (λ x. keep_rma d (cs_update x e.dur e.send_size e.io_size e.rma_size t)) h)

cs_merge-replay :
    (t : ℤ) (b : List Event) (d s : CallsiteStats)
    → cs_merge d (replay t b s) ≡ keep_rma d (replay t b (cs_merge d s))
unfolding replay
cs_merge-replay t [] d s = unfold cs_merge in refl
cs_merge-replay t (e ∷ b) d s =
    cs_merge-replay t b d (cs_update s e.dur e.send_size e.io_size e.rma_size t)
    ∙ replay_congr t b d _ _ (ap (keep_rma d) (cs_merge-cs_update t d s e))

-- the minima of a record are at most DBL_MAX
pub record IsBounded (d : CallsiteStats) : Type 0 where
  pub dur : d.min_dur ≤ dbl_max
  pub data_sent : d.min_data_sent ≤ dbl_max
  pub io : d.min_io ≤ dbl_max

IsBounded-replay :
    (t : ℤ) (a : List Event) (d : CallsiteStats) → IsBounded d → IsBounded (replay t a d)
unfolding replay cs_update
IsBounded-replay t [] d h = h
IsBounded-replay t (e ∷ a) d h = IsBounded-replay t a _ (ground arith)

cs_merge-cs_reset_stat :
    (d s : CallsiteStats) → IsBounded d → s.cumulative_rma ≡ 0 → cs_merge d (cs_reset_stat s) ≡ d
unfolding cs_merge cs_reset_stat
cs_merge-cs_reset_stat d s h z = ground arith

-- Let a record whose three minima are at most DBL_MAX see some calls, and a reset record whose RMA
-- sum is 0 see others. Merging the second into the first gives, in every field but the largest and
-- the smallest RMA size, the record that the first would be had it seen the calls of both; those
-- two fields are as before the merge.
pub cs_merge-replay_append :
    (t : ℤ) (a b : List Event) (d s : CallsiteStats)
    → IsBounded d
    → s.cumulative_rma ≡ 0
    → cs_merge (replay t a d) (replay t b (cs_reset_stat s))
      ≡ keep_rma (replay t a d) (replay t (a ++ b) d)
cs_merge-replay_append t a b d s h z =
    cs_merge-replay t b (replay t a d) (cs_reset_stat s)
    ∙ rw (
      cs_merge-cs_reset_stat (replay t a d) s (IsBounded-replay t a d h) z,
      replay-append t a b d,
    )

-- A field of the calls, summed, and its extremes.
abbrev pub total : (Event → ℕ) → List Event → ℕ
total f [] = 0
total f (e ∷ es) = f e + total f es

abbrev pub greatest : (Event → ℕ) → List Event → ℕ
greatest f [] = 0
greatest f (e ∷ es) = max (f e) (greatest f es)

abbrev pub least : (Event → ℕ) → List Event → ℕ
least f [] = dbl_max
least f (e ∷ es) = min (f e) (least f es)

-- what a record says of the calls that it has counted
pub record Summary (es : List Event) (d s : CallsiteStats) : Type 0 where
  pub count : s.count ≡ d.count + length es
  pub time : s.cumulative_time ≡ d.cumulative_time + total (λ e. e.dur) es
  pub time_squared :
      s.cumulative_time_squared ≡ d.cumulative_time_squared + total (λ e. e.dur * e.dur) es
  pub data_sent : s.cumulative_data_sent ≡ d.cumulative_data_sent + total (λ e. e.send_size) es
  pub io : s.cumulative_io ≡ d.cumulative_io + total (λ e. e.io_size) es
  pub rma : s.cumulative_rma ≡ d.cumulative_rma + total (λ e. e.rma_size) es
  pub max_dur : s.max_dur ≡ max d.max_dur (greatest (λ e. e.dur) es)
  pub max_data_sent : s.max_data_sent ≡ max d.max_data_sent (greatest (λ e. e.send_size) es)
  pub max_io : s.max_io ≡ max d.max_io (greatest (λ e. e.io_size) es)
  pub max_rma : s.max_rma ≡ max d.max_rma (greatest (λ e. e.rma_size) es)
  pub min_dur : s.min_dur ≡ min d.min_dur (least (λ e. e.dur) es)
  pub min_data_sent : s.min_data_sent ≡ min d.min_data_sent (least (λ e. e.send_size) es)
  pub min_io : s.min_io ≡ min d.min_io (least (λ e. e.io_size) es)
  pub min_rma : s.min_rma ≡ min d.min_rma (least (λ e. e.rma_size) es)

-- A record that sees a sequence of calls, and whose four minima are at most DBL_MAX, has
-- afterwards in its count and its sums what it had plus the number and the sums over the calls,
-- and in its extremes the extremes of what it had and of the calls.
pub replay-Summary :
    (t : ℤ) (es : List Event) (d : CallsiteStats)
    → IsBounded d
    → d.min_rma ≤ dbl_max
    → Summary es d (replay t es d)
unfolding replay cs_update
replay-Summary t [] d h r = omega arith
replay-Summary t (e ∷ es) d h r =
    let ih =
      replay-Summary t es (cs_update d e.dur e.send_size e.io_size e.rma_size t) (ground arith)
        (omega arith) in
    ground (arith, ih)
