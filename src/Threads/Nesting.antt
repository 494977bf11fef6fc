-- ===== src/Threads/Nesting.antt =====
-- The switch of mpiP-mt-stats.c against nested calls: a wrapper leaves the statistics of its thread
-- before the MPI call and enters them again behind it.
use a_mpi_p.Prelude.{ℕ, ◌≡◌, refl, false, true, ◌==◌, pos, negsuc, ◌+ℤ◌, arith, ok, ap, ℤ}
use a_mpi_p.Globals.{Globals}
use a_mpi_p.ThreadStat.{ThreadStat, thr_exit, thr_enter, thr_is_on}
use a_mpi_p.CallRecords.{Call, Tracing}
use a_mpi_p.CallRecords.Update.{cs_upd-ignored}
use a_mpi_p.Threads.{MtStat, HandlerRef, embedded, allocated}
use a_mpi_p.Threads.Calls.{stat_of, put_stat, mt_cs_upd, mt_exit, mt_enter, mt_is_on}

stat_of-put_stat : (mt : MtStat) (h : HandlerRef) (s : ThreadStat) → stat_of (put_stat mt h s) h ≡ s
stat_of-put_stat mt embedded s = refl
stat_of-put_stat mt (allocated a) s =
    let itself : (a == a) ≡ true = ground arith in rw (itself, stat_of)

exit-off :
    (g : Globals) (s : ThreadStat) (n : ℕ) → s.disabled ≡ pos n → thr_is_on g (thr_exit s) ≡ false
unfolding thr_is_on thr_exit ◌+ℤ◌
exit-off g s n e = rw e (ground arith)

there_and_back : (d : ℤ) → d +ℤ pos 1 +ℤ negsuc 0 ≡ d
unfolding ◌+ℤ◌
there_and_back (pos n) = ground arith
there_and_back (negsuc n) = ground arith

enter-exit : (s : ThreadStat) → thr_enter (thr_exit s) ≡ s
unfolding thr_enter thr_exit
enter-exit s = ap (λ d. record s { disabled = d }) (there_and_back s.disabled)

module _ (g : Globals) (mt : MtStat) (h : HandlerRef) (n now later : ℕ) (w : Tracing)
    (c : Call) where
  -- If the nesting level of a thread is not negative, then after `mt_exit` the thread is off, an
  -- update of its records by a nested call changes nothing, and `mt_enter` restores the state of
  -- the thread.
  pub mt_cs_upd-nested :
      (stat_of mt h).disabled ≡ pos n
      → (mt_is_on g (mt_exit mt h) h ≡ false)
        × (mt_cs_upd g now later (mt_exit mt h) h w c
            ≡ ok (put_stat (mt_exit mt h) h (stat_of (mt_exit mt h) h), w))
        × (stat_of (mt_enter (mt_exit mt h) h) h ≡ stat_of mt h)
  unfolding mt_cs_upd mt_exit mt_enter mt_is_on
  mt_cs_upd-nested e =
      let left = stat_of-put_stat mt h (thr_exit (stat_of mt h)) in
      let off = exit-off g (stat_of mt h) n e in
      (
        rw left off,
        rw left
            (rw (cs_upd-ignored g now later (thr_exit (stat_of mt h)) w c (ground (arith, off)))),
        rw stat_of-put_stat (rw left (enter-exit (stat_of mt h))),
      )
