-- ===== src/Threads/Loops.antt =====
-- The loops of mpiP-mt-stats.c over the thread list, as runs over the list of its handlers.
use a_mpi_p.Prelude.{
  ℕ, zero, suc, ◌<◌, ◌≡◌, some, List, [], ◌∷◌, arith, Run, ok, abort, length, Run-cases, inl, inr,
}
use a_mpi_p.TsList.{TsList, first, next_elem}
use a_mpi_p.TsList.Fifo.{Links, IsQueue, values}
use a_mpi_p.Threads.{each_hndl}

-- the body at each handler in turn, up to an abort
unfoldable pub in_turn {ℓ} : {S : Type ℓ} → (ℕ → S → Run S) → List ℕ → S → Run S
in_turn body [] s = ok s
in_turn body (a ∷ hndls) s = elim (body a s) [ abort m ↦ abort m | ok s' ↦ in_turn body hndls s' ]

module _ {ℓ} {S : Type ℓ} (body : ℕ → S → Run S) where
  each_hndl-Links :
      (fuel : ℕ) (l : TsList) (p : ℕ) (xs : List ℕ) (s : S)
      → Links l p xs
      → length xs < fuel
      → each_hndl fuel l body (l.next p) s ≡ some (in_turn body (values l.ptr xs) s)
  unfolding each_hndl in_turn next_elem
  each_hndl-Links zero l p xs s h lt = absurd (omega arith)
  each_hndl-Links (suc fuel) l p [] s h lt = rw (h.1, each_hndl)
  each_hndl-Links (suc fuel) l p (a ∷ xs) s h lt =
      rw (h.0, each_hndl)
        (elim (Run-cases (body (l.ptr a) s)) [
          | inl (m, e) ↦ rw (e, in_turn)
          | inr (t, e) ↦ rw (e, in_turn) (each_hndl-Links fuel l a xs t h.1 (omega arith))
        ])

  -- One round more than there are elements is enough.
  pub each_hndl-in_turn :
      (fuel : ℕ) (l : TsList) (xs : List ℕ) (s : S)
      → IsQueue l xs
      → length xs < fuel
      → each_hndl fuel l body (first l) s ≡ some (in_turn body (values l.ptr xs) s)
  unfolding first
  each_hndl-in_turn fuel l xs s q lt = each_hndl-Links fuel l l.head xs s q.links lt
