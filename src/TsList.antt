-- ===== src/TsList.antt =====
-- The lock-free list of mpiP-tslist.c: any number of threads append, one dequeues. Elements are
-- addresses, and a pointer that may be NULL is an `Option`. `calloc` returns the address that is
-- passed as `fresh`; `free` leaves the memory as it is.
pub mod Fifo
pub mod Race
use a_mpi_p.Prelude.{
  ℕ, zero, suc, ◌≡◌, Bool, Option, none, some, List, [], ◌∷◌, ◌==◌, if◌then◌else◌,
}

-- `mpiP_tslist_t` with the elements that it points to
pub record TsList : Type 0 where
  pub head : ℕ
  pub tail : ℕ
  pub next : ℕ → Option ℕ
  pub ptr : ℕ → ℕ

abbrev pub put {ℓ} : {V : Type ℓ} → (ℕ → V) → ℕ → V → ℕ → V
put f a v b = if a == b then v else f b

-- `mpiPi_tslist_create`: the dummy element at `fresh`
unfoldable pub create : ℕ → TsList
create fresh = record { head = fresh; tail = fresh; next = λ _. none; ptr = λ _. 0 }

-- `mpiPi_tslist_append` up to its atomic swap, which returns the previous tail,
unfoldable pub swap_tail : (fresh data_ptr : ℕ) → TsList → ℕ × TsList
swap_tail fresh data_ptr l = (
  l.tail,
  record l { tail = fresh; next = put l.next fresh none; ptr = put l.ptr fresh data_ptr },
)

-- and its last statement, `prev->next = elem`.
unfoldable pub link : (prev elem : ℕ) → TsList → TsList
link prev elem l = record l { next = put l.next prev (some elem) }

-- `mpiPi_tslist_append` with no other thread between its steps
unfoldable pub append : (fresh data_ptr : ℕ) → TsList → TsList
unfolding swap_tail link
append fresh data_ptr l = let (prev, l') = swap_tail fresh data_ptr l in link prev fresh l'

-- The loop `while(NULL != elem->next)`, whose body changes nothing; `none` is out of fuel.
wait_loop : ℕ → TsList → (elem : ℕ) → Option TsList
wait_loop zero l elem = none
wait_loop (suc fuel) l elem = elim (l.next elem) [ some e ↦ wait_loop fuel l elem | none ↦ some l ]

-- The end of `mpiPi_tslist_dequeue` behind a failed compare-and-swap: the loop, and the hand-over
-- to the head.
after_race : ℕ → TsList → (elem : ℕ) → Option (Option ℕ × TsList)
unfolding wait_loop
after_race fuel l elem = elim (wait_loop fuel l elem) [
  | none ↦ none
  | some l' ↦ some (some (l'.ptr elem), record l' { next = put l'.next l'.head (l'.next elem) })
]

-- The rest of `mpiPi_tslist_dequeue` once `elem` is found: the compare-and-swap is on `list->tail`.
-- `env` is what other threads do between it and the loop.
dequeue_elem : ℕ → (env : TsList → TsList) → TsList → (elem : ℕ) → Option (Option ℕ × TsList)
unfolding after_race
dequeue_elem fuel env l elem = elim (l.next elem) [
  | some e ↦
      some (some (l.ptr elem), record l { next = put (put l.next l.head (some e)) elem none })
  | none ↦
      let cut = record l { next = put l.next l.head none } in
      if cut.tail == elem
      then some (some (l.ptr elem), record cut { tail = l.head })
      else after_race fuel (env cut) elem
]

-- `mpiPi_tslist_dequeue`
unfoldable pub dequeue : ℕ → (env : TsList → TsList) → TsList → Option (Option ℕ × TsList)
unfolding dequeue_elem
dequeue fuel env l =
    if l.head == l.tail
    then some (none, l)
    else elim (l.next l.head) [ none ↦ some (none, l) | some elem ↦ dequeue_elem fuel env l elem ]

-- `mpiPi_tslist_first` and `mpiPi_tslist_next`
unfoldable pub first : TsList → Option ℕ
first l = l.next l.head

unfoldable pub next_elem : TsList → ℕ → Option ℕ
next_elem l current = l.next current

-- The loop `while (curr)` of mpiP-mt-stats.c over the list, which reads each `curr->ptr`.
unfoldable pub walk : ℕ → TsList → Option ℕ → Option (List ℕ)
unfolding next_elem
walk zero l curr = none
walk (suc fuel) l none = some []
walk (suc fuel) l (some e) = elim (walk fuel l (next_elem l e)) [
  | none ↦ none
  | some rest ↦ some (l.ptr e ∷ rest)
]

-- `_release_all_tls` of mpiP-mt-stats.c: dequeue until NULL, with the handlers that it frees.
unfoldable pub release_all : ℕ → (env : TsList → TsList) → TsList → Option (List ℕ × TsList)
release_all zero env l = none
release_all (suc fuel) env l = elim (dequeue fuel env l) [
  | none ↦ none
  | some (none, l') ↦ some ([], l')
  | some (some hndl, l') ↦ elim (release_all fuel env l') [
    | none ↦ none
    | some (rest, l'') ↦ some (hndl ∷ rest, l'')
  ]
]
