-- ===== src/Tests/Queues.antt =====
-- The theorems on the thread list at concrete lists.
use a_mpi_p.Prelude.{◌≡◌, refl, none, some, [], ◌∷◌, ◌++◌, arith}
use a_mpi_p.TsList.{TsList, create, append, swap_tail, link, dequeue, release_all}
use a_mpi_p.TsList.Fifo.{
  IsQueue, values, append-IsQueue, create-IsQueue, Dequeued, dequeue-Dequeued, release_all-values,
}
use a_mpi_p.TsList.Race.{IsPending, cut_head, dequeue-spins, Disconnected, dequeue-Disconnected}

abbrev pub one : TsList
one = append 20 7 (create 10)

abbrev pub two : TsList
two = append 30 8 one

one-IsQueue : IsQueue one (20 ∷ [])
unfolding create
one-IsQueue = (append-IsQueue (create 10) [] 20 7 (create-IsQueue 10) refl).0

head_one : one.head ≡ 10
unfolding append create
head_one = refl

append-IsQueue_example :
    IsQueue two (20 ∷ 30 ∷ [])
    × (values two.ptr (20 ∷ 30 ∷ []) ≡ values one.ptr (20 ∷ []) ++ 8 ∷ [])
append-IsQueue_example = append-IsQueue one (20 ∷ []) 30 8 one-IsQueue (rw head_one)

pub two-IsQueue : IsQueue two (20 ∷ 30 ∷ [])
two-IsQueue = (append-IsQueue one (20 ∷ []) 30 8 one-IsQueue (rw head_one)).0

dequeue-Dequeued_example : Dequeued two 20 (30 ∷ []) (dequeue 5 (λ l. l) two)
dequeue-Dequeued_example = dequeue-Dequeued two 5 (λ l. l) 20 (30 ∷ []) two-IsQueue

release_all-values_example :
    (k : TsList) × (release_all 3 (λ l. l) two ≡ some (values two.ptr (20 ∷ 30 ∷ []), k))
    × IsQueue k []
release_all-values_example =
    release_all-values 3 (λ l. l) two (20 ∷ 30 ∷ []) two-IsQueue (omega arith)

-- the list `one` when a second thread has swapped the tail for its element, and not yet linked it
abbrev racing : TsList
racing = (swap_tail 30 8 one).1

racing-IsPending : IsPending racing 20
unfolding swap_tail append create link
racing-IsPending = record {
  only = refl;
  unlinked = refl;
  swapped = omega arith;
  busy = omega arith;
  apart = omega arith;
}

dequeue-spins_example : dequeue 1000 (link 20 30) racing ≡ none
unfolding link
dequeue-spins_example = dequeue-spins 1000 (link 20 30) racing 20 30 racing-IsPending refl

racing-unlinked : (cut_head racing).next 20 ≡ none
unfolding swap_tail append create link
racing-unlinked = refl

dequeue-Disconnected_example : Disconnected (cut_head racing) 20 (dequeue 4 (λ l. l) racing)
dequeue-Disconnected_example =
    dequeue-Disconnected 3 (λ l. l) racing 20 racing-IsPending racing-unlinked refl
