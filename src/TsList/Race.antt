-- ===== src/TsList/Race.antt =====
-- The branch of `mpiPi_tslist_dequeue` of mpiP-tslist.c behind a failed compare-and-swap: the only
-- element is being taken while another thread stands between its swap of the tail and its store of
-- `prev->next`.
use a_mpi_p.Prelude.{ℕ, zero, suc, ◌≡◌, ◌≢◌, refl, false, Option, none, some, arith, ◌==◌, ◌∙◌}
use a_mpi_p.TsList.{TsList, put, wait_loop, after_race, dequeue_elem, dequeue, link, first}

-- the list when a thread has swapped the tail behind the only element `elem`, and not yet linked
pub record IsPending (l : TsList) (elem : ℕ) : Type 0 where
  pub only : l.next l.head ≡ some elem
  pub unlinked : l.next elem ≡ none
  pub swapped : l.tail ≢ elem
  pub busy : l.tail ≢ l.head
  pub apart : l.head ≢ elem

-- the memory at the compare-and-swap, which fails
abbrev pub cut_head : TsList → TsList
cut_head l = record l { next = put l.next l.head none }

wait_loop-spins :
    (fuel : ℕ) (l : TsList) (elem e : ℕ) → l.next elem ≡ some e → wait_loop fuel l elem ≡ none
unfolding wait_loop
wait_loop-spins zero l elem e h = refl
wait_loop-spins (suc fuel) l elem e h = rw (h, wait_loop) (wait_loop-spins fuel l elem e h)

dequeue-after_race :
    (fuel : ℕ) (env : TsList → TsList) (l : TsList) (elem : ℕ)
    → IsPending l elem
    → dequeue fuel env l ≡ after_race fuel (env (cut_head l)) elem
unfolding dequeue dequeue_elem
dequeue-after_race fuel env l elem p =
    let test : (l.head == l.tail) ≡ false = ground (arith, p.busy) in
    let lost : (l.tail == elem) ≡ false = ground (arith, p.swapped) in
    rw (test, p.only) (rw (p.unlinked, dequeue_elem) (rw lost))

-- If a thread has swapped the tail behind the only element, and links its own element after the
-- failed compare-and-swap of a dequeue and before the loop behind it, the dequeue does not return
-- within any number of rounds.
pub dequeue-spins :
    (fuel : ℕ) (env : TsList → TsList) (l : TsList) (elem e : ℕ)
    → IsPending l elem
    → (env (cut_head l)).next elem ≡ some e
    → dequeue fuel env l ≡ none
unfolding after_race
dequeue-spins fuel env l elem e p linked =
    rw (dequeue-after_race fuel env l elem p)
      (rw (wait_loop-spins fuel (env (cut_head l)) elem e linked, after_race))

after_race-exits :
    (fuel : ℕ) (k : TsList) (elem : ℕ)
    → k.next elem ≡ none
    → after_race (suc fuel) k elem
      ≡ some (some (k.ptr elem), record k { next = put k.next k.head (k.next elem) })
unfolding after_race
after_race-exits fuel k elem h =
    let exits : wait_loop (suc fuel) k elem ≡ some k = rw (h, wait_loop) in rw (exits, after_race)

-- what a dequeue leaves that has lost the elements behind `elem`; `k` is the list at the loop
pub record Disconnected (k : TsList) (elem : ℕ) (r : Option (Option ℕ × TsList)) : Type 0 where
  pub after : TsList
  pub returns : r ≡ some (some (k.ptr elem), after)
  pub empty : first after ≡ none
  pub tail : after.tail ≡ k.tail
  -- a late store of `prev->next` goes to the element that is freed, and the head stays cut off
  pub late : (new : ℕ) → first (link elem new after) ≡ none

-- If a thread has swapped the tail behind the only element and the link is still missing when the
-- loop is reached, with the head unchanged, the dequeue returns the data pointer of the element
-- and leaves a list whose head has no successor while its tail is what it was; the head has no
-- successor after the late link either.
pub dequeue-Disconnected :
    (fuel : ℕ) (env : TsList → TsList) (l : TsList) (elem : ℕ)
    → IsPending l elem
    → (env (cut_head l)).next elem ≡ none
    → (env (cut_head l)).head ≡ l.head
    → Disconnected (env (cut_head l)) elem (dequeue (suc fuel) env l)
unfolding first link
dequeue-Disconnected fuel env l elem p missing same =
    let k = env (cut_head l) in
    record {
      after = record k { next = put k.next k.head (k.next elem) };
      returns = dequeue-after_race (suc fuel) env l elem p ∙ after_race-exits fuel k elem missing;
      empty = ground (arith, missing);
      tail = refl;
      late = λ new. ground (arith, missing, same, p.apart);
    }
