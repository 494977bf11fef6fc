-- ===== src/TsList/Fifo.antt =====
-- The list of mpiP-tslist.c as a queue, at times when no append is under way.
use a_mpi_p.Prelude.{
  ℕ, zero, suc, ◌<◌, ◌≡◌, refl, Bool, true, false, ◌||◌, Option, none, some, List, [], ◌∷◌, ◌++◌,
  arith, ◌==◌, length,
}
use a_mpi_p.TsList.{TsList, put, create, append, dequeue_elem, dequeue, first, walk, release_all}

abbrev pub has : ℕ → List ℕ → Bool
has a [] = false
has a (x ∷ xs) = (a == x) || has a xs

abbrev pub Distinct : List ℕ → Type 0
Distinct [] = Unit
Distinct (x ∷ xs) = (has x xs ≡ false) × Distinct xs

-- from `p` the `next` pointers lead through `xs` to the tail, which has no successor
abbrev pub Links : TsList → ℕ → List ℕ → Type 0
Links l p [] = (p ≡ l.tail) × (l.next p ≡ none)
Links l p (a ∷ xs) = (l.next p ≡ some a) × Links l a xs

-- the list holds the elements `xs`, in this order
pub record IsQueue (l : TsList) (xs : List ℕ) : Type 0 where
  pub links : Links l l.head xs
  pub distinct : Distinct (l.head ∷ xs)

tail-has : (l : TsList) (p : ℕ) (xs : List ℕ) → Links l p xs → has l.tail (p ∷ xs) ≡ true
tail-has l p [] h = ground arith
tail-has l p (a ∷ xs) h = ground (arith, tail-has l a xs h.1)

Links-frame :
    (l k : TsList) (p : ℕ) (xs : List ℕ)
    → k.tail ≡ l.tail
    → ((q : ℕ) → has q (p ∷ xs) ≡ true → k.next q ≡ l.next q)
    → Links l p xs
    → Links k p xs
Links-frame l k p [] t same h = (ground arith, ground (arith, same p))
Links-frame l k p (a ∷ xs) t same h =
    (ground (arith, same p), Links-frame l k a xs t (λ q e. same q (ground arith)) h.1)

Links-append :
    (fresh x : ℕ) (l : TsList) (p : ℕ) (xs : List ℕ)
    → has fresh (p ∷ xs) ≡ false
    → Distinct (p ∷ xs)
    → Links l p xs
    → Links (append fresh x l) p (xs ++ fresh ∷ [])
unfolding append
Links-append fresh x l p [] new d h = (ground arith, (ground arith, ground arith))
Links-append fresh x l p (a ∷ xs) new d h =
    (ground (arith, tail-has l a xs h.1), Links-append fresh x l a xs (ground arith) d.1 h.1)

pub has-append : (q fresh : ℕ) (xs : List ℕ) → has q (xs ++ fresh ∷ []) ≡ (has q xs || (q == fresh))
has-append q fresh [] = ground arith
has-append q fresh (a ∷ xs) = ground (arith, has-append q fresh xs)

pub Distinct-append :
    (fresh : ℕ) (xs : List ℕ) → has fresh xs ≡ false → Distinct xs → Distinct (xs ++ fresh ∷ [])
Distinct-append fresh [] new d = (refl, tt)
Distinct-append fresh (a ∷ xs) new d =
    (ground (arith, has-append a fresh xs), Distinct-append fresh xs (ground arith) d.1)

-- the data pointers of the elements
abbrev pub values : (ℕ → ℕ) → List ℕ → List ℕ
values ptr [] = []
values ptr (a ∷ xs) = ptr a ∷ values ptr xs

values-append :
    (l : TsList) (fresh x : ℕ) (xs : List ℕ)
    → has fresh xs ≡ false
    → values (append fresh x l).ptr (xs ++ fresh ∷ []) ≡ values l.ptr xs ++ x ∷ []
unfolding append
values-append l fresh x [] new = ground arith
values-append l fresh x (a ∷ xs) new = ground (arith, values-append l fresh x xs)

-- If the list holds a queue of elements and the new element is none of them and not the head, an
-- append that no other thread interrupts leaves the queue with the new element behind the others,
-- with its data pointer, and the data pointers of the others as they were.
pub append-IsQueue :
    (l : TsList) (xs : List ℕ) (fresh x : ℕ)
    → IsQueue l xs
    → has fresh (l.head ∷ xs) ≡ false
    → IsQueue (append fresh x l) (xs ++ fresh ∷ [])
      × (values (append fresh x l).ptr (xs ++ fresh ∷ []) ≡ values l.ptr xs ++ x ∷ [])
unfolding append
append-IsQueue l xs fresh x q new = (
  record {
    links = Links-append fresh x l l.head xs new q.distinct q.links;
    distinct = Distinct-append fresh (l.head ∷ xs) new q.distinct;
  },
  values-append l fresh x xs (ground arith),
)

pub create-IsQueue : (fresh : ℕ) → IsQueue (create fresh) []
unfolding create
create-IsQueue fresh = record { links = (refl, refl); distinct = (refl, tt) }

-- A dequeue from an empty list returns NULL and changes nothing.
pub dequeue-nil :
    (l : TsList) (fuel : ℕ) (env : TsList → TsList)
    → IsQueue l []
    → dequeue fuel env l ≡ some (none, l)
unfolding dequeue
dequeue-nil l fuel env q =
    let empty : (l.head == l.tail) ≡ true = ground (arith, q.links.0) in rw empty

-- the outcome of a dequeue from a list that begins with `a`
pub record Dequeued (l : TsList) (a : ℕ) (xs : List ℕ) (r : Option (Option ℕ × TsList))
    : Type 0 where
  pub after : TsList
  pub returns : r ≡ some (some (l.ptr a), after)
  pub queue : IsQueue after xs
  pub ptr : after.ptr ≡ l.ptr
  pub head : after.head ≡ l.head

dequeue_elem-Dequeued :
    (l : TsList) (fuel : ℕ) (env : TsList → TsList) (a : ℕ) (xs : List ℕ)
    → IsQueue l (a ∷ xs)
    → Dequeued l a xs (dequeue_elem fuel env l a)
unfolding dequeue_elem
dequeue_elem-Dequeued l fuel env a [] q =
    let last : l.next a ≡ none = q.links.1.1 in
    let won : (l.tail == a) ≡ true = ground (arith, q.links.1.0) in
    record {
      after = record l { next = put l.next l.head none; tail = l.head };
      returns = rw (last, dequeue_elem) (rw won);
      queue = record { links = (refl, ground arith); distinct = (refl, tt) };
      ptr = refl;
      head = refl;
    }
dequeue_elem-Dequeued l fuel env a (b ∷ xs) q =
    let more : l.next a ≡ some b = q.links.1.0 in
    let after : TsList = record l { next = put (put l.next l.head (some b)) a none } in
    record {
      after = after;
      returns = rw (more, dequeue_elem);
      queue = record {
        links = (
          ground (arith, q.distinct.0),
          Links-frame l after b xs refl (λ p e. ground (arith, q.distinct.0, q.distinct.1.0))
              q.links.1.1,
        );
        distinct = (ground (arith, q.distinct.0), q.distinct.1.1);
      };
      ptr = refl;
      head = refl;
    }

-- If the list holds a queue that begins with an element, a dequeue returns the data pointer of
-- that element and leaves the queue of the others, with the same head and data pointers, whatever
-- other threads would do in its last branch, which is not reached.
pub dequeue-Dequeued :
    (l : TsList) (fuel : ℕ) (env : TsList → TsList) (a : ℕ) (xs : List ℕ)
    → IsQueue l (a ∷ xs)
    → Dequeued l a xs (dequeue fuel env l)
unfolding dequeue
dequeue-Dequeued l fuel env a xs q =
    let busy : (l.head == l.tail) ≡ false =
      ground (arith, q.distinct.0, tail-has l a xs q.links.1) in
    let e : l.next l.head ≡ some a = q.links.0 in
    let d = dequeue_elem-Dequeued l fuel env a xs q in
    record {
      after = d.after;
      returns = rw (busy, e) d.returns;
      queue = d.queue;
      ptr = d.ptr;
      head = d.head;
    }

-- If the list holds a queue, the loop that dequeues until NULL ends within one round more than
-- there are elements; it gives the data pointers in the order of the queue and leaves an empty
-- queue.
pub release_all-values :
    (fuel : ℕ) (env : TsList → TsList) (l : TsList) (xs : List ℕ)
    → IsQueue l xs
    → length xs < fuel
    → (k : TsList) × (release_all fuel env l ≡ some (values l.ptr xs, k)) × IsQueue k []
unfolding release_all
release_all-values zero env l xs q lt = absurd (omega arith)
release_all-values (suc fuel) env l [] q lt = (l, rw (dequeue-nil l fuel env q, release_all), q)
release_all-values (suc fuel) env l (a ∷ xs) q lt =
    let d = dequeue-Dequeued l fuel env a xs q in
    let (k, run, done) = release_all-values fuel env d.after xs d.queue (omega arith) in
    (k, rw (d.returns, release_all) (rw (run, d.ptr)), done)

walk-values :
    (fuel : ℕ) (l : TsList) (p : ℕ) (xs : List ℕ)
    → Links l p xs
    → length xs < fuel
    → walk fuel l (l.next p) ≡ some (values l.ptr xs)
unfolding walk
walk-values zero l p xs h lt = absurd (omega arith)
walk-values (suc fuel) l p [] h lt = rw (h.1, walk)
walk-values (suc fuel) l p (a ∷ xs) h lt =
    rw (h.0, walk) (rw (walk-values fuel l a xs h.1 (omega arith)))

-- If the list holds a queue, the loop from the first element over the successors ends within one
-- round more than there are elements and reads the data pointers in the order of the queue.
pub walk-first :
    (fuel : ℕ) (l : TsList) (xs : List ℕ)
    → IsQueue l xs
    → length xs < fuel
    → walk fuel l (first l) ≡ some (values l.ptr xs)
unfolding first
walk-first fuel l xs q lt = walk-values fuel l l.head xs q.links lt
