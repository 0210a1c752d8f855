-- ===== src/Semaphores/Whole.antt =====
-- What holds in every state that the threads can reach, and where both are done.
use node2x6x2b.Base.{ℕ, ◌+◌, ◌≤◌, ◌<◌, ◌≡◌, arith, some}
use node2x6x2b.Semaphores.{buffer_max, Place, Store, Reach, produces, consumes, starts, next}
use node2x6x2b.Semaphores.Places.{
  holds, waited, touched, moved, posted, Counts, Numbers, IsStore, moved_few, moved-le-waited,
  posted-le-moved,
}
use node2x6x2b.Semaphores.Steps.{After, produce_step-IsStore, consume_step-IsStore}

-- In every state that the two threads can reach, at most one of them holds `mutex`; `full` is the number of items that
-- have been given and not taken, and `empty` is `BUFFER_MAX` less that number, but for what a thread in the middle of
-- its round has waited for and not posted; the slots that have been used hold the items, and what `Consumer` has got
-- are the items of `Producer`, in order.
pub Reach-IsStore : (s : Store) → Reach s → IsStore s.producer s.consumer s
unfolding Numbers Counts holds waited touched moved posted
Reach-IsStore s (starts buffer items got) = record {
  numbers = ground arith;
  rounds = omega arith;
  rounds_taken = omega arith;
  held = λ k lt. absurd (omega arith);
  right = λ k lt. absurd (omega arith);
}
Reach-IsStore s' (next s s'' reach (produces item e)) =
    let after : After (some s') =
      rw e at (produce_step-IsStore item s.producer s (Reach-IsStore s reach)) in
    after
Reach-IsStore s' (next s s'' reach (consumes e)) =
    let after : After (some s') =
      rw e at (consume_step-IsStore s.consumer s (Reach-IsStore s reach)) in
    after

-- In every state that the threads can reach, `in` is inside `buffer`, which is never wrapped, `out` is not ahead of
-- `in`, and not both threads are between `sem_wait(&mutex)` and `sem_post(&mutex)`.
store_bounds :
    (s : Store)
    → Reach s
    → (s.in_at < buffer_max) × (s.out_at ≤ s.in_at) × (holds s.producer + holds s.consumer ≤ 1)
unfolding Numbers
store_bounds s reach =
    let f = Reach-IsStore s reach in
    let (one, empties, fulls, in_is, out_is) = f.numbers in
    let few = moved_few s.producer s.given f.rounds in
    let ahead = posted-le-moved s.producer in let late = moved-le-waited s.consumer in ground arith

at_places : {p q p' q' : Place} (s : Store) → p ≡ p' → q ≡ q' → IsStore p q s → IsStore p' q' s
at_places s e e' f = rw (← e, ← e') f

-- Where both threads are done, 100,001 items have gone through the buffer, the semaphores have the values of the
-- start, and what `Consumer` has got is, place for place, what `Producer` drew.
pub store_done :
    (s : Store)
    → Reach s
    → s.producer ≡ Place.end
    → s.consumer ≡ Place.end
    → (s.in_at ≡ 100001)
      × (s.out_at ≡ 100001)
      × (s.full ≡ 0)
      × (s.empty ≡ buffer_max)
      × (s.mutex ≡ 1)
      × ((k : ℕ) → k < 100001 → s.got k ≡ s.items k)
unfolding Numbers Counts holds waited touched moved posted
store_done s reach p q =
    let f = at_places s p q (Reach-IsStore s reach) in
    let (one, empties, fulls, in_is, out_is) = f.numbers in
    let given = f.rounds in
    let taken = f.rounds_taken in
    (
      omega arith,
      omega arith,
      omega arith,
      omega arith,
      omega arith,
      λ k lt. f.right k (omega arith),
    )
