-- ===== src/Semaphores/Steps.antt =====
-- The steps of each thread, and what the semaphores count and the buffer holds behind them.
use node2x6x2b.Base.{
  ℕ, ◌+◌, ◌-◌, ◌≤◌, ◌≡◌, refl, ap, arith, Bool-cases, Option, none, some, leb, ◌==◌, inl, inr,
}
use node2x6x2b.Semaphores.{Place, Store, behind_test, produce_step, consume_step}
use node2x6x2b.Semaphores.Places.{
  holds, waited, touched, moved, posted, Counts, Numbers, IsStore, touched-le-waited,
  posted-le-touched,
}

abbrev pub After : Option Store → Type 0
After none = Unit
After (some s) = IsStore s.producer s.consumer s

Counts-behind_test : (count : ℕ) → count ≤ 100000 → Counts (behind_test count) (count + 1)
unfolding Counts
Counts-behind_test count le = elim (Bool-cases (leb (count + 1) 100000)) [
  | inl more ↦ rw more (ground (arith, more))
  | inr over ↦ rw over (ground (arith, over))
]

-- A step that leaves the buffer, the items and what `Consumer` has got as they are.
quiet :
    {p q : Place} (p' q' : Place) {s : Store} (s' : Store)
    → IsStore p q s
    → Numbers p' q' s'
    → Counts p' s'.given
    → Counts q' s'.taken
    → s'.given + touched p' ≡ s.given + touched p
    → s'.taken + touched q' ≡ s.taken + touched q
    → s'.buffer ≡ s.buffer
    → s'.items ≡ s.items
    → s'.got ≡ s.got
    → IsStore p' q' s'
quiet p' q' s' f numbers rounds rounds_taken given taken buffer items got = record {
  numbers = numbers;
  rounds = rounds;
  rounds_taken = rounds_taken;
  held = λ k lt. rw (buffer, items) (f.held k (omega (arith, given)));
  right = λ k lt. rw (got, items) (f.right k (omega (arith, taken)));
}

pub produce_step-IsStore :
    (item : ℕ) (p : Place) (s : Store) → IsStore p s.consumer s → After (produce_step item p s)
unfolding produce_step Numbers Counts holds waited touched moved posted
produce_step-IsStore item Place.wait s f =
    let (one, empties, fulls, in_is, out_is) = f.numbers in
    elim (Bool-cases (s.empty == 0)) [
      | inl stuck ↦ rw stuck tt
      | inr free ↦ rw free (
          quiet Place.lock s.consumer (record s { empty = s.empty - 1; producer = Place.lock }) f
            (ground arith) f.rounds f.rounds_taken refl refl refl refl refl)
    ]
produce_step-IsStore item Place.lock s f =
    let (one, empties, fulls, in_is, out_is) = f.numbers in
    elim (Bool-cases (s.mutex == 0)) [
      | inl stuck ↦ rw stuck tt
      | inr free ↦ rw free (
          quiet Place.access s.consumer (record s { mutex = s.mutex - 1; producer = Place.access })
            f (ground arith) f.rounds f.rounds_taken refl refl refl refl refl)
    ]
produce_step-IsStore item Place.access s f =
    let (one, empties, fulls, in_is, out_is) = f.numbers in
    let behind = touched-le-waited s.consumer in
    record {
      numbers = ground arith;
      rounds = f.rounds;
      rounds_taken = f.rounds_taken;
      held = λ k lt. ground (arith, f.held k);
      right = λ k lt. ground (arith, f.right k lt);
    }
produce_step-IsStore item Place.move s f =
    let (one, empties, fulls, in_is, out_is) = f.numbers in
    quiet Place.unlock s.consumer (record s { in_at = s.in_at + 1; producer = Place.unlock }) f
      (ground arith) f.rounds f.rounds_taken refl refl refl refl refl
produce_step-IsStore item Place.unlock s f =
    let (one, empties, fulls, in_is, out_is) = f.numbers in
    quiet Place.post s.consumer (record s { mutex = s.mutex + 1; producer = Place.post }) f
      (ground arith) f.rounds f.rounds_taken refl refl refl refl refl
produce_step-IsStore item Place.post s f =
    let (one, empties, fulls, in_is, out_is) = f.numbers in
    quiet Place.test s.consumer (record s { full = s.full + 1; producer = Place.test }) f
      (ground arith) f.rounds f.rounds_taken refl refl refl refl refl
produce_step-IsStore item Place.test s f =
    let (one, empties, fulls, in_is, out_is) = f.numbers in
    let counted = Counts-behind_test s.given f.rounds in
    elim (Bool-cases (leb (s.given + 1) 100000)) [
      | inl more ↦ rw more (
          quiet Place.wait s.consumer (record s { given = s.given + 1; producer = Place.wait }) f
            (ground arith) (rw more at counted) f.rounds_taken (omega arith) refl refl refl refl)
      | inr over ↦ rw over (
          quiet Place.end s.consumer (record s { given = s.given + 1; producer = Place.end }) f
            (ground arith) (rw over at counted) f.rounds_taken (omega arith) refl refl refl refl)
    ]
produce_step-IsStore item Place.end s f = tt

pub consume_step-IsStore :
    (q : Place) (s : Store) → IsStore s.producer q s → After (consume_step q s)
unfolding consume_step Numbers Counts holds waited touched moved posted
consume_step-IsStore Place.wait s f =
    let (one, empties, fulls, in_is, out_is) = f.numbers in
    elim (Bool-cases (s.full == 0)) [
      | inl stuck ↦ rw stuck tt
      | inr free ↦ rw free (
          quiet s.producer Place.lock (record s { full = s.full - 1; consumer = Place.lock }) f
            (ground arith) f.rounds f.rounds_taken refl refl refl refl refl)
    ]
consume_step-IsStore Place.lock s f =
    let (one, empties, fulls, in_is, out_is) = f.numbers in
    elim (Bool-cases (s.mutex == 0)) [
      | inl stuck ↦ rw stuck tt
      | inr free ↦ rw free (
          quiet s.producer Place.access (record s { mutex = s.mutex - 1; consumer = Place.access })
            f (ground arith) f.rounds f.rounds_taken refl refl refl refl refl)
    ]
consume_step-IsStore Place.access s f =
    let (one, empties, fulls, in_is, out_is) = f.numbers in
    let there = posted-le-touched s.producer in
    record {
      numbers = ground arith;
      rounds = f.rounds;
      rounds_taken = f.rounds_taken;
      held = f.held;
      right = λ k lt. ground (arith, f.right k, f.held s.taken, ap s.buffer out_is);
    }
consume_step-IsStore Place.move s f =
    let (one, empties, fulls, in_is, out_is) = f.numbers in
    quiet s.producer Place.unlock (record s { out_at = s.out_at + 1; consumer = Place.unlock }) f
      (ground arith) f.rounds f.rounds_taken refl refl refl refl refl
consume_step-IsStore Place.unlock s f =
    let (one, empties, fulls, in_is, out_is) = f.numbers in
    quiet s.producer Place.post (record s { mutex = s.mutex + 1; consumer = Place.post }) f
      (ground arith) f.rounds f.rounds_taken refl refl refl refl refl
consume_step-IsStore Place.post s f =
    let (one, empties, fulls, in_is, out_is) = f.numbers in
    quiet s.producer Place.test (record s { empty = s.empty + 1; consumer = Place.test }) f
      (ground arith) f.rounds f.rounds_taken refl refl refl refl refl
consume_step-IsStore Place.test s f =
    let (one, empties, fulls, in_is, out_is) = f.numbers in
    let counted = Counts-behind_test s.taken f.rounds_taken in
    elim (Bool-cases (leb (s.taken + 1) 100000)) [
      | inl more ↦ rw more (
          quiet s.producer Place.wait (record s { taken = s.taken + 1; consumer = Place.wait }) f
            (ground arith) f.rounds (rw more at counted) refl (omega arith) refl refl refl)
      | inr over ↦ rw over (
          quiet s.producer Place.end (record s { taken = s.taken + 1; consumer = Place.end }) f
            (ground arith) f.rounds (rw over at counted) refl (omega arith) refl refl refl)
    ]
consume_step-IsStore Place.end s f = tt
