-- ===== src/Unlocked/Race.antt =====
-- Behind the first lap: `Consumer` reads `in` between `__sync_fetch_and_add` and the wrap of `Producer`.
use node2x6x2b.Base.{ℕ, zero, suc, ◌+◌, ◌%◌, ◌<◌, ◌≡◌, refl, arith, true, false, ltb, ◌==◌, update}
use node2x6x2b.Unlocked.{
  buff_max, iter, Place, Ring, produce_step, consume_step, Reach, produces, consumes, starts, next,
}

-- The fields that are not numbers or places.
pub record Store : Type 0 where
  pub buff : ℕ → ℕ
  pub items : ℕ → ℕ
  pub got : ℕ → ℕ

abbrev at : Store → ℕ → ℕ → ℕ → ℕ → Place → Place → Ring
at m in_at out_at given taken producer consumer = record {
  in_at = in_at;
  out_at = out_at;
  buff = m.buff;
  given = given;
  taken = taken;
  items = m.items;
  got = m.got;
  producer = producer;
  consumer = consumer;
}

-- `Producer` has stored an item, and `Consumer` has read one.
abbrev stored : Store → ℕ → ℕ → Store
stored m i k = record m { buff = update m.buff i 0; items = update m.items k 0 }

abbrev loaded : Store → ℕ → ℕ → Store
loaded m i k = record m { got = update m.got k (m.buff i) }

abbrev between : Store → ℕ → Ring
between m k = at m k k k k Place.loop Place.loop

abbrev zeros : Store
zeros = record { buff = λ i. 0; items = λ i. 0; got = λ i. 0 }

-- One item in the first lap.
turn :
    (m : Store) (k : ℕ)
    → k < 999
    → Reach (between m k)
    → Reach (between (loaded (stored m k k) k k) (k + 1))
unfolding produce_step consume_step
turn m k lt start =
    let more : ltb k iter ≡ true = ground arith in
    let room : ((k + 1) % buff_max == k) ≡ false = ground arith in
    let plain : (k + 1) % buff_max ≡ k + 1 = omega arith in
    let filled : (k + 1 == k) ≡ false = ground arith in
    let r0 =
      next (at m k k k k Place.loop Place.loop) (at m k k k k Place.wait Place.loop) start
        (produces 0 (rw more refl)) in
    let r1 =
      next (at m k k k k Place.wait Place.loop) (at m k k k k Place.access Place.loop) r0
        (produces 0 (rw room refl)) in
    let r2 =
      next (at m k k k k Place.access Place.loop) (at (stored m k k) k k k k Place.add Place.loop)
        r1 (produces 0 refl) in
    let r3 =
      next (at (stored m k k) k k k k Place.add Place.loop)
        (at (stored m k k) (k + 1) k (k + 1) k Place.wrap Place.loop) r2 (produces 0 refl) in
    let r4 =
      next (at (stored m k k) (k + 1) k (k + 1) k Place.wrap Place.loop)
        (at (stored m k k) (k + 1) k (k + 1) k Place.loop Place.loop) r3
        (produces 0 (rw plain refl)) in
    let r5 =
      next (at (stored m k k) (k + 1) k (k + 1) k Place.loop Place.loop)
        (at (stored m k k) (k + 1) k (k + 1) k Place.loop Place.wait) r4
        (consumes (rw more refl)) in
    let r6 =
      next (at (stored m k k) (k + 1) k (k + 1) k Place.loop Place.wait)
        (at (stored m k k) (k + 1) k (k + 1) k Place.loop Place.access) r5
        (consumes (rw filled refl)) in
    let r7 =
      next (at (stored m k k) (k + 1) k (k + 1) k Place.loop Place.access)
        (at (loaded (stored m k k) k k) (k + 1) k (k + 1) k Place.loop Place.add) r6
        (consumes refl) in
    let r8 =
      next (at (loaded (stored m k k) k k) (k + 1) k (k + 1) k Place.loop Place.add)
        (at (loaded (stored m k k) k k) (k + 1) (k + 1) (k + 1) (k + 1) Place.loop Place.wrap) r7
        (consumes refl) in
    next (at (loaded (stored m k k) k k) (k + 1) (k + 1) (k + 1) (k + 1) Place.loop Place.wrap)
      (at (loaded (stored m k k) k k) (k + 1) (k + 1) (k + 1) (k + 1) Place.loop Place.loop) r8
      (consumes (rw plain refl))

turns : (k : ℕ) → k < 1000 → (m : Store) × Reach (between m k)
turns zero lt = (zeros, starts (λ i. 0) (λ i. 0) (λ i. 0))
turns (suc k) lt =
    let (m, reach) = turns k (omega arith) in
    let next_k : suc k ≡ k + 1 = omega arith in
    (loaded (stored m k k) k k, rw next_k (turn m k (omega arith) reach))

-- The ring after one item.
abbrev first_item : Ring
first_item = between (loaded (stored zeros 0 0) 0 0) 1

first_item-Reach : Reach first_item
first_item-Reach = turn zeros 0 (omega arith) (starts (λ i. 0) (λ i. 0) (λ i. 0))

-- `Consumer` can take an item that `Producer` has not given.
overtake :
    (m : Store)
    → Reach (between m 999)
    → Reach (
        at
          (loaded (loaded (stored m 999 999) 999 999) 0 1000)
          1000
          1
          1000
          1001
          Place.wrap
          Place.wrap)
unfolding produce_step consume_step
overtake m start =
    let r0 =
      next (at m 999 999 999 999 Place.loop Place.loop) (at m 999 999 999 999 Place.wait Place.loop)
        start (produces 0 refl) in
    let r1 =
      next (at m 999 999 999 999 Place.wait Place.loop)
        (at m 999 999 999 999 Place.access Place.loop) r0 (produces 0 refl) in
    let r2 =
      next (at m 999 999 999 999 Place.access Place.loop)
        (at (stored m 999 999) 999 999 999 999 Place.add Place.loop) r1 (produces 0 refl) in
    let r3 =
      next (at (stored m 999 999) 999 999 999 999 Place.add Place.loop)
        (at (stored m 999 999) 1000 999 1000 999 Place.wrap Place.loop) r2 (produces 0 refl) in
    let r4 =
      next (at (stored m 999 999) 1000 999 1000 999 Place.wrap Place.loop)
        (at (stored m 999 999) 1000 999 1000 999 Place.wrap Place.wait) r3 (consumes refl) in
    let r5 =
      next (at (stored m 999 999) 1000 999 1000 999 Place.wrap Place.wait)
        (at (stored m 999 999) 1000 999 1000 999 Place.wrap Place.access) r4 (consumes refl) in
    let r6 =
      next (at (stored m 999 999) 1000 999 1000 999 Place.wrap Place.access)
        (at (loaded (stored m 999 999) 999 999) 1000 999 1000 999 Place.wrap Place.add) r5
        (consumes refl) in
    let r7 =
      next (at (loaded (stored m 999 999) 999 999) 1000 999 1000 999 Place.wrap Place.add)
        (at (loaded (stored m 999 999) 999 999) 1000 1000 1000 1000 Place.wrap Place.wrap) r6
        (consumes refl) in
    let r8 =
      next (at (loaded (stored m 999 999) 999 999) 1000 1000 1000 1000 Place.wrap Place.wrap)
        (at (loaded (stored m 999 999) 999 999) 1000 0 1000 1000 Place.wrap Place.loop) r7
        (consumes refl) in
    let r9 =
      next (at (loaded (stored m 999 999) 999 999) 1000 0 1000 1000 Place.wrap Place.loop)
        (at (loaded (stored m 999 999) 999 999) 1000 0 1000 1000 Place.wrap Place.wait) r8
        (consumes refl) in
    let r10 =
      next (at (loaded (stored m 999 999) 999 999) 1000 0 1000 1000 Place.wrap Place.wait)
        (at (loaded (stored m 999 999) 999 999) 1000 0 1000 1000 Place.wrap Place.access) r9
        (consumes refl) in
    let r11 =
      next (at (loaded (stored m 999 999) 999 999) 1000 0 1000 1000 Place.wrap Place.access)
        (at (loaded (loaded (stored m 999 999) 999 999) 0 1000) 1000 0 1000 1000 Place.wrap
          Place.add)
        r10 (consumes refl) in
    next
      (at (loaded (loaded (stored m 999 999) 999 999) 0 1000) 1000 0 1000 1000 Place.wrap Place.add)
      (at (loaded (loaded (stored m 999 999) 999 999) 0 1000) 1000 1 1000 1001 Place.wrap
        Place.wrap)
      r11 (consumes refl)

Reach_ahead : (s : Ring) × Reach s × (s.given < s.taken)
Reach_ahead = let (m, reach) = turns 999 (omega arith) in (_, overtake m reach, omega arith)
