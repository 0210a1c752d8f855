-- ===== src/Friends/Finish.antt =====
-- The threads can finish: rounds of two increments of each counter.
use node2x6x2b.Base.{
  ℕ, zero, suc, ◌+◌, ◌*◌, ◌%◌, ◌≤◌, ◌<◌, ◌≡◌, refl, arith, Bool, true, false, ltb, leb, ◌==◌,
}
use node2x6x2b.Friends.{
  count_max, First, Second, Third, Friends, first_step, second_step, third_step, Reach, by_first,
  by_second, by_third, starts, next,
}

abbrev at : ℕ → ℕ → ℕ → ℕ → ℕ → Bool → Bool → First → Second → Third → Friends
at c1 c2 c3 c4 c5 locked1 locked2 p q r = record {
  counter1 = c1;
  counter2 = c2;
  counter3 = c3;
  counter4 = c4;
  counter5 = c5;
  locked1 = locked1;
  locked2 = locked2;
  first = p;
  second = q;
  third = r;
}

-- No thread holds a lock, and each is at the start of its loop.
abbrev pub between : ℕ → ℕ → Friends
between c d = at c d d d d false false First.leave1 Second.below Third.below

first_turn :
    (c d : ℕ)
    → leb count_max c ≡ false
    → (c % 2 == 0) ≡ true
    → ltb c count_max ≡ true
    → (d % 2 == 0) ≡ true
    → ltb d count_max ≡ true
    → Reach (between c d)
    → Reach (between (c + 1) (d + 1))
unfolding first_step
first_turn c d few even below even' below' start =
    let r0 =
      next (at c d d d d false false First.leave1 Second.below Third.below)
        (at c d d d d false false First.even1 Second.below Third.below) start
        (by_first (rw few refl)) in
    let r1 =
      next (at c d d d d false false First.even1 Second.below Third.below)
        (at c d d d d false false First.below1 Second.below Third.below) r0
        (by_first (rw even refl)) in
    let r2 =
      next (at c d d d d false false First.below1 Second.below Third.below)
        (at c d d d d false false First.lock1 Second.below Third.below) r1
        (by_first (rw below refl)) in
    let r3 =
      next (at c d d d d false false First.lock1 Second.below Third.below)
        (at c d d d d true false First.add1 Second.below Third.below) r2 (by_first refl) in
    let r4 =
      next (at c d d d d true false First.add1 Second.below Third.below)
        (at (c + 1) d d d d true false First.unlock1 Second.below Third.below) r3 (by_first refl) in
    let r5 =
      next (at (c + 1) d d d d true false First.unlock1 Second.below Third.below)
        (at (c + 1) d d d d false false First.even2 Second.below Third.below) r4 (by_first refl) in
    let r6 =
      next (at (c + 1) d d d d false false First.even2 Second.below Third.below)
        (at (c + 1) d d d d false false First.below2 Second.below Third.below) r5
        (by_first (rw even' refl)) in
    let r7 =
      next (at (c + 1) d d d d false false First.below2 Second.below Third.below)
        (at (c + 1) d d d d false false First.lock2 Second.below Third.below) r6
        (by_first (rw below' refl)) in
    let r8 =
      next (at (c + 1) d d d d false false First.lock2 Second.below Third.below)
        (at (c + 1) d d d d false true First.add2 Second.below Third.below) r7 (by_first refl) in
    let r9 =
      next (at (c + 1) d d d d false true First.add2 Second.below Third.below)
        (at (c + 1) (d + 1) d d d false true First.add3 Second.below Third.below) r8
        (by_first refl) in
    let r10 =
      next (at (c + 1) (d + 1) d d d false true First.add3 Second.below Third.below)
        (at (c + 1) (d + 1) (d + 1) d d false true First.add4 Second.below Third.below) r9
        (by_first refl) in
    let r11 =
      next (at (c + 1) (d + 1) (d + 1) d d false true First.add4 Second.below Third.below)
        (at (c + 1) (d + 1) (d + 1) (d + 1) d false true First.add5 Second.below Third.below) r10
        (by_first refl) in
    let r12 =
      next (at (c + 1) (d + 1) (d + 1) (d + 1) d false true First.add5 Second.below Third.below)
        (at (c + 1) (d + 1) (d + 1) (d + 1) (d + 1) false true First.unlock2 Second.below
          Third.below)
        r11 (by_first refl) in
    next
      (at (c + 1) (d + 1) (d + 1) (d + 1) (d + 1) false true First.unlock2 Second.below Third.below)
      (at (c + 1) (d + 1) (d + 1) (d + 1) (d + 1) false false First.leave1 Second.below Third.below)
      r12 (by_first refl)

second_turn :
    (c d : ℕ)
    → ltb c count_max ≡ true
    → (c % 2 == 1) ≡ true
    → Reach (between c d)
    → Reach (between (c + 1) d)
unfolding second_step
second_turn c d below odd start =
    let r0 =
      next (at c d d d d false false First.leave1 Second.below Third.below)
        (at c d d d d false false First.leave1 Second.odd Third.below) start
        (by_second (rw below refl)) in
    let r1 =
      next (at c d d d d false false First.leave1 Second.odd Third.below)
        (at c d d d d false false First.leave1 Second.lock Third.below) r0
        (by_second (rw odd refl)) in
    let r2 =
      next (at c d d d d false false First.leave1 Second.lock Third.below)
        (at c d d d d true false First.leave1 Second.add Third.below) r1 (by_second refl) in
    let r3 =
      next (at c d d d d true false First.leave1 Second.add Third.below)
        (at (c + 1) d d d d true false First.leave1 Second.unlock Third.below) r2
        (by_second refl) in
    next (at (c + 1) d d d d true false First.leave1 Second.unlock Third.below)
      (at (c + 1) d d d d false false First.leave1 Second.below Third.below) r3 (by_second refl)

third_turn :
    (c d : ℕ)
    → ltb d count_max ≡ true
    → (d % 2 == 1) ≡ true
    → Reach (between c d)
    → Reach (between c (d + 1))
unfolding third_step
third_turn c d below odd start =
    let r0 =
      next (at c d d d d false false First.leave1 Second.below Third.below)
        (at c d d d d false false First.leave1 Second.below Third.odd) start
        (by_third (rw below refl)) in
    let r1 =
      next (at c d d d d false false First.leave1 Second.below Third.odd)
        (at c d d d d false false First.leave1 Second.below Third.lock) r0
        (by_third (rw odd refl)) in
    let r2 =
      next (at c d d d d false false First.leave1 Second.below Third.lock)
        (at c d d d d false true First.leave1 Second.below Third.add2) r1 (by_third refl) in
    let r3 =
      next (at c d d d d false true First.leave1 Second.below Third.add2)
        (at c (d + 1) d d d false true First.leave1 Second.below Third.add3) r2 (by_third refl) in
    let r4 =
      next (at c (d + 1) d d d false true First.leave1 Second.below Third.add3)
        (at c (d + 1) (d + 1) d d false true First.leave1 Second.below Third.add4) r3
        (by_third refl) in
    let r5 =
      next (at c (d + 1) (d + 1) d d false true First.leave1 Second.below Third.add4)
        (at c (d + 1) (d + 1) (d + 1) d false true First.leave1 Second.below Third.add5) r4
        (by_third refl) in
    let r6 =
      next (at c (d + 1) (d + 1) (d + 1) d false true First.leave1 Second.below Third.add5)
        (at c (d + 1) (d + 1) (d + 1) (d + 1) false true First.leave1 Second.below Third.unlock) r5
        (by_third refl) in
    next (at c (d + 1) (d + 1) (d + 1) (d + 1) false true First.leave1 Second.below Third.unlock)
      (at c (d + 1) (d + 1) (d + 1) (d + 1) false false First.leave1 Second.below Third.below) r6
      (by_third refl)

-- Each thread has had a turn.
turns :
    (c : ℕ)
    → c % 2 ≡ 0
    → c < count_max
    → Reach (between c c)
    → Reach (between (c + 1 + 1) (c + 1 + 1))
turns c even below start =
    let first =
      first_turn c c (ground arith) (ground arith) (ground arith) (ground arith) (ground arith)
        start in
    let second = second_turn (c + 1) (c + 1) (ground arith) (ground arith) first in
    third_turn (c + 1 + 1) (c + 1) (ground arith) (ground arith) second

rounds : (k : ℕ) → 2 * k ≤ count_max → Reach (between (2 * k) (2 * k))
rounds zero le = starts
rounds (suc k) le =
    let next_even : 2 * suc k ≡ 2 * k + 1 + 1 = omega arith in
    rw next_even (turns (2 * k) (omega arith) (omega arith) (rounds k (omega arith)))

-- All threads are done, with all counters at `MAX`.
abbrev pub finish : Friends
finish =
    at count_max count_max count_max count_max count_max false false First.end Second.end Third.end

-- The threads can come to the end, with all counters at `MAX`.
pub Reach_finish : Reach finish
unfolding first_step second_step third_step
Reach_finish =
    let start = rounds 10000000 (omega arith) in
    let e0 =
      next
        (at count_max count_max count_max count_max count_max false false First.leave1 Second.below
          Third.below)
        (at count_max count_max count_max count_max count_max false false First.leave2 Second.below
          Third.below)
        start (by_first refl) in
    let e1 =
      next
        (at count_max count_max count_max count_max count_max false false First.leave2 Second.below
          Third.below)
        (at count_max count_max count_max count_max count_max false false First.end Second.below
          Third.below)
        e0 (by_first refl) in
    let e2 =
      next
        (at count_max count_max count_max count_max count_max false false First.end Second.below
          Third.below)
        (at count_max count_max count_max count_max count_max false false First.end Second.end
          Third.below)
        e1 (by_second refl) in
    next
      (at count_max count_max count_max count_max count_max false false First.end Second.end
        Third.below)
      (at count_max count_max count_max count_max count_max false false First.end Second.end
        Third.end)
      e2 (by_third refl)
