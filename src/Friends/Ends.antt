-- ===== src/Friends/Ends.antt =====
-- How the three threads end, and that they do not get stuck before.
use node2x6x2b.Base.{
  ◌+◌, ◌≡◌, ◌⊎◌, refl, sym, ◌∙◌, arith, Bool, true, false, Bool-cases, Option, none, some, leb,
  if◌then◌else◌, inl, inr,
}
use node2x6x2b.Friends.{
  count_max, First, Second, Third, Friends, first_step, second_step, third_step, Step, Reach,
  by_first, by_second, by_third,
}
use node2x6x2b.Friends.Turns.{
  first_holds1, first_holds2, second_holds, third_holds, first_knows1, first_knows2, first_lag,
  third_lag,
}
use node2x6x2b.Friends.Whole.{Reach-Counters}

-- All threads are behind their loops.
pub record IsDone (s : Friends) : Type 0 where
  pub first : s.first ≡ First.end
  pub second : s.second ≡ Second.end
  pub third : s.third ≡ Third.end

-- Where all three threads are done, all counters are `MAX`.
Reach_done :
    (s : Friends)
    → Reach s
    → IsDone s
    → (s.counter1 ≡ count_max)
      × (s.counter2 ≡ count_max)
      × (s.counter3 ≡ count_max)
      × (s.counter4 ≡ count_max)
      × (s.counter5 ≡ count_max)
unfolding first_knows1 first_knows2 first_lag third_lag
Reach_done s reach done =
    let (one, two) = Reach-Counters s reach in
    let c1 : leb count_max s.counter1 ≡ true = rw done.first at one.first in
    let c2 : leb count_max s.counter2 ≡ true = rw done.first at two.first in
    let l3 : s.counter2 ≡ s.counter3 + (0 + 0) = rw (done.first, done.third) at two.lag3 in
    let l4 : s.counter2 ≡ s.counter4 + (0 + 0) = rw (done.first, done.third) at two.lag4 in
    let l5 : s.counter2 ≡ s.counter5 + (0 + 0) = rw (done.first, done.third) at two.lag5 in
    (
      ground (arith, one.bound),
      ground (arith, two.bound),
      ground (arith, two.bound),
      ground (arith, two.bound),
      ground (arith, two.bound),
    )

-- A thread can go on.
abbrev CanStep : Option Friends → Type 0
CanStep o = (s : Friends) × (o ≡ some s)

free-CanStep : (b : Bool) (s : Friends) → b ≡ false → CanStep (if b then none else some s)
free-CanStep true s h = cc
free-CanStep false s h = (s, refl)

-- Thread 1 goes on, unless it waits for a lock that another thread has, or is done.
second-CanStep :
    (q : Second) (s : Friends)
    → CanStep (second_step q s) ⊎ ((q ≡ Second.lock) × (s.locked1 ≡ true)) ⊎ (q ≡ Second.end)
unfolding second_step
second-CanStep Second.below s = inl (_, refl)
second-CanStep Second.odd s = inl (_, refl)
second-CanStep Second.lock s = elim (Bool-cases s.locked1) [
  | inl taken ↦ inr (inl (refl, taken))
  | inr free ↦ inl (free-CanStep s.locked1 _ free)
]
second-CanStep Second.add s = inl (_, refl)
second-CanStep Second.unlock s = inl (_, refl)
second-CanStep Second.end s = inr (inr refl)

third-CanStep :
    (r : Third) (s : Friends)
    → CanStep (third_step r s) ⊎ ((r ≡ Third.lock) × (s.locked2 ≡ true)) ⊎ (r ≡ Third.end)
unfolding third_step
third-CanStep Third.lock s = elim (Bool-cases s.locked2) [
  | inl taken ↦ inr (inl (refl, taken))
  | inr free ↦ inl (free-CanStep s.locked2 _ free)
]
third-CanStep Third.end s = inr (inr refl)
third-CanStep Third.below s = inl (_, refl)
third-CanStep Third.odd s = inl (_, refl)
third-CanStep Third.add2 s = inl (_, refl)
third-CanStep Third.add3 s = inl (_, refl)
third-CanStep Third.add4 s = inl (_, refl)
third-CanStep Third.add5 s = inl (_, refl)
third-CanStep Third.unlock s = inl (_, refl)

first-CanStep :
    (p : First) (s : Friends)
    → CanStep (first_step p s)
      ⊎ ((p ≡ First.lock1) × (s.locked1 ≡ true))
      ⊎ ((p ≡ First.lock2) × (s.locked2 ≡ true))
      ⊎ (p ≡ First.end)
unfolding first_step
first-CanStep First.lock1 s = elim (Bool-cases s.locked1) [
  | inl taken ↦ inr (inl (refl, taken))
  | inr free ↦ inl (free-CanStep s.locked1 _ free)
]
first-CanStep First.lock2 s = elim (Bool-cases s.locked2) [
  | inl taken ↦ inr (inr (inl (refl, taken)))
  | inr free ↦ inl (free-CanStep s.locked2 _ free)
]
first-CanStep First.end s = inr (inr (inr refl))
first-CanStep First.leave1 s = inl (_, refl)
first-CanStep First.leave2 s = inl (_, refl)
first-CanStep First.even1 s = inl (_, refl)
first-CanStep First.below1 s = inl (_, refl)
first-CanStep First.add1 s = inl (_, refl)
first-CanStep First.unlock1 s = inl (_, refl)
first-CanStep First.even2 s = inl (_, refl)
first-CanStep First.below2 s = inl (_, refl)
first-CanStep First.add2 s = inl (_, refl)
first-CanStep First.add3 s = inl (_, refl)
first-CanStep First.add4 s = inl (_, refl)
first-CanStep First.add5 s = inl (_, refl)
first-CanStep First.unlock2 s = inl (_, refl)

-- The owner of a lock goes on.
second_holds-CanStep :
    (s : Friends) → second_holds s.second ≡ true → CanStep (second_step s.second s)
unfolding second_holds
second_holds-CanStep s holds = elim (second-CanStep s.second s) [
  | inl goes ↦ goes
  | inr (inl (q, taken)) ↦ let clash : false ≡ true = rw q at holds in cc
  | inr (inr q) ↦ let clash : false ≡ true = rw q at holds in cc
]

third_holds-CanStep : (s : Friends) → third_holds s.third ≡ true → CanStep (third_step s.third s)
unfolding third_holds
third_holds-CanStep s holds = elim (third-CanStep s.third s) [
  | inl goes ↦ goes
  | inr (inl (q, taken)) ↦ let clash : false ≡ true = rw q at holds in cc
  | inr (inr q) ↦ let clash : false ≡ true = rw q at holds in cc
]

-- In every state that the threads can reach, they are all done, or one of them can take a step.
pub Reach_alive : (s : Friends) → Reach s → IsDone s ⊎ ((s' : Friends) × Step s s')
unfolding first_holds1 first_holds2 second_holds third_holds
Reach_alive s reach =
    let (one, two) = Reach-Counters s reach in
    elim (first-CanStep s.first s) [
      | inl (s', q) ↦ inr (s', by_first q)
      | inr (inl (p, taken)) ↦
          let held : second_holds s.second ≡ true = sym (rw p at one.owner) ∙ taken in
          let (s', q) = second_holds-CanStep s held in inr (s', by_second q)
      | inr (inr (inl (p, taken))) ↦
          let held : third_holds s.third ≡ true = sym (rw p at two.owner) ∙ taken in
          let (s', q) = third_holds-CanStep s held in inr (s', by_third q)
      | inr (inr (inr p)) ↦ elim (second-CanStep s.second s) [
        | inl (s', q) ↦ inr (s', by_second q)
        | inr (inl (q, taken)) ↦
            let clash : false ≡ true = sym (rw (p, q) at one.owner) ∙ taken in cc
        | inr (inr q) ↦ elim (third-CanStep s.third s) [
          | inl (s', r) ↦ inr (s', by_third r)
          | inr (inl (r, taken)) ↦
              let clash : false ≡ true = sym (rw (p, r) at two.owner) ∙ taken in cc
          | inr (inr r) ↦ inl (record { first = p; second = q; third = r })
        ]
      ]
    ]
