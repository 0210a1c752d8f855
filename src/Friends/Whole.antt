-- ===== src/Friends/Whole.antt =====
-- All states that the three threads can reach.
use node2x6x2b.Base.{◌≡◌, refl, arith, Bool-cases, Option, some, inl, inr}
use node2x6x2b.Friends.{
  Second, Third, Friends, first_step, second_step, third_step, Reach, by_first, by_second, by_third,
  starts, next,
}
use node2x6x2b.Friends.Turns.{
  first_holds1, first_holds2, second_holds, third_holds, first_knows1, first_knows2, second_knows,
  third_knows, first_lag, third_lag,
}
use node2x6x2b.Friends.Single.{After, Counter1, first_step-Counter1, second_step-Counter1}
use node2x6x2b.Friends.Four.{Counter2, first_step-Counter2}
use node2x6x2b.Friends.Behind.{third_step-Counter2}

After-some :
    (P : Friends → Type 0) (o : Option Friends) (s : Friends) → o ≡ some s → After P o → P s
After-some P o s q after = rw q at after

-- Thread 1 leaves what is behind `counter2` alone, and thread 2 `counter1`.
second_step-Counter2 : (q : Second) (s : Friends) → Counter2 s → After Counter2 (second_step q s)
unfolding second_step
second_step-Counter2 Second.lock s f = elim (Bool-cases s.locked1) [
  | inl taken ↦ rw taken tt
  | inr free ↦ rw free f
]
second_step-Counter2 Second.below s f = f
second_step-Counter2 Second.odd s f = f
second_step-Counter2 Second.add s f = f
second_step-Counter2 Second.unlock s f = f
second_step-Counter2 Second.end s f = tt

third_step-Counter1 : (r : Third) (s : Friends) → Counter1 s → After Counter1 (third_step r s)
unfolding third_step
third_step-Counter1 Third.lock s f = elim (Bool-cases s.locked2) [
  | inl taken ↦ rw taken tt
  | inr free ↦ rw free f
]
third_step-Counter1 Third.below s f = f
third_step-Counter1 Third.odd s f = f
third_step-Counter1 Third.add2 s f = f
third_step-Counter1 Third.add3 s f = f
third_step-Counter1 Third.add4 s f = f
third_step-Counter1 Third.add5 s f = f
third_step-Counter1 Third.unlock s f = f
third_step-Counter1 Third.end s f = tt

-- In every state that the threads can reach, each lock has at most one owner, no counter passes `MAX`, and
-- the last three are at most one behind `counter2`, and only while its lock is held.
pub Reach-Counters : (s : Friends) → Reach s → Counter1 s × Counter2 s
unfolding first_holds1 second_holds first_knows1 second_knows first_holds2 third_holds first_knows2
    third_knows first_lag third_lag
Reach-Counters s starts = (
  record { owner = refl; alone = refl; bound = omega arith; first = refl; second = refl },
  record {
    owner = refl;
    alone = refl;
    bound = omega arith;
    first = refl;
    third = refl;
    lag3 = omega arith;
    lag4 = omega arith;
    lag5 = omega arith;
  },
)
Reach-Counters s' (next s s'' reach (by_first q)) =
    let (one, two) = Reach-Counters s reach in
    (
      After-some Counter1 (first_step s.first s) s' q (first_step-Counter1 s.first s one),
      After-some Counter2 (first_step s.first s) s' q (first_step-Counter2 s.first s two),
    )
Reach-Counters s' (next s s'' reach (by_second q)) =
    let (one, two) = Reach-Counters s reach in
    (
      After-some Counter1 (second_step s.second s) s' q (second_step-Counter1 s.second s one),
      After-some Counter2 (second_step s.second s) s' q (second_step-Counter2 s.second s two),
    )
Reach-Counters s' (next s s'' reach (by_third q)) =
    let (one, two) = Reach-Counters s reach in
    (
      After-some Counter1 (third_step s.third s) s' q (third_step-Counter1 s.third s one),
      After-some Counter2 (third_step s.third s) s' q (third_step-Counter2 s.third s two),
    )
