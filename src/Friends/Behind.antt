-- ===== src/Friends/Behind.antt =====
-- Thread 2 on `counter2` and the three counters behind it.
use node2x6x2b.Base.{ℕ, ◌%◌, ◌≡◌, refl, arith, Bool, true, false, Bool-cases, ltb, ◌==◌, inl, inr}
use node2x6x2b.Friends.{count_max, First, Third, Friends, branch, third_step}
use node2x6x2b.Friends.Turns.{third_holds, third_knows, third_lag, first_knows2-odd}
use node2x6x2b.Friends.Single.{After}
use node2x6x2b.Friends.Four.{IsFourfold, Counter2}

third_goes :
    {c2 c3 c4 c5 : ℕ} {locked : Bool} {p : First} {r : Third} (x : Third)
    → IsFourfold c2 c3 c4 c5 locked p r
    → third_holds x ≡ third_holds r
    → ((k : ℕ) → third_lag k x ≡ third_lag k r)
    → third_knows x c2 ≡ true
    → IsFourfold c2 c3 c4 c5 locked p x
third_goes x f hx lag knows = record {
  owner = rw hx f.owner;
  alone = rw hx f.alone;
  bound = f.bound;
  first = f.first;
  third = knows;
  lag3 = rw (lag 3) f.lag3;
  lag4 = rw (lag 4) f.lag4;
  lag5 = rw (lag 5) f.lag5;
}

third_moves :
    {c2 c3 c4 c5 : ℕ} {locked : Bool} {p : First} {r : Third} (b : Bool) (x y : Third)
    → IsFourfold c2 c3 c4 c5 locked p r
    → third_holds x ≡ third_holds r
    → third_holds y ≡ third_holds r
    → ((k : ℕ) → third_lag k x ≡ third_lag k r)
    → ((k : ℕ) → third_lag k y ≡ third_lag k r)
    → (b ≡ true → third_knows x c2 ≡ true)
    → (b ≡ false → third_knows y c2 ≡ true)
    → IsFourfold c2 c3 c4 c5 locked p (branch b x y)
third_moves true x y f hx hy lx ly learns other = third_goes x f hx lx (learns refl)
third_moves false x y f hx hy lx ly learns other = third_goes y f hy ly (other refl)

pub third_step-Counter2 :
    (r : Third) (s : Friends)
    → IsFourfold s.counter2 s.counter3 s.counter4 s.counter5 s.locked2 s.first r
    → After Counter2 (third_step r s)
unfolding third_step third_holds third_knows third_lag
third_step-Counter2 Third.below s f =
    third_moves (ltb s.counter2 count_max) Third.odd Third.end f refl refl (λ k. refl) (λ k. refl)
      (λ h. refl) (λ h. ground arith)
third_step-Counter2 Third.odd s f =
    third_moves (s.counter2 % 2 == 1) Third.lock Third.below f refl refl (λ k. refl) (λ k. refl)
      (λ h. h) (λ h. refl)
third_step-Counter2 Third.lock s f = elim (Bool-cases s.locked2) [
  | inl taken ↦ rw taken tt
  | inr free ↦ rw free (record {
    owner = ground (arith, f.owner);
    alone = ground (arith, f.owner);
    bound = f.bound;
    first = f.first;
    third = f.third;
    lag3 = f.lag3;
    lag4 = f.lag4;
    lag5 = f.lag5;
  })
]
third_step-Counter2 Third.add2 s f = record {
  owner = f.owner;
  alone = f.alone;
  bound = ground (arith, f.third, f.bound);
  first = first_knows2-odd s.first s.counter2 (ground (arith, f.third)) f.first;
  third = refl;
  lag3 = omega (arith, f.lag3);
  lag4 = omega (arith, f.lag4);
  lag5 = omega (arith, f.lag5);
}
third_step-Counter2 Third.add3 s f = record {
  owner = f.owner;
  alone = f.alone;
  bound = f.bound;
  first = f.first;
  third = refl;
  lag3 = omega (arith, f.lag3);
  lag4 = f.lag4;
  lag5 = f.lag5;
}
third_step-Counter2 Third.add4 s f = record {
  owner = f.owner;
  alone = f.alone;
  bound = f.bound;
  first = f.first;
  third = refl;
  lag3 = f.lag3;
  lag4 = omega (arith, f.lag4);
  lag5 = f.lag5;
}
third_step-Counter2 Third.add5 s f = record {
  owner = f.owner;
  alone = f.alone;
  bound = f.bound;
  first = f.first;
  third = refl;
  lag3 = f.lag3;
  lag4 = f.lag4;
  lag5 = omega (arith, f.lag5);
}
third_step-Counter2 Third.unlock s f = record {
  owner = ground (arith, f.alone);
  alone = ground arith;
  bound = f.bound;
  first = f.first;
  third = refl;
  lag3 = f.lag3;
  lag4 = f.lag4;
  lag5 = f.lag5;
}
third_step-Counter2 Third.end s f = tt
