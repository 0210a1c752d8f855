-- ===== src/Friends/Four.antt =====
-- The two threads on `counter2` and the three counters behind it, and their lock.
use node2x6x2b.Base.{
  ℕ, ◌+◌, ◌%◌, ◌≤◌, ◌≡◌, refl, sym, ◌∙◌, arith, Bool, true, false, ◌&&◌, ◌||◌, Bool-cases, ltb, leb,
  ◌==◌, inl, inr,
}
use node2x6x2b.Friends.{count_max, First, Third, Friends, branch, first_step}
use node2x6x2b.Friends.Turns.{
  first_holds2, third_holds, first_knows2, third_knows, first_lag, third_lag, third_knows-even,
}
use node2x6x2b.Friends.Single.{After}

-- The last three counters are behind the first one only while a thread is between its assignments.
pub record IsFourfold (c2 c3 c4 c5 : ℕ) (locked : Bool) (p : First) (r : Third) : Type 0 where
  pub owner : locked ≡ (first_holds2 p || third_holds r)
  pub alone : (first_holds2 p && third_holds r) ≡ false
  pub bound : c2 ≤ count_max
  pub first : first_knows2 p c2 ≡ true
  pub third : third_knows r c2 ≡ true
  pub lag3 : c2 ≡ c3 + (first_lag 3 p + third_lag 3 r)
  pub lag4 : c2 ≡ c4 + (first_lag 4 p + third_lag 4 r)
  pub lag5 : c2 ≡ c5 + (first_lag 5 p + third_lag 5 r)

abbrev pub Counter2 : Friends → Type 0
Counter2 s = IsFourfold s.counter2 s.counter3 s.counter4 s.counter5 s.locked2 s.first s.third

first_goes :
    {c2 c3 c4 c5 : ℕ} {locked : Bool} {p : First} {r : Third} (x : First)
    → IsFourfold c2 c3 c4 c5 locked p r
    → first_holds2 x ≡ first_holds2 p
    → ((k : ℕ) → first_lag k x ≡ first_lag k p)
    → first_knows2 x c2 ≡ true
    → IsFourfold c2 c3 c4 c5 locked x r
first_goes x f hx lag knows = record {
  owner = rw hx f.owner;
  alone = rw hx f.alone;
  bound = f.bound;
  first = knows;
  third = f.third;
  lag3 = rw (lag 3) f.lag3;
  lag4 = rw (lag 4) f.lag4;
  lag5 = rw (lag 5) f.lag5;
}

-- A test moves a thread, with what the thread learns by it.
first_moves :
    {c2 c3 c4 c5 : ℕ} {locked : Bool} {p : First} {r : Third} (b : Bool) (x y : First)
    → IsFourfold c2 c3 c4 c5 locked p r
    → first_holds2 x ≡ first_holds2 p
    → first_holds2 y ≡ first_holds2 p
    → ((k : ℕ) → first_lag k x ≡ first_lag k p)
    → ((k : ℕ) → first_lag k y ≡ first_lag k p)
    → (b ≡ true → first_knows2 x c2 ≡ true)
    → first_knows2 y c2 ≡ true
    → IsFourfold c2 c3 c4 c5 locked (branch b x y) r
first_moves true x y f hx hy lx ly learns other = first_goes x f hx lx (learns refl)
first_moves false x y f hx hy lx ly learns other = first_goes y f hy ly other

pub first_step-Counter2 :
    (p : First) (s : Friends)
    → IsFourfold s.counter2 s.counter3 s.counter4 s.counter5 s.locked2 p s.third
    → After Counter2 (first_step p s)
unfolding first_step first_holds2 first_knows2 first_lag
first_step-Counter2 First.leave1 s f =
    first_moves (leb count_max s.counter1) First.leave2 First.even1 f refl refl (λ k. refl)
      (λ k. refl) (λ h. refl) refl
first_step-Counter2 First.leave2 s f =
    first_moves (leb count_max s.counter2) First.end First.even1 f refl refl (λ k. refl) (λ k. refl)
      (λ h. h) refl
first_step-Counter2 First.even1 s f =
    first_moves (s.counter1 % 2 == 0) First.below1 First.even2 f refl refl (λ k. refl) (λ k. refl)
      (λ h. refl) refl
first_step-Counter2 First.below1 s f =
    first_moves (ltb s.counter1 count_max) First.lock1 First.even2 f refl refl (λ k. refl)
      (λ k. refl) (λ h. refl) refl
first_step-Counter2 First.lock1 s f = elim (Bool-cases s.locked1) [
  | inl taken ↦ rw taken tt
  | inr free ↦ rw free (first_goes First.add1 f refl (λ k. refl) refl)
]
first_step-Counter2 First.add1 s f = first_goes First.unlock1 f refl (λ k. refl) refl
first_step-Counter2 First.unlock1 s f = first_goes First.even2 f refl (λ k. refl) refl
first_step-Counter2 First.even2 s f =
    first_moves (s.counter2 % 2 == 0) First.below2 First.leave1 f refl refl (λ k. refl) (λ k. refl)
      (λ h. h) refl
first_step-Counter2 First.below2 s f =
    first_moves (ltb s.counter2 count_max) First.lock2 First.leave1 f refl refl (λ k. refl)
      (λ k. refl) (λ h. ground (arith, f.first, h)) refl
first_step-Counter2 First.lock2 s f = elim (Bool-cases s.locked2) [
  | inl taken ↦ rw taken tt
  | inr free ↦ rw free (record {
    owner = refl;
    alone = sym f.owner ∙ free;
    bound = f.bound;
    first = f.first;
    third = f.third;
    lag3 = f.lag3;
    lag4 = f.lag4;
    lag5 = f.lag5;
  })
]
first_step-Counter2 First.add2 s f = record {
  owner = f.owner;
  alone = f.alone;
  bound = ground (arith, f.first);
  first = refl;
  third =
      third_knows-even s.third s.counter2 (ground (arith, f.first)) (ground (arith, f.first))
        f.third;
  lag3 = omega (arith, f.lag3);
  lag4 = omega (arith, f.lag4);
  lag5 = omega (arith, f.lag5);
}
first_step-Counter2 First.add3 s f = record {
  owner = f.owner;
  alone = f.alone;
  bound = f.bound;
  first = refl;
  third = f.third;
  lag3 = omega (arith, f.lag3);
  lag4 = f.lag4;
  lag5 = f.lag5;
}
first_step-Counter2 First.add4 s f = record {
  owner = f.owner;
  alone = f.alone;
  bound = f.bound;
  first = refl;
  third = f.third;
  lag3 = f.lag3;
  lag4 = omega (arith, f.lag4);
  lag5 = f.lag5;
}
first_step-Counter2 First.add5 s f = record {
  owner = f.owner;
  alone = f.alone;
  bound = f.bound;
  first = refl;
  third = f.third;
  lag3 = f.lag3;
  lag4 = f.lag4;
  lag5 = omega (arith, f.lag5);
}
first_step-Counter2 First.unlock2 s f = record {
  owner = sym f.alone;
  alone = refl;
  bound = f.bound;
  first = refl;
  third = f.third;
  lag3 = f.lag3;
  lag4 = f.lag4;
  lag5 = f.lag5;
}
first_step-Counter2 First.end s f = tt
