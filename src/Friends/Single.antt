-- ===== src/Friends/Single.antt =====
-- The two threads on `counter1`, and their lock.
use node2x6x2b.Base.{
  ℕ, ◌%◌, ◌≤◌, ◌≡◌, refl, sym, ◌∙◌, arith, Bool, true, false, ◌&&◌, ◌||◌, Bool-cases, Option, none,
  some, ltb, leb, ◌==◌, inl, inr,
}
use node2x6x2b.Friends.{count_max, First, Second, Friends, branch, first_step, second_step}
use node2x6x2b.Friends.Turns.{
  first_holds1, second_holds, first_knows1, second_knows, second_knows-even, first_knows1-odd,
}

-- The lock belongs to at most one thread, the counter is not above `MAX`, and the threads are right about it.
pub record IsShared (c : ℕ) (locked : Bool) (p : First) (q : Second) : Type 0 where
  pub owner : locked ≡ (first_holds1 p || second_holds q)
  pub alone : (first_holds1 p && second_holds q) ≡ false
  pub bound : c ≤ count_max
  pub first : first_knows1 p c ≡ true
  pub second : second_knows q c ≡ true

-- A property of the state behind a step, if there is one.
abbrev pub After : (Friends → Type 0) → Option Friends → Type 0
After P none = Unit
After P (some s) = P s

abbrev pub Counter1 : Friends → Type 0
Counter1 s = IsShared s.counter1 s.locked1 s.first s.second

-- A test moves a thread, with what the thread learns by it.
first_moves :
    {c : ℕ} {locked : Bool} {p : First} {q : Second} (b : Bool) (x y : First)
    → IsShared c locked p q
    → first_holds1 x ≡ first_holds1 p
    → first_holds1 y ≡ first_holds1 p
    → (b ≡ true → first_knows1 x c ≡ true)
    → first_knows1 y c ≡ true
    → IsShared c locked (branch b x y) q
first_moves true x y f hx hy learns other = record {
  owner = rw hx f.owner;
  alone = rw hx f.alone;
  bound = f.bound;
  first = learns refl;
  second = f.second;
}
first_moves false x y f hx hy learns other = record {
  owner = rw hy f.owner;
  alone = rw hy f.alone;
  bound = f.bound;
  first = other;
  second = f.second;
}

second_moves :
    {c : ℕ} {locked : Bool} {p : First} {q : Second} (b : Bool) (x y : Second)
    → IsShared c locked p q
    → second_holds x ≡ second_holds q
    → second_holds y ≡ second_holds q
    → (b ≡ true → second_knows x c ≡ true)
    → (b ≡ false → second_knows y c ≡ true)
    → IsShared c locked p (branch b x y)
second_moves true x y f hx hy learns other = record {
  owner = rw hx f.owner;
  alone = rw hx f.alone;
  bound = f.bound;
  first = f.first;
  second = learns refl;
}
second_moves false x y f hx hy learns other = record {
  owner = rw hy f.owner;
  alone = rw hy f.alone;
  bound = f.bound;
  first = f.first;
  second = other refl;
}

pub first_step-Counter1 :
    (p : First) (s : Friends)
    → IsShared s.counter1 s.locked1 p s.second
    → After Counter1 (first_step p s)
unfolding first_step first_holds1 first_knows1
first_step-Counter1 First.leave1 s f =
    first_moves (leb count_max s.counter1) First.leave2 First.even1 f refl refl (λ h. h) refl
first_step-Counter1 First.leave2 s f =
    first_moves (leb count_max s.counter2) First.end First.even1 f refl refl (λ h. f.first) refl
first_step-Counter1 First.even1 s f =
    first_moves (s.counter1 % 2 == 0) First.below1 First.even2 f refl refl (λ h. h) refl
first_step-Counter1 First.below1 s f =
    first_moves (ltb s.counter1 count_max) First.lock1 First.even2 f refl refl
      (λ h. ground (arith, f.first, h)) refl
first_step-Counter1 First.lock1 s f = elim (Bool-cases s.locked1) [
  | inl taken ↦ rw taken tt
  | inr free ↦ rw free (record {
    owner = refl;
    alone = sym f.owner ∙ free;
    bound = f.bound;
    first = f.first;
    second = f.second;
  })
]
first_step-Counter1 First.add1 s f = record {
  owner = f.owner;
  alone = f.alone;
  bound = ground (arith, f.first);
  first = refl;
  second =
      second_knows-even s.second s.counter1 (ground (arith, f.first)) (ground (arith, f.first))
        f.second;
}
first_step-Counter1 First.unlock1 s f = record {
  owner = sym f.alone;
  alone = refl;
  bound = f.bound;
  first = refl;
  second = f.second;
}
first_step-Counter1 First.even2 s f =
    first_moves (s.counter2 % 2 == 0) First.below2 First.leave1 f refl refl (λ h. refl) refl
first_step-Counter1 First.below2 s f =
    first_moves (ltb s.counter2 count_max) First.lock2 First.leave1 f refl refl (λ h. refl) refl
first_step-Counter1 First.lock2 s f = elim (Bool-cases s.locked2) [
  | inl taken ↦ rw taken tt
  | inr free ↦ rw free (first_moves true First.add2 First.add2 f refl refl (λ h. refl) refl)
]
first_step-Counter1 First.add2 s f =
    first_moves true First.add3 First.add3 f refl refl (λ h. refl) refl
first_step-Counter1 First.add3 s f =
    first_moves true First.add4 First.add4 f refl refl (λ h. refl) refl
first_step-Counter1 First.add4 s f =
    first_moves true First.add5 First.add5 f refl refl (λ h. refl) refl
first_step-Counter1 First.add5 s f =
    first_moves true First.unlock2 First.unlock2 f refl refl (λ h. refl) refl
first_step-Counter1 First.unlock2 s f =
    first_moves true First.leave1 First.leave1 f refl refl (λ h. refl) refl
first_step-Counter1 First.end s f = tt

pub second_step-Counter1 :
    (q : Second) (s : Friends)
    → IsShared s.counter1 s.locked1 s.first q
    → After Counter1 (second_step q s)
unfolding second_step second_holds second_knows
second_step-Counter1 Second.below s f =
    second_moves (ltb s.counter1 count_max) Second.odd Second.end f refl refl (λ h. refl)
      (λ h. ground arith)
second_step-Counter1 Second.odd s f =
    second_moves (s.counter1 % 2 == 1) Second.lock Second.below f refl refl (λ h. h) (λ h. refl)
second_step-Counter1 Second.lock s f = elim (Bool-cases s.locked1) [
  | inl taken ↦ rw taken tt
  | inr free ↦ rw free (record {
    owner = ground (arith, f.owner);
    alone = ground (arith, f.owner);
    bound = f.bound;
    first = f.first;
    second = f.second;
  })
]
second_step-Counter1 Second.add s f = record {
  owner = f.owner;
  alone = f.alone;
  bound = ground (arith, f.second, f.bound);
  first = first_knows1-odd s.first s.counter1 (ground (arith, f.second)) f.first;
  second = refl;
}
second_step-Counter1 Second.unlock s f = record {
  owner = ground (arith, f.alone);
  alone = ground arith;
  bound = f.bound;
  first = f.first;
  second = refl;
}
second_step-Counter1 Second.end s f = tt
