-- ===== src/Friends.antt =====
-- bench/ThreeFriends.c: `doSomeThing`. Thread 0 makes even counters odd, thread 1 makes `counter1` even again,
-- and thread 2 `counter2` with the three behind it. A step is one test of a shared counter, one call of
-- `pthread_mutex_lock` or `pthread_mutex_unlock`, or one assignment; the reads and writes are taken in one order.
pub mod Turns
pub mod Single
pub mod Four
pub mod Behind
pub mod Whole
pub mod Ends
pub mod Finish
use node2x6x2b.Base.{
  ℕ, ◌+◌, ◌%◌, ◌≡◌, Bool, true, false, Option, none, some, ltb, leb, ◌==◌, if◌then◌else◌,
}

-- `#define MAX 20000000`
abbrev pub count_max : ℕ
count_max = 20000000

-- Where thread 0 is: before the test, call or assignment of that name; `end` is behind the loop.
pub data First : Type 0 where
  leave1 leave2 even1 below1 lock1 add1 unlock1 even2 below2 lock2 add2 add3 add4 add5 unlock2 end :
      First

-- Where thread 1 is.
pub data Second : Type 0 where
  below odd lock add unlock end : Second

-- Where thread 2 is.
pub data Third : Type 0 where
  below odd lock add2 add3 add4 add5 unlock end : Third

-- The first elements of the counters, and the locks.
pub record Friends : Type 0 where
  pub counter1 : ℕ
  pub counter2 : ℕ
  pub counter3 : ℕ
  pub counter4 : ℕ
  pub counter5 : ℕ
  pub locked1 : Bool
  pub locked2 : Bool
  pub first : First
  pub second : Second
  pub third : Third

-- What `main` leaves before `start=1`.
abbrev pub at_start : Friends
at_start = record {
  counter1 = 0;
  counter2 = 0;
  counter3 = 0;
  counter4 = 0;
  counter5 = 0;
  locked1 = false;
  locked2 = false;
  first = First.leave1;
  second = Second.below;
  third = Third.below;
}

abbrev pub branch {ℓ} : {A : Type ℓ} → Bool → A → A → A
branch b x y = if b then x else y

-- `none` is a thread that waits for a lock, or is done.
unfoldable pub first_step : First → Friends → Option Friends
first_step First.leave1 s =
    some (record s { first = branch (leb count_max s.counter1) First.leave2 First.even1 })
first_step First.leave2 s =
    some (record s { first = branch (leb count_max s.counter2) First.end First.even1 })
first_step First.even1 s =
    some (record s { first = branch (s.counter1 % 2 == 0) First.below1 First.even2 })
first_step First.below1 s =
    some (record s { first = branch (ltb s.counter1 count_max) First.lock1 First.even2 })
first_step First.lock1 s =
    if s.locked1 then none else some (record s { locked1 = true; first = First.add1 })
first_step First.add1 s = some (record s { counter1 = s.counter1 + 1; first = First.unlock1 })
first_step First.unlock1 s = some (record s { locked1 = false; first = First.even2 })
first_step First.even2 s =
    some (record s { first = branch (s.counter2 % 2 == 0) First.below2 First.leave1 })
first_step First.below2 s =
    some (record s { first = branch (ltb s.counter2 count_max) First.lock2 First.leave1 })
first_step First.lock2 s =
    if s.locked2 then none else some (record s { locked2 = true; first = First.add2 })
first_step First.add2 s = some (record s { counter2 = s.counter2 + 1; first = First.add3 })
first_step First.add3 s = some (record s { counter3 = s.counter3 + 1; first = First.add4 })
first_step First.add4 s = some (record s { counter4 = s.counter4 + 1; first = First.add5 })
first_step First.add5 s = some (record s { counter5 = s.counter5 + 1; first = First.unlock2 })
first_step First.unlock2 s = some (record s { locked2 = false; first = First.leave1 })
first_step First.end s = none

unfoldable pub second_step : Second → Friends → Option Friends
second_step Second.below s =
    some (record s { second = branch (ltb s.counter1 count_max) Second.odd Second.end })
second_step Second.odd s =
    some (record s { second = branch (s.counter1 % 2 == 1) Second.lock Second.below })
second_step Second.lock s =
    if s.locked1 then none else some (record s { locked1 = true; second = Second.add })
second_step Second.add s = some (record s { counter1 = s.counter1 + 1; second = Second.unlock })
second_step Second.unlock s = some (record s { locked1 = false; second = Second.below })
second_step Second.end s = none

unfoldable pub third_step : Third → Friends → Option Friends
third_step Third.below s =
    some (record s { third = branch (ltb s.counter2 count_max) Third.odd Third.end })
third_step Third.odd s =
    some (record s { third = branch (s.counter2 % 2 == 1) Third.lock Third.below })
third_step Third.lock s =
    if s.locked2 then none else some (record s { locked2 = true; third = Third.add2 })
third_step Third.add2 s = some (record s { counter2 = s.counter2 + 1; third = Third.add3 })
third_step Third.add3 s = some (record s { counter3 = s.counter3 + 1; third = Third.add4 })
third_step Third.add4 s = some (record s { counter4 = s.counter4 + 1; third = Third.add5 })
third_step Third.add5 s = some (record s { counter5 = s.counter5 + 1; third = Third.unlock })
third_step Third.unlock s = some (record s { locked2 = false; third = Third.below })
third_step Third.end s = none

-- A step of one of the threads.
pub data Step (s s' : Friends) : Type 0 where
  by_first : first_step s.first s ≡ some s' → Step s s'
  by_second : second_step s.second s ≡ some s' → Step s s'
  by_third : third_step s.third s ≡ some s' → Step s s'

-- The states that the threads can reach.
pub data Reach : Friends → Type 0 where
  starts : Reach at_start
  next : (s s' : Friends) → Reach s → Step s s' → Reach s'
