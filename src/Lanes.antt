-- ===== src/Lanes.antt =====
-- PCB/ParaPCBBUFF.cpp: pairs of a `Producer` and a `Consumer`, each pair with a ring of its own. A step is one test,
-- one access of `buff` or one assignment of an index, which wraps it at once; the accesses are taken in one order.
pub mod One
pub mod Steps
pub mod Ends
pub mod Whole
use node2x6x2b.Base.{
  ℕ, ◌+◌, ◌%◌, ◌<◌, ◌≡◌, Bool, Option, none, some, ltb, ◌==◌, if◌then◌else◌, update,
}

-- `#define BUFF_MAX 200` and `#define ITER 1000000`
abbrev pub buff_max : ℕ
buff_max = 200

abbrev pub iter : ℕ
iter = 1000000

-- Where a thread is: before the test of its outer loop, of its inner loop, its access of `buff`, or its assignment
-- of the index; `end` is behind the outer loop.
pub data Place : Type 0 where
  loop wait access move end : Place

-- `given` and `taken` are the `count`s of `Producer` and `Consumer`. `items` and `got` are the items of the one and
-- the values of the other, in order; the program does not keep them.
pub record Lane : Type 0 where
  pub in_at : ℕ
  pub out_at : ℕ
  pub buff : ℕ → ℕ
  pub given : ℕ
  pub taken : ℕ
  pub items : ℕ → ℕ
  pub got : ℕ → ℕ
  pub producer : Place
  pub consumer : Place

-- What `initialize` allocates and `initializeINOUT` clears, before the threads start.
abbrev pub initialize_in_out : Lane → Lane
initialize_in_out garbage = record garbage {
  in_at = 0;
  out_at = 0;
  given = 0;
  taken = 0;
  producer = Place.loop;
  consumer = Place.loop;
}

-- A step of `Producer`, which draws `item`. A round of the busy-wait leaves the state as it is; `none` is a thread
-- that is done.
unfoldable pub produce_step : ℕ → Place → Lane → Option Lane
produce_step item Place.loop s =
    some (record s { producer = if ltb s.given iter then Place.wait else Place.end })
produce_step item Place.wait s =
    if (s.in_at + 1) % buff_max == s.out_at
    then some s
    else some (record s { producer = Place.access })
produce_step item Place.access s = some (record s {
  buff = update s.buff s.in_at item;
  items = update s.items s.given item;
  producer = Place.move;
})
produce_step item Place.move s =
    some (record s { in_at = (s.in_at + 1) % buff_max; given = s.given + 1; producer = Place.loop })
produce_step item Place.end s = none

-- A step of `Consumer`.
unfoldable pub consume_step : Place → Lane → Option Lane
consume_step Place.loop s =
    some (record s { consumer = if ltb s.taken iter then Place.wait else Place.end })
consume_step Place.wait s =
    if s.in_at == s.out_at then some s else some (record s { consumer = Place.access })
consume_step Place.access s =
    some (record s { got = update s.got s.taken (s.buff s.out_at); consumer = Place.move })
consume_step Place.move s =
    some
      (record s { out_at = (s.out_at + 1) % buff_max; taken = s.taken + 1; consumer = Place.loop })
consume_step Place.end s = none

-- A step of one of the threads of `n` pairs.
pub data Step (n : ℕ) (s s' : ℕ → Lane) : Type 0 where
  produces :
      (i item : ℕ) (l : Lane)
      → i < n
      → produce_step item (s i).producer (s i) ≡ some l
      → update s i l ≡ s'
      → Step n s s'
  consumes :
      (i : ℕ) (l : Lane)
      → i < n
      → consume_step (s i).consumer (s i) ≡ some l
      → update s i l ≡ s'
      → Step n s s'

-- The states that they can reach.
pub data Reach (n : ℕ) : (ℕ → Lane) → Type 0 where
  starts : (garbage : ℕ → Lane) → Reach n (λ i. initialize_in_out (garbage i))
  next : (s s' : ℕ → Lane) → Reach n s → Step n s s' → Reach n s'
