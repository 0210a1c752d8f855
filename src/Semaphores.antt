-- ===== src/Semaphores.antt =====
-- Microbench/ProducerConsumerNewSemaphore.c: `Producer` and `Consumer` with the semaphores `mutex`, `empty` and `full`.
-- A step is one call on a semaphore, one access of `buffer`, one increment of an index, or `count++` with the test.
pub mod Places
pub mod Steps
pub mod Whole
pub mod Ends
use node2x6x2b.Base.{
  ℕ, zero, suc, ◌+◌, ◌-◌, ◌≤◌, ◌<◌, ◌≡◌, Bool, Option, none, some, leb, ◌==◌, if◌then◌else◌, update,
}

-- `#define BUFFER_MAX 102400`
abbrev pub buffer_max : ℕ
buffer_max = 102400

-- Where a thread is: before the first `sem_wait`, `sem_wait(&mutex)`, its access of `buffer`, the increment of its
-- index, `sem_post(&mutex)`, the other `sem_post`, or `count++`; `end` is behind the loop.
pub data Place : Type 0 where
  wait lock access move unlock post test end : Place

-- A semaphore is its value. `given` and `taken` are the `count`s of `Producer` and `Consumer`. `items` and `got` are
-- the items of the one and of the other, in order; the program does not keep them.
pub record Store : Type 0 where
  pub mutex : ℕ
  pub empty : ℕ
  pub full : ℕ
  pub buffer : ℕ → ℕ
  pub in_at : ℕ
  pub out_at : ℕ
  pub given : ℕ
  pub taken : ℕ
  pub items : ℕ → ℕ
  pub got : ℕ → ℕ
  pub producer : Place
  pub consumer : Place

-- What `main` sets up before `start=1`.
abbrev pub at_start : (ℕ → ℕ) → (ℕ → ℕ) → (ℕ → ℕ) → Store
at_start buffer items got = record {
  mutex = 1;
  empty = buffer_max;
  full = 0;
  buffer = buffer;
  in_at = 0;
  out_at = 0;
  given = 0;
  taken = 0;
  items = items;
  got = got;
  producer = Place.wait;
  consumer = Place.wait;
}

-- `count++` and `while(count<=100000)`, for the `count` before
abbrev pub behind_test : ℕ → Place
behind_test count = if leb (count + 1) 100000 then Place.wait else Place.end

-- A step of `Producer`, which draws `item`. `none` is a thread that waits for a semaphore or is done.
unfoldable pub produce_step : ℕ → Place → Store → Option Store
produce_step item Place.wait s =
    if s.empty == 0 then none else some (record s { empty = s.empty - 1; producer = Place.lock })
produce_step item Place.lock s =
    if s.mutex == 0 then none else some (record s { mutex = s.mutex - 1; producer = Place.access })
produce_step item Place.access s = some (record s {
  buffer = update s.buffer s.in_at item;
  items = update s.items s.given item;
  producer = Place.move;
})
produce_step item Place.move s = some (record s { in_at = s.in_at + 1; producer = Place.unlock })
produce_step item Place.unlock s = some (record s { mutex = s.mutex + 1; producer = Place.post })
produce_step item Place.post s = some (record s { full = s.full + 1; producer = Place.test })
produce_step item Place.test s =
    some (record s { given = s.given + 1; producer = behind_test s.given })
produce_step item Place.end s = none

-- A step of `Consumer`.
unfoldable pub consume_step : Place → Store → Option Store
consume_step Place.wait s =
    if s.full == 0 then none else some (record s { full = s.full - 1; consumer = Place.lock })
consume_step Place.lock s =
    if s.mutex == 0 then none else some (record s { mutex = s.mutex - 1; consumer = Place.access })
consume_step Place.access s =
    some (record s { got = update s.got s.taken (s.buffer s.out_at); consumer = Place.move })
consume_step Place.move s = some (record s { out_at = s.out_at + 1; consumer = Place.unlock })
consume_step Place.unlock s = some (record s { mutex = s.mutex + 1; consumer = Place.post })
consume_step Place.post s = some (record s { empty = s.empty + 1; consumer = Place.test })
consume_step Place.test s = some (record s { taken = s.taken + 1; consumer = behind_test s.taken })
consume_step Place.end s = none

pub data Step (s s' : Store) : Type 0 where
  produces : (item : ℕ) → produce_step item s.producer s ≡ some s' → Step s s'
  consumes : consume_step s.consumer s ≡ some s' → Step s s'

-- The states that the threads can reach.
pub data Reach : Store → Type 0 where
  starts : (buffer items got : ℕ → ℕ) → Reach (at_start buffer items got)
  next : (s s' : Store) → Reach s → Step s s' → Reach s'
