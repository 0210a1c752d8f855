-- ===== src/Unlocked.antt =====
-- Microbench/ProducerConsumerCircular.c: `Producer` and `Consumer` over a ring without a lock. A step is one test,
-- one access of `buff`, one `__sync_fetch_and_add` or one wrap of an index; the accesses are taken in one order.
pub mod Lap
pub mod Race
use node2x6x2b.Base.{ℕ, ◌+◌, ◌%◌, ◌≡◌, Bool, Option, none, some, ltb, ◌==◌, if◌then◌else◌, update}

-- `#define BUFF_MAX 1000` and `#define ITER 50000`
abbrev pub buff_max : ℕ
buff_max = 1000

abbrev pub iter : ℕ
iter = 50000

-- Where a thread is: before the test of its outer loop, of its inner loop, its access of `buff`, its addition, or
-- its wrap; `end` is behind the outer loop.
pub data Place : Type 0 where
  loop wait access add wrap end : Place

-- `given` and `taken` are the `count`s of `Producer` and `Consumer`. `items` and `got` are the items of the one
-- and the values of the other, in order; the program does not keep them.
pub record Ring : Type 0 where
  pub in_at : ℕ
  pub out_at : ℕ
  pub buff : ℕ → ℕ
  pub given : ℕ
  pub taken : ℕ
  pub items : ℕ → ℕ
  pub got : ℕ → ℕ
  pub producer : Place
  pub consumer : Place

abbrev pub at_start : (ℕ → ℕ) → (ℕ → ℕ) → (ℕ → ℕ) → Ring
at_start buff items got = record {
  in_at = 0;
  out_at = 0;
  buff = buff;
  given = 0;
  taken = 0;
  items = items;
  got = got;
  producer = Place.loop;
  consumer = Place.loop;
}

-- A step of `Producer`, which draws `item`; `count` is increased with `in`. A round of the busy-wait leaves the state
-- as it is; `none` is a thread that is done.
unfoldable pub produce_step : ℕ → Place → Ring → Option Ring
produce_step item Place.loop s =
    some (record s { producer = if ltb s.given iter then Place.wait else Place.end })
produce_step item Place.wait s =
    if (s.in_at + 1) % buff_max == s.out_at
    then some s
    else some (record s { producer = Place.access })
produce_step item Place.access s = some (record s {
  buff = update s.buff s.in_at item;
  items = update s.items s.given item;
  producer = Place.add;
})
produce_step item Place.add s =
    some (record s { in_at = s.in_at + 1; given = s.given + 1; producer = Place.wrap })
produce_step item Place.wrap s =
    some (record s { in_at = s.in_at % buff_max; producer = Place.loop })
produce_step item Place.end s = none

-- A step of `Consumer`.
unfoldable pub consume_step : Place → Ring → Option Ring
consume_step Place.loop s =
    some (record s { consumer = if ltb s.taken iter then Place.wait else Place.end })
consume_step Place.wait s =
    if s.in_at == s.out_at then some s else some (record s { consumer = Place.access })
consume_step Place.access s =
    some (record s { got = update s.got s.taken (s.buff s.out_at); consumer = Place.add })
consume_step Place.add s =
    some (record s { out_at = s.out_at + 1; taken = s.taken + 1; consumer = Place.wrap })
consume_step Place.wrap s = some (record s { out_at = s.out_at % buff_max; consumer = Place.loop })
consume_step Place.end s = none

pub data Step (s s' : Ring) : Type 0 where
  produces : (item : ℕ) → produce_step item s.producer s ≡ some s' → Step s s'
  consumes : consume_step s.consumer s ≡ some s' → Step s s'

pub data Reach : Ring → Type 0 where
  starts : (buff items got : ℕ → ℕ) → Reach (at_start buff items got)
  next : (s s' : Ring) → Reach s → Step s s' → Reach s'
