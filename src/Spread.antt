-- ===== src/Spread.antt =====
-- PCB/SinglePMultipleC.cpp: one `Producer` and several `Consumer`s with atomic indices. A step is one test, one atomic
-- operation on an index, with `count++` behind the last one of a round; the accesses are taken in one order.
pub mod Overtaken
use node2x6x2b.Base.{
  ℕ, ◌+◌, ◌/◌, ◌%◌, ◌<◌, ◌≡◌, Option, none, some, ltb, ◌==◌, if◌then◌else◌, update,
}

-- `#define BUFF_MAX 200` and `#define ITER 1000`
abbrev buff_max : ℕ
buff_max = 200

abbrev pub iter : ℕ
iter = 1000

-- Where a thread is: before the test of its outer loop, of its inner loop, `fetch_add`, `load`, or the `store` of what
-- it has loaded, wrapped; `end` is behind the outer loop. The loads of `w`, which is not used, are left out.
pub data Place : Type 0 where
  loop wait add load : Place
  store : ℕ → Place
  end : Place

-- `given` is the `count` of `Producer`, `taken` those of the `Consumer`s.
pub record Spread : Type 0 where
  pub in_at : ℕ
  pub out_at : ℕ
  pub given : ℕ
  pub taken : ℕ → ℕ
  pub producer : Place
  pub consumers : ℕ → Place

abbrev pub at_start : Spread
at_start = record {
  in_at = 0;
  out_at = 0;
  given = 0;
  taken = λ i. 0;
  producer = Place.loop;
  consumers = λ i. Place.loop;
}

-- A step of `Producer`. A round of the busy-wait leaves the state as it is; `none` is a thread that is done.
unfoldable pub produce_step : Place → Spread → Option Spread
produce_step Place.loop s =
    some (record s { producer = if ltb s.given iter then Place.wait else Place.end })
produce_step Place.wait s =
    if (s.in_at + 1) % buff_max == s.out_at
    then some s
    else some (record s { producer = Place.add })
produce_step Place.add s = some (record s { in_at = s.in_at + 1; producer = Place.load })
produce_step Place.load s = some (record s { producer = Place.store (s.in_at % buff_max) })
produce_step (Place.store v) s =
    some (record s { in_at = v; given = s.given + 1; producer = Place.loop })
produce_step Place.end s = none

-- A step of `Consumer` `i` of `max`.
unfoldable pub consume_step : ℕ → ℕ → Place → Spread → Option Spread
consume_step max i Place.loop s = some (record s {
  consumers = update s.consumers i (if ltb (s.taken i) (iter / max) then Place.wait else Place.end);
})
consume_step max i Place.wait s =
    if s.in_at == s.out_at
    then some s
    else some (record s { consumers = update s.consumers i Place.add })
consume_step max i Place.add s =
    some (record s { out_at = s.out_at + 1; consumers = update s.consumers i Place.load })
consume_step max i Place.load s =
    some (record s { consumers = update s.consumers i (Place.store (s.out_at % buff_max)) })
consume_step max i (Place.store v) s = some (record s {
  out_at = v;
  taken = update s.taken i (s.taken i + 1);
  consumers = update s.consumers i Place.loop;
})
consume_step max i Place.end s = none

pub data Step (max : ℕ) (s s' : Spread) : Type 0 where
  produces : produce_step s.producer s ≡ some s' → Step max s s'
  consumes : (i : ℕ) → i < max → consume_step max i (s.consumers i) s ≡ some s' → Step max s s'

-- The states that the threads can reach.
pub data Reach (max : ℕ) : Spread → Type 0 where
  starts : Reach max at_start
  next : (s s' : Spread) → Reach max s → Step max s s' → Reach max s'
