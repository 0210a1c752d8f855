-- ===== src/PingPong.antt =====
-- Microbench/pingPong_withoutAtomic.c: two threads of `doSomeThing` that increment one counter in turn, without a lock,
-- and count their increments and the times that they begin to wait. A step is one test, one load or one store of the
-- counter, or the assignments to the thread's own variables behind it; the accesses are taken in one order.
pub mod Tally
use node2x6x2b.Base.{
  ℕ, zero, suc, ◌+◌, ◌%◌, ◌≡◌, Bool, Option, none, some, ltb, ◌==◌, if◌then◌else◌,
}

-- `long int MAX=60000000;`
abbrev pub count_max : ℕ
count_max = 60000000

-- Where a thread is: before the test of its loop, the test for its turn, the load, the store of what it has computed,
-- `success_thread++; flag_thread=1;`, or the `if` of the other branch; `end` is behind the loop.
pub data Place : Type 0 where
  loop parity load : Place
  store : ℕ → Place
  note spin end : Place

-- A thread with its `success_thread`, `spin_thread` and `flag_thread`.
pub record Side : Type 0 where
  pub place : Place
  pub success : ℕ
  pub spins : ℕ
  pub flag : ℕ

pub record Next : Type 0 where
  pub counter : ℕ
  pub side : Side

-- A step of the thread that increments while the remainder of the counter by 2 is `turn`, up to `most`. `none` is a
-- thread that is done.
unfoldable pub side_step : ℕ → ℕ → Place → Side → ℕ → Option Next
side_step most turn Place.loop s c = some (record {
  counter = c;
  side = record s { place = if ltb c most then Place.parity else Place.end };
})
side_step most turn Place.parity s c = some (record {
  counter = c;
  side = record s { place = if c % 2 == turn then Place.load else Place.spin };
})
side_step most turn Place.load s c =
    some (record { counter = c; side = record s { place = Place.store (c + 1) } })
side_step most turn (Place.store v) s c =
    some (record { counter = v; side = record s { place = Place.note } })
side_step most turn Place.note s c = some (record {
  counter = c;
  side = record s { place = Place.loop; success = s.success + 1; flag = 1 };
})
side_step most turn Place.spin s c = some (record {
  counter = c;
  side =
      if s.flag == 1
      then record s { place = Place.loop; spins = s.spins + 1; flag = 0 }
      else record s { place = Place.loop };
})
side_step most turn Place.end s c = none

-- The branches of thread 0 and of thread 1.
abbrev pub first_step : ℕ → Place → Side → ℕ → Option Next
first_step most = side_step most 0

abbrev pub second_step : ℕ → Place → Side → ℕ → Option Next
second_step most = side_step most 1

pub record Game : Type 0 where
  pub counter : ℕ
  pub first : Side
  pub second : Side

abbrev at_rest : Side
at_rest = record { place = Place.loop; success = 0; spins = 0; flag = 0 }

-- What `buf` sets up.
abbrev pub at_start : Game
at_start = record { counter = 0; first = at_rest; second = at_rest }

pub data Step (most : ℕ) (g : Game) : Game → Type 0 where
  first_goes :
      (t : Next)
      → first_step most g.first.place g.first g.counter ≡ some t
      → Step most g (record { counter = t.counter; first = t.side; second = g.second })
  second_goes :
      (t : Next)
      → second_step most g.second.place g.second g.counter ≡ some t
      → Step most g (record { counter = t.counter; first = g.first; second = t.side })

-- The states that the threads can reach.
pub data Reach (most : ℕ) : Game → Type 0 where
  starts : Reach most at_start
  next : (g g' : Game) → Reach most g → Step most g g' → Reach most g'
