-- ===== src/Forks.antt =====
-- Microbench/sharedMemory.c and Microbench/sharedMemory2.c: two processes that increment a shared variable in turn,
-- until each has done it `ITER` times. The former has two children of `fork`, the latter a child of `vfork` and its
-- parent. A step is one test, one load, or one store with the `c++` behind it; the accesses are taken in one order.
pub mod Turns
pub mod Finish
pub mod Vfork
use node2x6x2b.Base.{
  ℕ, zero, suc, ◌+◌, ◌%◌, ◌≡◌, ◌⊎◌, Bool, true, false, Option, none, some, ltb, ◌==◌, if◌then◌else◌,
}

-- Where a process is: before the test of its loop, the test for its turn, the load of `global_var[0]`, or the store of
-- what it has computed; `end` is behind the loop.
pub data Place : Type 0 where
  loop parity load : Place
  store : ℕ → Place
  end : Place

-- A process and its `c`.
pub record Worker : Type 0 where
  pub place : Place
  pub c : ℕ

-- What a step leaves in `global_var[0]`, and of the process.
pub record Next : Type 0 where
  pub global : ℕ
  pub worker : Worker

-- A step of the process that increments while the remainder of `global_var[0]` by 2 is `turn`, for an `ITER` of
-- `most`. `none` is a process that is done.
unfoldable pub turn_step : ℕ → ℕ → Place → ℕ → ℕ → Option Next
turn_step most turn Place.loop c global = some (record {
  global = global;
  worker = record { place = if ltb c most then Place.parity else Place.end; c = c };
})
turn_step most turn Place.parity c global = some (record {
  global = global;
  worker = record { place = if global % 2 == turn then Place.load else Place.loop; c = c };
})
turn_step most turn Place.load c global =
    some (record { global = global; worker = record { place = Place.store (global + 1); c = c } })
turn_step most turn (Place.store v) c global =
    some (record { global = v; worker = record { place = Place.loop; c = c + 1 } })
turn_step most turn Place.end c global = none

pub record Forked : Type 0 where
  pub global : ℕ
  pub first : Worker
  pub second : Worker

-- `global_var[0]=0;` before the forks, and each process's `int c=0;`.
abbrev pub at_start : Forked
at_start = record {
  global = 0;
  first = record { place = Place.loop; c = 0 };
  second = record { place = Place.loop; c = 0 };
}

-- `shared` says that the child was made by `vfork`: its parent is suspended until the child is done.
pub data Step (shared : Bool) (most : ℕ) (s : Forked) : Forked → Type 0 where
  first_goes :
      (t : Next)
      → turn_step most 0 s.first.place s.first.c s.global ≡ some t
      → Step shared most s (record { global = t.global; first = t.worker; second = s.second })
  second_goes :
      (t : Next)
      → (shared ≡ false) ⊎ (s.first.place ≡ Place.end)
      → turn_step most 1 s.second.place s.second.c s.global ≡ some t
      → Step shared most s (record { global = t.global; first = s.first; second = t.worker })

-- The states that a run leads to.
pub data Leads (shared : Bool) (most : ℕ) (s : Forked) : Forked → Type 0 where
  stays : Leads shared most s s
  goes :
      (s' s'' : Forked) → Leads shared most s s' → Step shared most s' s'' → Leads shared most s s''
