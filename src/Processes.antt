-- ===== src/Processes.antt =====
-- bench/NewProcess1.c and bench/NewProcess2.c: two processes that count in turn in a shared segment, without a lock.
-- A step is one assignment of the initialisation, one test, one load or one store of a row of `ar`, or the whole
-- report of the addresses; the accesses are taken in one order.
pub mod Report
pub mod Fair
pub mod Turns
pub mod Past
pub mod Stale
use node2x6x2b.Base.{
  ℕ, zero, suc, ◌+◌, ◌%◌, ◌≡◌, Bool, Option, none, some, ltb, ◌==◌, if◌then◌else◌, update,
}

-- `#define ITER 100000000`
abbrev pub iter : ℕ
iter = 100000000

-- Where a process is: before `ar[k][0]=0`, the report, the test of the loop, the test for its turn, before it loads
-- the row of its assignment `k`, or stores there what it has computed; `end` is behind the loop and `failed` behind
-- `return EXIT_FAILURE`.
pub data Place : Type 0 where
  clear : ℕ → Place
  report loop parity : Place
  load : ℕ → Place
  store : ℕ → ℕ → Place
  end failed : Place

-- The assignments of a turn are to ar[1][0], ar[2][0], ar[3][0] and ar[0][0].
abbrev pub row : ℕ → ℕ
row k = (k + 1) % 4

-- What a step leaves in the column `ar[·][0]`, and where the process then is.
pub record Next : Type 0 where
  pub ar : ℕ → ℕ
  pub place : Place

-- A step of a process that counts while the remainder of `ar[0][0]` by 2 is `turn`, up to `most`. `found` says
-- whether all calls of `virt_to_phys_user` succeed. `none` is a process that is done.
unfoldable pub process_step : ℕ → ℕ → Bool → Place → (ℕ → ℕ) → Option Next
process_step most turn found (Place.clear k) ar =
    some
      (record { ar = update ar k 0; place = if k == 3 then Place.report else Place.clear (k + 1) })
process_step most turn found Place.report ar =
    some (record { ar = ar; place = if found then Place.loop else Place.failed })
process_step most turn found Place.loop ar =
    some (record { ar = ar; place = if ltb (ar 0) most then Place.parity else Place.end })
process_step most turn found Place.parity ar =
    some (record { ar = ar; place = if ar 0 % 2 == turn then Place.load 0 else Place.loop })
process_step most turn found (Place.load k) ar =
    some (record { ar = ar; place = Place.store k (ar (row k) + 1) })
process_step most turn found (Place.store k v) ar =
    some (record {
      ar = update ar (row k) v;
      place = if k == 3 then Place.loop else Place.load (k + 1);
    })
process_step most turn found Place.end ar = none
process_step most turn found Place.failed ar = none

-- `main` of NewProcess1.c, and that of NewProcess2.c, which does not clear the rows.
abbrev pub first_step : ℕ → Bool → Place → (ℕ → ℕ) → Option Next
first_step most = process_step most 0

abbrev pub second_step : ℕ → Bool → Place → (ℕ → ℕ) → Option Next
second_step most = process_step most 1

pub record Shared : Type 0 where
  pub ar : ℕ → ℕ
  pub first : Place
  pub second : Place

-- Both have attached the segment, which holds what an earlier run has left, or zeros if it is new.
abbrev pub at_start : (ℕ → ℕ) → Shared
at_start ar = record { ar = ar; first = Place.clear 0; second = Place.report }

pub data Step (most : ℕ) (s : Shared) : Shared → Type 0 where
  first_goes :
      (found : Bool) (t : Next)
      → first_step most found s.first s.ar ≡ some t
      → Step most s (record { ar = t.ar; first = t.place; second = s.second })
  second_goes :
      (found : Bool) (t : Next)
      → second_step most found s.second s.ar ≡ some t
      → Step most s (record { ar = t.ar; first = s.first; second = t.place })

-- The states that a run leads to.
pub data Leads (most : ℕ) (s : Shared) : Shared → Type 0 where
  stays : Leads most s s
  goes : (s' s'' : Shared) → Leads most s s' → Step most s' s'' → Leads most s s''
