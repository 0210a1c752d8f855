-- ===== src/Partitioned/Filters.antt =====
-- perf2_new.c: `struct Bfilter`, `initialize_filters`, `findIndex`, `Hashk`, `insert_into_filter`, `check_filter`
-- and `getfilters`. An access to `filter` at a computed index is checked: `none` is one outside.
pub mod Index
pub mod Insert
pub mod Bank
use node2x6x2b.Base.{
  ℕ, zero, suc, ◌+◌, ◌-◌, ◌*◌, ◌/◌, ◌%◌, ◌^◌, Bool, true, false, ◌&&◌, Option, none, some, List,
  u32, u64, srem, ltb, ◌==◌, if◌then◌else◌, ◌>>=◌, guard, update,
}
use node2x6x2b.Partitioned.Text.{type_tid, type_addr}

-- `#define M 2000`, `#define K 1` and `#define MAX_FILTERS 20`
abbrev pub filter_size : ℕ
filter_size = 2000

abbrev pub partitions : ℕ
partitions = 1

abbrev pub max_filters : ℕ
max_filters = 20

pub record Bfilter : Type 0 where
  pub taken : Bool
  pub thread_id : ℕ
  pub filter : ℕ → Bool
  pub frequency : ℕ → ℕ

-- The loops over all filters and all their slots.
unfoldable pub initialize_filters : (ℕ → Bfilter) → ℕ → Bfilter
initialize_filters s i =
    if ltb i max_filters
    then record {
      taken = false;
      thread_id = 0;
      filter = λ j. if ltb j filter_size then false else (s i).filter j;
      frequency = λ j. if ltb j filter_size then 0 else (s i).frequency j;
    }
    else s i

-- The loop of `findIndex` at `i`; `none` is the result -1.
unfoldable pub index_loop : ℕ → ℕ → (ℕ → Bfilter) → ℕ → Option ℕ
index_loop zero i s tid = none
index_loop (suc left) i s tid =
    let rest = index_loop left (i + 1) s tid in
    if (s i).taken then (if (s i).thread_id == tid then some i else rest) else some i

unfoldable pub find_index : (ℕ → Bfilter) → ℕ → Option ℕ
find_index s tid = index_loop max_filters 0 s tid

-- `(6*addr-5+(num*2+(num-1))+num%2)%M`: a `long` remainder, returned as an `int`.
unfoldable pub hashk : ℕ → ℕ → ℕ
hashk addr num = u32 (srem 64 (u64 (6 * addr + (num * 2 + num + num % 2) + 2 ^ 64 - 6)) filter_size)

-- `index_ret` in the end, for partition `i`.
unfoldable pub slot : ℕ → ℕ → ℕ → ℕ
slot addr i part_width = u32 (srem 32 (hashk addr i) part_width + i * part_width)

-- The two assignments in the loop of `insert_into_filter`.
unfoldable pub set_slot : Bfilter → ℕ → Option Bfilter
set_slot f h = guard (ltb h filter_size) (
    some (record f {
      filter = update f.filter h true;
      frequency = update f.frequency h (f.frequency h + 1);
    }))

unfoldable pub insert_loop : ℕ → ℕ → ℕ → ℕ → Bfilter → Option Bfilter
insert_loop zero i addr part_width f = some f
insert_loop (suc left) i addr part_width f =
    set_slot f (slot addr i part_width) >>= insert_loop left (i + 1) addr part_width

unfoldable pub insert_into_filter : ℕ → ℕ → ℕ → ℕ → (ℕ → Bfilter) → Option (ℕ → Bfilter)
insert_into_filter thread_id index addr part_width s = do
  f ←
      insert_loop partitions 0 addr part_width
        (record (s index) { taken = true; thread_id = thread_id })
  some (update s index f)

unfoldable pub check_loop : ℕ → ℕ → ℕ → ℕ → Bfilter → Bool → Option Bool
check_loop zero i addr part_width f res = some res
check_loop (suc left) i addr part_width f res =
    let h = slot addr i part_width in
    guard (ltb h filter_size) (check_loop left (i + 1) addr part_width f (res && f.filter h))

unfoldable pub check_filter : Bfilter → ℕ → ℕ → Option Bool
check_filter f addr part_width = check_loop partitions 0 addr part_width f true

-- After `findIndex`.
abbrev insert_at : ℕ → ℕ → (ℕ → Bfilter) → Option ℕ → Option (ℕ → Bfilter)
insert_at tid addr s none = some s
insert_at tid addr s (some index) = insert_into_filter tid index addr (filter_size / partitions) s

unfoldable pub getfilters : List ℕ → List ℕ → (ℕ → Bfilter) → Option (ℕ → Bfilter)
getfilters c_tid c_addr s =
    let tid = type_tid c_tid in
    let addr = type_addr c_addr in insert_at tid addr s (find_index s tid)
