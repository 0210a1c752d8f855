-- ===== src/Report.antt =====
-- hardcore_new6.c: `displaySample`, `checkPair` and `checkIntersection`. What is printed is a list of
-- rows; a percentage is the pair of numbers that are divided.
pub mod Percent
pub mod Display
pub mod Pairs
use node2x6x2b.Base.{
  ℕ, zero, suc, ◌+◌, Bool, true, false, ◌&&◌, ◌||◌, Option, none, some, List, [], ◌∷◌, ◌++◌, ltb,
  ◌==◌, if◌then◌else◌, guard, update,
}
use node2x6x2b.Samples.{Track, ThreadInfo, Globals}
use node2x6x2b.Filters.{numb_bits_set, Intersection, intersect_filter, total_frequency}

-- A line `Virt Memory:… Physical Memory:… VFreq:… PFreq:…` with the line `VFF:… PFF:…` after it.
pub record AddressRow : Type 0 where
  pub virt_memory : ℕ
  pub phys_memory : ℕ
  pub vfreq : ℕ
  pub pfreq : ℕ
  pub vtotal : ℕ
  pub ptotal : ℕ

pub record ThreadRow : Type 0 where
  pub pid : ℕ
  pub tid : ℕ
  pub cpu : ℕ
  pub rows : List AddressRow

-- The inner loop of `displaySample` from `j` on.
unfoldable pub address_rows : ThreadInfo → ℕ → ℕ → List AddressRow
address_rows th zero j = []
address_rows th (suc left) j =
    record {
      virt_memory = th.virt.mem_addr j;
      phys_memory = th.phys.mem_addr j;
      vfreq = th.virt.freq j;
      pfreq = th.phys.freq j;
      vtotal = total_frequency th.virt.filter th.virt.filter_freq;
      ptotal = total_frequency th.phys.filter th.phys.filter_freq;
    }
    ∷ address_rows th left (j + 1)

unfoldable pub thread_rows : (ℕ → ThreadInfo) → ℕ → ℕ → List ThreadRow
thread_rows threads zero i = []
thread_rows threads (suc left) i =
    record {
      pid = (threads i).pid;
      tid = (threads i).tid;
      cpu = (threads i).core;
      rows = address_rows (threads i) (threads i).virt.mem_addr_index 0;
    }
    ∷ thread_rows threads left (i + 1)

unfoldable pub display_sample : Globals → List ThreadRow
display_sample g = thread_rows g.threads g.thread_index 0

-- The numbers that `checkIntersection` computes for one kind of addresses of two threads.
pub record Shares : Type 0 where
  pub t1 : ℕ
  pub t2 : ℕ
  pub freqt1 : ℕ
  pub freqt2 : ℕ
  pub inter : ℕ
  pub freq_t1 : ℕ
  pub freq_t2 : ℕ

unfoldable pub shares : Track → Track → Shares
shares tr1 tr2 =
    let r = intersect_filter tr1.filter tr2.filter tr1.filter_freq tr2.filter_freq 0 0 in
    record {
      t1 = numb_bits_set tr1.filter;
      t2 = numb_bits_set tr2.filter;
      freqt1 = total_frequency tr1.filter tr1.filter_freq;
      freqt2 = total_frequency tr2.filter tr2.filter_freq;
      inter = r.count;
      freq_t1 = r.count_freq1;
      freq_t2 = r.count_freq2;
    }

pub record PairRow : Type 0 where
  pub tid1 : ℕ
  pub tid2 : ℕ
  pub virt : Shares
  pub phys : Shares

abbrev pub pair_row : ThreadInfo → ThreadInfo → PairRow
pair_row a b = record {
  tid1 = a.tid;
  tid2 = b.tid;
  virt = shares a.virt b.virt;
  phys = shares a.phys b.phys;
}

-- The inner loop of `checkIntersection` from `j` on, and the outer one from `i` on.
unfoldable pub rows_with : (ℕ → ThreadInfo) → ℕ → ℕ → ℕ → List PairRow
rows_with threads i zero j = []
rows_with threads i (suc left) j =
    let rest = rows_with threads i left (j + 1) in
    if i == j then rest else pair_row (threads i) (threads j) ∷ rest

unfoldable pub all_rows : (ℕ → ThreadInfo) → ℕ → ℕ → ℕ → List PairRow
all_rows threads n zero i = []
all_rows threads n (suc left) i = rows_with threads i n 0 ++ all_rows threads n left (i + 1)

unfoldable pub check_intersection : Globals → List PairRow
check_intersection g = all_rows g.threads g.thread_index g.thread_index 0

-- `struct Pair P[100]` and `pair_index`, which `checkPair` keeps.
pub record Pair : Type 0 where
  pub i : ℕ
  pub j : ℕ

pub record PairTable : Type 0 where
  pub pairs : ℕ → Pair
  pub pair_index : ℕ

abbrev pub is_pair : Pair → ℕ → ℕ → Bool
is_pair p i j = (p.i == i && p.j == j) || (p.i == j && p.j == i)

-- How the loop of `checkPair` ends: by `return 0`, or by its test with the `i` that it has then.
pub data PairLoop : Type 0 where
  returns : PairLoop
  leaves : ℕ → PairLoop
  goes_on : PairLoop

-- `for(index=0;index<pair_index;i++)`: it is `i` that is incremented, and `index` stays.
unfoldable pub pair_loop : ℕ → PairTable → ℕ → ℕ → ℕ → PairLoop
pair_loop zero t index i j = goes_on
pair_loop (suc rounds) t index i j =
    let rest = pair_loop rounds t index (i + 1) j in
    if ltb index t.pair_index
    then (if is_pair (t.pairs index) i j then returns else rest)
    else leaves i

-- The table after the call and its result; `endless` if the loop goes on after the given rounds, `overflow`
-- for a write behind `P`.
pub data PairOut : Type 0 where
  result : PairTable → ℕ → PairOut
  endless overflow : PairOut

abbrev pub after_loop : PairTable → ℕ → PairLoop → PairOut
after_loop t j returns = result t 0
after_loop t j goes_on = endless
after_loop t j (leaves i) =
    if ltb t.pair_index 100
    then result
        (record {
          pairs = update t.pairs t.pair_index (record { i = i; j = j });
          pair_index = t.pair_index + 1;
        })
        1
    else overflow

unfoldable pub check_pair : ℕ → PairTable → ℕ → ℕ → PairOut
check_pair rounds t i j = after_loop t j (pair_loop rounds t 0 i j)
