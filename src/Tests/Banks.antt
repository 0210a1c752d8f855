-- ===== src/Tests/Banks.antt =====
-- The filters of perf2_new.c on concrete addresses.
use node2x6x2b.Base.{
  ℕ, ◌+◌, ◌≤◌, ◌<◌, ◌≡◌, ◌≢◌, refl, arith, true, ◌&&◌, ◌==◌, if◌then◌else◌, some, List, [], ◌∷◌,
  length, ltb,
}
use node2x6x2b.Partitioned.Text.{type_tid, type_addr}
use node2x6x2b.Partitioned.Filters.{filter_size, max_filters, Bfilter, slot, getfilters}
use node2x6x2b.Partitioned.Filters.Bank.{Entry, hits, count, IsBank}
use node2x6x2b.Partitioned.Filters.Insert.{find_index-room, getfilters-IsBank}
use node2x6x2b.Partitioned.Pairs.{Pair, check_intersection_filter, pair_row}
use node2x6x2b.Partitioned.Pairs.Grid.{grid, triangle}
use node2x6x2b.Partitioned.Pairs.Once.{check_intersection_filter-once}
use node2x6x2b.Partitioned.Pairs.Shared.{pair_row-shared}
use node2x6x2b.Tests.Partitioned.{tid_text, addr_text, addr_positive, addr_small}

-- Two threads, 1 and 2, with the same address 5.
abbrev two_filters : ℕ → Bfilter
two_filters i = record {
  taken = ltb i 2;
  thread_id = i + 1;
  filter = λ k. ltb i 2 && (k == slot 5 0 filter_size);
  frequency = λ k. if ltb i 2 && (k == slot 5 0 filter_size) then 1 else 0;
}

abbrev two_entries : List Entry
two_entries = record { tid = 1; addr = 5 } ∷ record { tid = 2; addr = 5 } ∷ []

two_filters-IsBank : IsBank two_filters 2 two_entries
unfolding hits
two_filters-IsBank = record {
  few = omega arith;
  taken = λ i p. refl;
  distinct = λ i j p q e. omega arith;
  counted = λ i h p q. ground arith;
  clear = λ i h p q r. ground arith;
  flags = λ i h p q. ground arith;
  unknown = λ tid h u.
      let first : 1 ≢ tid = u 0 (omega arith) in
      let second : 2 ≢ tid = u 1 (omega arith) in ground arith;
}

first_counts : 0 < count 1 5 two_entries
unfolding count
first_counts = omega arith

second_counts : 0 < count 2 5 two_entries
unfolding count
second_counts = omega arith

pair_row-shared_example :
    ((pair_row two_filters 0 1).intersects ≡ true)
    × (0 < (pair_row two_filters 0 1).stats.intersection_bit_count)
pair_row-shared_example =
    pair_row-shared 0 1 5 two_filters-IsBank (omega arith) (omega arith) (omega arith) (omega arith)
      first_counts second_counts

getfilters-IsBank_example :
    (s' : ℕ → Bfilter) × (used' : ℕ) × (used' ≤ 3)
    × (getfilters tid_text addr_text two_filters ≡ some s')
    × IsBank s' used' (record { tid = type_tid tid_text; addr = type_addr addr_text } ∷ two_entries)
getfilters-IsBank_example =
    getfilters-IsBank two_filters 2 two_entries tid_text addr_text two_filters-IsBank
      (find_index-room (type_tid tid_text) two_filters-IsBank (omega arith)) addr_positive
      addr_small

check_intersection_filter-once_example :
    (ps : List Pair) × (check_intersection_filter two_filters
      ≡ some (record { pairs = ps; rows = grid two_filters 2 max_filters 0 }))
    × (length ps ≡ triangle 2)
check_intersection_filter-once_example =
    check_intersection_filter-once two_filters 2 (omega arith) (λ i p. refl)
