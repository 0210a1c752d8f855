-- ===== src/Partitioned/Pairs.antt =====
-- perf2_new.c: `init_resFilter`, `struct Pair P[100]`, `checkPair`, `insertPair`, `checkInRange`, `checkRESFILETER` and
-- `check_intersection_filter`.
pub mod Grid
pub mod Row
pub mod Once
pub mod Shared
use node2x6x2b.Base.{
  ℕ, zero, suc, ◌+◌, ◌*◌, ◌/◌, ◌<◌, ◌≡◌, arith, Bool, true, false, ◌&&◌, ◌||◌, not, Option, none,
  some, List, [], ◌∷◌, ◌++◌, ltb, ◌==◌, if◌then◌else◌, ◌>>=◌, guard, update, length,
}
use node2x6x2b.Partitioned.Filters.{filter_size, partitions, max_filters, Bfilter}

pub record Pair : Type 0 where
  pub i : ℕ
  pub j : ℕ

abbrev pub max_pairs : ℕ
max_pairs = 100

abbrev pub is_pair : Pair → ℕ → ℕ → Bool
is_pair p i j = (p.i == i && p.j == j) || (p.j == i && p.i == j)

-- The list is `P[0]` to `P[pair_index-1]`, the last one first; the result does not depend on the order.
unfoldable pub check_pair : List Pair → ℕ → ℕ → Bool
check_pair [] i j = true
check_pair (p ∷ ps) i j = if is_pair p i j then false else check_pair ps i j

-- `none` is a write behind `P`.
unfoldable pub insert_pair : List Pair → ℕ → ℕ → Option (List Pair)
insert_pair ps i j = guard (ltb (length ps) max_pairs) (some (record { i = i; j = j } ∷ ps))

-- The counters of `check_intersection_filter`, and `resFilter`.
pub record Stats : Type 0 where
  pub set_in_filter1 : ℕ
  pub set_in_filter2 : ℕ
  pub fr_in_filter1 : ℕ
  pub fr_in_filter2 : ℕ
  pub intersection_bit_count : ℕ
  pub intersect_fr_in_filter1 : ℕ
  pub intersect_fr_in_filter2 : ℕ
  pub res_filter : ℕ → Bool

-- All counters are 0 and `resFilter` is clear at first, and again behind each pair.
abbrev pub no_stats : Stats
no_stats = record {
  set_in_filter1 = 0;
  set_in_filter2 = 0;
  fr_in_filter1 = 0;
  fr_in_filter2 = 0;
  intersection_bit_count = 0;
  intersect_fr_in_filter1 = 0;
  intersect_fr_in_filter2 = 0;
  res_filter = λ k. false;
}

-- The three `if`s for slot `k`.
abbrev pub count_first : Bfilter → ℕ → Stats → Stats
count_first f k st =
    if f.filter k
    then record st {
      set_in_filter1 = st.set_in_filter1 + 1;
      fr_in_filter1 = st.fr_in_filter1 + f.frequency k;
    }
    else st

abbrev pub count_second : Bfilter → ℕ → Stats → Stats
count_second f k st =
    if f.filter k
    then record st {
      set_in_filter2 = st.set_in_filter2 + 1;
      fr_in_filter2 = st.fr_in_filter2 + f.frequency k;
    }
    else st

abbrev pub count_both : Bfilter → Bfilter → ℕ → Stats → Stats
count_both f g k st =
    if f.filter k && g.filter k
    then record st {
      res_filter = update st.res_filter k true;
      intersection_bit_count = st.intersection_bit_count + 1;
      intersect_fr_in_filter1 = st.intersect_fr_in_filter1 + f.frequency k;
      intersect_fr_in_filter2 = st.intersect_fr_in_filter2 + g.frequency k;
    }
    else st

-- `for(k=0;k<M;k++)`
unfoldable pub stats_loop : ℕ → ℕ → Bfilter → Bfilter → Stats → Stats
stats_loop zero k f g st = st
stats_loop (suc left) k f g st =
    stats_loop left (k + 1) f g (count_both f g k (count_second g k (count_first f k st)))

-- `init_resFilter`, which is called behind each pair, where the counters are set to 0 too: the next pair starts from
-- `no_stats`, as the first one does.
unfoldable init_res_filter : (ℕ → Bool) → ℕ → Bool
init_res_filter res_filter i = if ltb i filter_size then false else res_filter i

init_res_filter-no_stats :
    (res_filter : ℕ → Bool) (i : ℕ)
    → i < filter_size
    → init_res_filter res_filter i ≡ no_stats.res_filter i
unfolding init_res_filter
init_res_filter-no_stats res_filter i h = ground arith

-- `checkInRange` at `i`, with `left` slots to go.
unfoldable pub check_in_range : (ℕ → Bool) → ℕ → ℕ → Bool
check_in_range res zero i = false
check_in_range res (suc left) i =
    let rest = check_in_range res left (i + 1) in if res i then true else rest

-- The loop of `checkRESFILETER` at partition `i`.
unfoldable pub check_partitions : (ℕ → Bool) → ℕ → ℕ → Bool → Bool
check_partitions res_filter zero i res = res
check_partitions res_filter (suc left) i res =
    check_partitions res_filter left (i + 1)
      (res && check_in_range res_filter (filter_size / partitions) (i * (filter_size / partitions)))

unfoldable pub check_res_filter : (ℕ → Bool) → Bool
check_res_filter res_filter = check_partitions res_filter partitions 0 true

-- What is printed of a pair; `intersects` is the choice between the two messages.
pub record PairRow : Type 0 where
  pub thread1 : ℕ
  pub thread2 : ℕ
  pub stats : Stats
  pub intersects : Bool

unfoldable pub pair_row : (ℕ → Bfilter) → ℕ → ℕ → PairRow
pair_row s i j =
    let st = stats_loop filter_size 0 (s i) (s j) no_stats in
    record {
      thread1 = (s i).thread_id;
      thread2 = (s j).thread_id;
      stats = st;
      intersects = check_res_filter st.res_filter;
    }

-- The pairs of `P`, and the rows printed so far.
pub record Progress : Type 0 where
  pub pairs : List Pair
  pub rows : List PairRow

abbrev compare_filters : (ℕ → Bfilter) → ℕ → ℕ → Progress → Option Progress
compare_filters s i j p = insert_pair p.pairs i j >>= λ pairs.
    some (record { pairs = pairs; rows = p.rows ++ pair_row s i j ∷ [] })

-- The inner loop at `j`, which a filter that is not taken ends.
unfoldable pub inner_loop : ℕ → ℕ → ℕ → (ℕ → Bfilter) → Progress → Option Progress
inner_loop zero j i s p = some p
inner_loop (suc left) j i s p =
    let compared = compare_filters s i j p >>= inner_loop left (j + 1) i s in
    let passed = inner_loop left (j + 1) i s p in
    if (s j).taken
    then (if not (i == j) && check_pair p.pairs i j then compared else passed)
    else some p

-- The outer loop at `i`.
unfoldable pub outer_loop : ℕ → ℕ → (ℕ → Bfilter) → Progress → Option Progress
outer_loop zero i s p = some p
outer_loop (suc left) i s p =
    let compared = inner_loop max_filters 0 i s p >>= outer_loop left (i + 1) s in
    if (s i).taken then compared else some p

-- `main` sets `pair_index=0` before.
unfoldable pub check_intersection_filter : (ℕ → Bfilter) → Option Progress
check_intersection_filter s = outer_loop max_filters 0 s (record { pairs = []; rows = [] })
