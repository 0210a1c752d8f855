-- ===== src/Partitioned/Monitor.antt =====
-- perf2_new.c: `readOutputFile`, which reads the counts that `perf stat` printed, and a round of `main`. The
-- files that `perf` leaves are lists of lines.
pub mod Counts
pub mod Sampling
use node2x6x2b.Base.{
  ℕ, zero, suc, ◌+◌, ◌-◌, ◌*◌, ◌^◌, Bool, true, false, ◌&&◌, ◌||◌, not, Option, none, some, List,
  [], ◌∷◌, ◌++◌, length, ltb, leb, ◌==◌, if◌then◌else◌, ◌>>=◌, u64, get_or,
}
use node2x6x2b.Partitioned.Filters.{Bfilter, initialize_filters}
use node2x6x2b.Partitioned.Pairs.{Progress, check_intersection_filter}
use node2x6x2b.Partitioned.Threads.{ThreadInfo, display_thread_info}
use node2x6x2b.Partitioned.Input.{Tables, is_comment, read_mems, FilterRow, display_filter_info}

-- `#define NUM_EVENTS 3` and `#define THRESHOLD_VAL 2860000`
abbrev pub num_events : ℕ
num_events = 3

abbrev pub threshold_val : ℕ
threshold_val = 2860000

abbrev pub is_digit : ℕ → Bool
is_digit c = leb b'0' c && leb c b'9'

-- The first loop over the string: whether it ends with `flag==1`.
unfoldable pub has_digit : List ℕ → Bool
has_digit [] = false
has_digit (c ∷ cs) = let rest = has_digit cs in if is_digit c then true else rest

-- The second loop: `none` is `flag2==1`, and a `long` is its 64-bit pattern.
unfoldable pub number : ℕ → List ℕ → Option ℕ
number num [] = some num
number num (c ∷ cs) =
    let next = number (u64 (num * 10 + c + 2 ^ 64 - 48)) cs in
    let rest = number num cs in
    if c == b'.'
    then none
    else (if c == b'r' then some num else (if is_digit c then next else rest))

-- `if(flag2==0)`
abbrev pub append_count : List ℕ → Option ℕ → List ℕ
append_count event_cnt none = event_cnt
append_count event_cnt (some num) =
    if ltb (length event_cnt) num_events then event_cnt ++ num ∷ [] else event_cnt

-- One line of the file. The list is that of the first `evnt_cnt_index` counts.
unfoldable pub read_count : List ℕ → List ℕ → List ℕ
read_count string event_cnt =
    if not (is_comment string) && has_digit string
    then append_count event_cnt (number 0 string)
    else event_cnt

unfoldable pub read_lines : List (List ℕ) → List ℕ → List ℕ
read_lines [] event_cnt = event_cnt
read_lines (string ∷ file) event_cnt = read_lines file (read_count string event_cnt)

unfoldable pub read_output_file : List (List ℕ) → List ℕ
read_output_file file = read_lines file []

-- What a round prints of the samples.
pub record Report : Type 0 where
  pub threads : List ThreadInfo
  pub filters : List FilterRow
  pub progress : Progress

-- The tables, and the report of a round that samples.
pub record Round : Type 0 where
  pub tables : Tables
  pub report : Option Report

-- The branch for many events, in which `sample_addresses` reads the report.
unfoldable pub sample_round : ℕ → List (List ℕ) → Tables → Option Round
sample_round garbage report t = do
  t' ← read_mems garbage report (record t { filters = initialize_filters t.filters })
  progress ← check_intersection_filter t'.filters
  some (record {
    tables = t';
    report = some (record {
      threads = display_thread_info t'.threads;
      filters = display_filter_info t'.filters;
      progress = progress;
    });
  })

-- `event_cnt[0]>THRESHOLD_VAL`, for a `long`, which is `stale` where the file has no count.
abbrev is_many : ℕ → List ℕ → Bool
is_many stale event_cnt = let n = get_or event_cnt 0 stale in ltb threshold_val n && ltb n (2 ^ 63)

-- One run of the body of `while(1)`.
unfoldable pub round : ℕ → ℕ → List (List ℕ) → List (List ℕ) → Tables → Option Round
round stale garbage output report t =
    if is_many stale (read_output_file output)
    then sample_round garbage report t
    else some (record { tables = t; report = none })
