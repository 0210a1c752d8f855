-- ===== src/Partitioned/Input.antt =====
-- perf2_new.c: `process_string` and `read_mems`, which read the report of `perf mem -D`, `populate_filter` and
-- `display_filterInfo`. A line is what `fgets` gives.
pub mod Line
pub mod Both
use node2x6x2b.Base.{
  ℕ, zero, suc, ◌+◌, Bool, true, false, ◌&&◌, ◌||◌, not, Option, none, some, List, [], ◌∷◌, ◌++◌,
  length, ltb, leb, ◌==◌, if◌then◌else◌, ◌>>=◌, guard, same_text,
}
use node2x6x2b.Partitioned.Filters.{max_filters, Bfilter, getfilters}
use node2x6x2b.Partitioned.Threads.{ThreadInfo, fits, add_thread_info}

-- The tokens of `strtok` with `" "`; `token` is the one that is read.
unfoldable pub tokens : List ℕ → List ℕ → List (List ℕ)
tokens [] [] = []
tokens (c ∷ cs) [] = (c ∷ cs) ∷ []
tokens [] (d ∷ ds) = if d == b' ' then tokens [] ds else tokens (d ∷ []) ds
tokens (c ∷ cs) (d ∷ ds) =
    if d == b' ' then (c ∷ cs) ∷ tokens [] ds else tokens (c ∷ cs ++ d ∷ []) ds

-- `threads` and `s`.
pub record Tables : Type 0 where
  pub threads : List ThreadInfo
  pub filters : ℕ → Bfilter

abbrev populate_filter : List ℕ → List ℕ → (ℕ → Bfilter) → Option (ℕ → Bfilter)
populate_filter thread_id mem_addr s = getfilters thread_id mem_addr s

-- `mem_addr[2]`, with what is behind a shorter string.
abbrev pub third : List ℕ → ℕ → ℕ
third [] garbage = garbage
third (a ∷ []) garbage = garbage
third (a ∷ b ∷ []) garbage = 0
third (a ∷ b ∷ c ∷ cs) garbage = c

-- `((int)mem_addr[2]-48)<=7`: a `char` from 128 on is negative.
abbrev is_user : List ℕ → ℕ → Bool
is_user mem_addr garbage =
    let c = third mem_addr garbage in leb (length mem_addr) 14 && (leb c 55 || leb 128 c)

abbrev is_null : List ℕ → Bool
is_null (a ∷ b ∷ c ∷ cs) = a == b'0' && (b == b'x' && c == b'0')
is_null _ = false

-- The addresses that are recorded.
abbrev pub is_accepted : List ℕ → List ℕ → List ℕ → ℕ → Bool
is_accepted process_id thread_id mem_addr garbage =
    is_user mem_addr garbage
    && ((not (same_text (b'0' ∷ []) process_id) || not (same_text (b'0' ∷ []) thread_id))
        && not (is_null mem_addr))

-- `add_threadInfo` and `populate_filter`.
unfoldable pub record_access : List ℕ → List ℕ → List ℕ → Tables → Option Tables
record_access process_id thread_id mem_addr t = do
  threads ← add_thread_info process_id thread_id mem_addr t.threads
  filters ← populate_filter thread_id mem_addr t.filters
  some (record { threads = threads; filters = filters })

-- The `strcpy`s into `process_ID`, `thread_ID`, `TID`, `mem_addr` and `mem`, and the test of `flag`.
unfoldable pub process_tokens : ℕ → List (List ℕ) → Tables → Option Tables
process_tokens garbage (process_id ∷ thread_id ∷ skipped ∷ mem_addr ∷ more) t =
    guard (fits 10 process_id && (fits 10 thread_id && fits 20 mem_addr)) (
      if is_accepted process_id thread_id mem_addr garbage
      then record_access process_id thread_id mem_addr t
      else some t)
process_tokens garbage (process_id ∷ thread_id ∷ more) t =
    guard (fits 10 process_id && fits 10 thread_id) (some t)
process_tokens garbage (process_id ∷ []) t = guard (fits 10 process_id) (some t)
process_tokens garbage [] t = some t

unfoldable pub process_string : ℕ → List ℕ → Tables → Option Tables
process_string garbage string t = process_tokens garbage (tokens [] string) t

abbrev pub is_comment : List ℕ → Bool
is_comment [] = false
is_comment (c ∷ cs) = c == b'#'

-- The loop over the lines of the file.
unfoldable pub read_mems : ℕ → List (List ℕ) → Tables → Option Tables
read_mems garbage [] t = some t
read_mems garbage (string ∷ file) t =
    let skipped = read_mems garbage file t in
    let processed = process_string garbage string t >>= read_mems garbage file in
    if is_comment string then skipped else processed

-- A line of `display_filterInfo`.
pub record FilterRow : Type 0 where
  pub index : ℕ
  pub thread_id : ℕ

-- The loop at `i`.
unfoldable pub filter_rows : ℕ → ℕ → (ℕ → Bfilter) → List FilterRow
filter_rows zero i s = []
filter_rows (suc left) i s =
    let rest = filter_rows left (i + 1) s in
    if (s i).taken then record { index = i; thread_id = (s i).thread_id } ∷ rest else []

unfoldable pub display_filter_info : (ℕ → Bfilter) → List FilterRow
display_filter_info s = filter_rows max_filters 0 s
