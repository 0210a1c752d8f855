-- ===== src/Detector.antt =====
-- hardcore_new6.c: `count_events`, `sample` and `main`.
-- What the kernel does is a parameter: which descriptor `perf_event_open` gives for a core, which count
-- a descriptor holds when the five seconds are over, and which mapping `mmap` gives.
pub mod Threshold
pub mod Runs
use node2x6x2b.Base.{
  ℕ, zero, suc, ◌+◌, ◌^◌, Bool, true, false, ◌&&◌, Option, none, some, List, [], ◌∷◌, ltb, ◌==◌,
  if◌then◌else◌, ◌>>=◌,
}
use node2x6x2b.Samples.{Globals, initialize}
use node2x6x2b.Perf.Abi.{PerfAbi}
use node2x6x2b.Perf.Walk.{Machine}
use node2x6x2b.Perf.Ring.{
  hitm_sample_type, Mapping, ReadOut, zero_size, null_page, done, crash, endless, perf_mmap_read,
}
use node2x6x2b.Report.{ThreadRow, display_sample, PairRow, check_intersection}

-- `#define CORES 10`, `#define PAGE_COUNT 64` and `#define THRESHOLD_VAL 2860000`
abbrev pub cores : ℕ
cores = 10

abbrev pub page_count : ℕ
page_count = 64

abbrev pub threshold_val : ℕ
threshold_val = 2860000

-- `none` is the return value -1 of `perf_event_open`; a count is a 64-bit pattern. `MAP_FAILED`, which
-- is not NULL, is `none` of `mmap`.
pub record PerfKernel : Type 0 where
  pub perf_event_open : ℕ → Option ℕ
  pub read_count : ℕ → ℕ
  pub mmap : ℕ → Option Mapping

-- The loop that opens an event on each core from `i` on; `none` is `exit(EXIT_FAILURE)`.
unfoldable pub open_loop : PerfKernel → ℕ → ℕ → Option (List ℕ)
open_loop k zero i = some []
open_loop k (suc left) i =
    let rest = open_loop k left (i + 1) in do fd ← k.perf_event_open i; fds ← rest; some (fd ∷ fds)

-- `count[i]>THRESHOLD_VAL` of signed numbers
unfoldable pub is_above : ℕ → Bool
is_above count = ltb count (2 ^ 63) && ltb threshold_val count

-- The loop that compares the counts and closes the descriptors.
unfoldable pub threshold_loop : PerfKernel → List ℕ → ℕ → ℕ
threshold_loop k [] ret = ret
threshold_loop k (fd ∷ fds) ret =
    threshold_loop k fds (if is_above (k.read_count fd) then 1 else ret)

unfoldable pub count_events : PerfKernel → Option ℕ
count_events k = do fds ← open_loop k cores 0; some (threshold_loop k fds 0)

-- How `sample` ends: with tables, by `exit`, by an access outside an array or a mapping, or not.
pub data Sampled : Type 0 where
  sampled : Globals → Sampled
  exits crashes hangs : Sampled

module _ (abi : PerfAbi) (page_size : ℕ) (machines : ℕ → ℕ → Machine) (k : PerfKernel) where
  -- The result of `perf_mmap_read` is not looked at.
  abbrev pub after_read : Globals → ReadOut → (Globals → Sampled) → Sampled
  after_read g zero_size next = next g
  after_read g null_page next = next g
  after_read g (done g' data_tail) next = next g'
  after_read g crash next = crashes
  after_read g endless next = hangs

  -- One core: `prev_head[i]=0; … perf_mmap_read(map_page[i],(PAGE_COUNT + 1),…)`. At `MAP_FAILED` the
  -- control page cannot be read.
  abbrev pub read_core : ℕ → Globals → Option Mapping → ReadOut
  read_core i g none = crash
  read_core i g (some m) =
      perf_mmap_read abi page_size (machines i) hitm_sample_type (some m) (page_count + 1) 0 g

  -- `machines i` are the kernel's states at the calls of `storeSample` for core `i`.
  unfoldable pub sample_loop : List ℕ → ℕ → Globals → Sampled
  sample_loop [] i g = sampled g
  sample_loop (fd ∷ fds) i g =
      after_read g (read_core i g (k.mmap fd)) (λ g'. sample_loop fds (i + 1) g')

  abbrev pub sample_cores : Globals → Option (List ℕ) → Sampled
  sample_cores g none = exits
  sample_cores g (some fds) = sample_loop fds 0 g

  unfoldable pub sample : Globals → Sampled
  sample g = sample_cores g (open_loop k cores 0)

-- What `main` prints.
pub record Report : Type 0 where
  pub samples : List ThreadRow
  pub intersection : List PairRow

pub data Outcome : Type 0 where
  quiet : Outcome
  reports : Report → Outcome
  exits crashes hangs : Outcome

abbrev pub report_on : Sampled → Outcome
report_on (Sampled.sampled g) =
    Outcome.reports (record { samples = display_sample g; intersection = check_intersection g })
report_on Sampled.exits = Outcome.exits
report_on Sampled.crashes = Outcome.crashes
report_on Sampled.hangs = Outcome.hangs

-- `if(count_events())`
abbrev if_events : Option ℕ → Outcome → Outcome
if_events none then_part = Outcome.exits
if_events (some ret) then_part = if ret == 0 then Outcome.quiet else then_part

-- `counting` is the kernel during `count_events`, `sampling` during `sample`.
unfoldable pub main : PerfAbi → ℕ → (ℕ → ℕ → Machine) → PerfKernel → PerfKernel → Globals → Outcome
main abi page_size machines counting sampling g =
    if_events (count_events counting)
      (report_on (sample abi page_size machines sampling (initialize g)))
